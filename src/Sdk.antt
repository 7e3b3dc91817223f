-- ===== src/Sdk.antt =====
-- sdk/client.py and sdk/errors.py: the Python client of the public API. The network with all behind
-- it is a world that each call changes: `send` is one call of the HTTP client and `pause` a sleep, in
-- multiples of `retry_backoff_seconds` (none where that is zero).
pub mod Errors
pub mod Requests
pub mod Waiting
pub mod Ending
pub mod Retries
pub mod Delivery
mod Tests
use Prim.Native.Nat.{◌^◌}
use flash_connector.Prelude.{
  ℕ, zero, suc, ◌+◌, ◌-◌, String, Bool, true, false, ◌&&◌, ◌||◌, not, Option, none, some, List, [],
  ◌∷◌, ◌==◌, leb, ltb, nat_eq, if◌then◌else◌, any, is_empty, strip, lower, text_append, Result, ok,
  err,
}
use text.Mathlib.Text.{starts_with}
use flash_connector.Prelude.Dict
use flash_connector.Prelude.Dict.{Dict, lookup}
use flash_connector.Json.{Json, null, str, obj, arr, object, fields}
use flash_connector.Sdk.Errors.{
  ErrorKind, SdkError, Response, Reply, Python, is_error, error_detail, error_message, error_kind,
  raise_for_response_error, base, authentication, permission_denied, not_found, validation,
  conflict, rate_limit, server, job_wait_timeout, batch_wait_timeout, foreign, value_error, replied,
  broken,
}

-- The client's settings; `max_request_retries` is not negative, as the constructor makes it.
pub record Client : Type 0 where
  pub base_url : String
  pub api_key : String
  pub user_agent : String
  pub max_request_retries : ℕ
  pub retry_on_status_codes : List ℕ

-- `method.upper()`: the methods that the test knows, and all others.
pub data Method : Type 0 where
  get head options post put patch delete : Method
  other : String → Method

abbrev pub method_name : Method → String
method_name get = "GET"
method_name head = "HEAD"
method_name options = "OPTIONS"
method_name post = "POST"
method_name put = "PUT"
method_name patch = "PATCH"
method_name delete = "DELETE"
method_name (other s) = s

abbrev pub is_safe : Method → Bool
is_safe get = true
is_safe head = true
is_safe options = true
is_safe _ = false

abbrev pub is_write : Method → Bool
is_write post = true
is_write put = true
is_write patch = true
is_write delete = true
is_write _ = false

abbrev pub names_key : String × String → Bool
names_key (key, value) = (lower key == "idempotency-key") && not (is_empty (strip value))

unfoldable pub can_retry_request : Method → Option (Dict String) → Bool
can_retry_request method headers =
    if is_safe method
    then true
    else if is_write method
    then elim headers [ none ↦ false | some h ↦ any names_key h ]
    else false

unfoldable pub build_headers : Client → Option (Dict String) → Dict String
build_headers c extra =
    let own = ("x-api-key", c.api_key) ∷ ("user-agent", c.user_agent) ∷ [] in
    elim extra [ none ↦ own | some h ↦ Dict.merge own h ]

pub record Request : Type 0 where
  pub method : Method
  pub path : String
  pub headers : Option (Dict String)
  pub json : Option (Dict Json)

abbrev pub mem_number : ℕ → List ℕ → Bool
mem_number n = any (λ m. nat_eq m n)

abbrev foreign_error : String → SdkError
foreign_error m = record { kind = foreign; message = m; status_code = none; detail = null }

-- A response that is not tried again.
unfoldable pub finish_response : Python → Response → Result SdkError (Dict Json)
unfolding raise_for_response_error
finish_response py r = elim (raise_for_response_error py r) [
  | some e ↦ err e
  | none ↦ if nat_eq r.status_code 204 then ok [] else elim r.json [
    | none ↦ err (foreign_error "JSONDecodeError")
    | some body ↦ elim (py.dict body) [ err m ↦ err (foreign_error m) | ok d ↦ ok d ]
  ]
]

abbrev no_response : SdkError
no_response = record {
  kind = base;
  message = "Request failed without response";
  status_code = none;
  detail = null;
}

abbrev pub broken_error : Python → ℕ → String → Request → SdkError
broken_error py attempt exc q = record {
  kind = base;
  message =
      text_append "Request failed after "
        (text_append (py.show_number attempt) (text_append " attempt(s): " exc));
  status_code = none;
  detail = object (("path", str q.path) ∷ ("method", str (method_name q.method)) ∷ []);
}

-- A reply after which another attempt is made, if one is left.
abbrev pub is_transient : Client → Reply → Bool
is_transient c (broken exc) = true
is_transient c (replied r) = mem_number r.status_code c.retry_on_status_codes

-- What the last attempt's reply comes to.
unfoldable pub decide : Python → ℕ → Request → Reply → Result SdkError (Dict Json)
unfolding finish_response
decide py attempt q (broken exc) = err (broken_error py attempt exc q)
decide py attempt q (replied r) = finish_response py r

abbrev pub url : Client → String → String
url c path =
    if starts_with path "http://" || starts_with path "https://"
    then path
    else text_append c.base_url path

-- `1 + self.max_request_retries if can_retry else 1`, less the first attempt.
abbrev pub allowed_retries : Client → Request → ℕ
allowed_retries c q = if can_retry_request q.method q.headers then c.max_request_retries else 0

-- The loop, on the attempts left, where `call` is the call of the HTTP client; the last line of the
-- function is not reached.
module _ {World : Type 0} (pause : ℕ → World → World) where
  unfoldable pub attempts_from :
      (World → World × Reply)
      → Python
      → Client
      → Request
      → ℕ
      → ℕ
      → World
      → World × Result SdkError (Dict Json)
  unfolding decide
  attempts_from call py c q zero attempt w = (w, err no_response)
  attempts_from call py c q (suc left) attempt w =
      let (w', reply) = call w in
      let again = attempts_from call py c q left (attempt + 1) (pause (2 ^ (attempt - 1)) w') in
      if is_transient c reply && ltb 0 left then again else (w', decide py attempt q reply)

  unfoldable pub send_request :
      (Method → String → Dict String → Option (Dict Json) → World → World × Reply)
      → Python
      → Client
      → Request
      → World
      → World × Result SdkError (Dict Json)
  unfolding attempts_from can_retry_request
  send_request send py c q w =
      attempts_from (send q.method (url c q.path) (build_headers c q.headers) q.json) py c q
        (suc (allowed_retries c q)) 1 w
