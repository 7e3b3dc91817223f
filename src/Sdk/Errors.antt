-- ===== src/Sdk/Errors.antt =====
-- sdk/errors.py: the exceptions of the client, and which one a response raises.
use flash_connector.Prelude.{
  ℕ, String, Bool, ◌&&◌, ◌||◌, Option, none, some, leb, nat_eq, if◌then◌else◌, is_empty,
  text_append, Result,
}
use flash_connector.Prelude.Dict.{Dict, lookup}
use flash_connector.Json.{Json, null, str, obj, fields}

-- The exceptions of sdk/errors.py; `foreign` is an exception of another library.
pub data ErrorKind : Type 0 where
  base authentication permission_denied not_found validation conflict rate_limit server : ErrorKind
  job_wait_timeout batch_wait_timeout foreign value_error : ErrorKind

pub record SdkError : Type 0 where
  pub kind : ErrorKind
  pub message : String
  pub status_code : Option ℕ
  pub detail : Json

-- `response.json()` is nothing where it raises.
pub record Response : Type 0 where
  pub status_code : ℕ
  pub json : Option Json
  pub text : String

-- What one call of the HTTP client comes to: a response, or a `RequestError` with its text.
pub data Reply : Type 0 where
  replied : Response → Reply
  broken : String → Reply

-- Python's `str` of a value and of a number, and `dict` of a value.
pub record Python : Type 0 where
  pub show : Json → String
  pub show_number : ℕ → String
  pub dict : Json → Result String (Dict Json)

-- httpx: 4xx and 5xx.
abbrev pub is_error : Response → Bool
is_error r = leb 400 r.status_code && leb r.status_code 599

unfoldable pub error_detail : Response → Json
error_detail r = elim r.json [
  | none ↦ str r.text
  | some null ↦ str r.text
  | some (obj f) ↦ elim (lookup "detail" (fields f)) [ none ↦ obj f | some d ↦ d ]
  | some body ↦ body
]

unfoldable pub error_message : Python → ℕ → Json → String
error_message py status (obj f) = elim (lookup "message" (fields f)) [
  | some (str m) ↦ m
  | _ ↦ py.show (obj f)
]
error_message py status (str s) =
    if is_empty s then text_append "HTTP " (py.show_number status) else s
error_message py status _ = text_append "HTTP " (py.show_number status)

unfoldable pub error_kind : ℕ → ErrorKind
error_kind status =
    if nat_eq status 401
    then authentication
    else if nat_eq status 403
    then permission_denied
    else if nat_eq status 404
    then not_found
    else if nat_eq status 400 || nat_eq status 422
    then validation
    else if nat_eq status 409
    then conflict
    else if nat_eq status 429
    then rate_limit
    else if leb 500 status
    then server
    else base

-- The exception that `raise_for_response_error` raises, if any.
unfoldable pub raise_for_response_error : Python → Response → Option SdkError
unfolding error_detail error_message error_kind
raise_for_response_error py r =
    if is_error r
    then some (record {
      kind = error_kind r.status_code;
      message = error_message py r.status_code (error_detail r);
      status_code = some r.status_code;
      detail = error_detail r;
    })
    else none
