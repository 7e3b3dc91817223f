-- ===== src/Sdk/Requests.antt =====
-- sdk/client.py: the calls of the client, each of them one request.
use flash_connector.Prelude.{
  ℕ, String, Bool, false, ◌&&◌, ◌||◌, not, Option, none, some, List, [], ◌∷◌, ◌++◌, map, ◌==◌,
  if◌then◌else◌, is_empty, is_some, is_nil, or_else, strip, lower, text_append, Result, ok, err,
  ◌>>=◌,
}
use flash_connector.Prelude.Dict.{Dict, lookup, insert}
use flash_connector.Json.{Json, null, bool, str, arr, object, to_items, optional_text}
use flash_connector.Sdk.{Client, Request, Method, get, post, send_request}
use flash_connector.Sdk.Errors.{Python, Reply, SdkError, value_error, foreign}

-- The arguments of `submit_job` and `create_response`.
pub record Submission : Type 0 where
  pub input_text : Option String
  pub messages : Option (List Json)
  pub metadata : Option (Dict Json)
  pub subtenant_code : Option String
  pub idempotency_key : Option String
  pub save_default : Bool

abbrev raise_value_error : String → SdkError
raise_value_error m = record { kind = value_error; message = m; status_code = none; detail = null }

abbrev pub has_messages : Option (List Json) → Bool
has_messages none = false
has_messages (some ms) = not (is_nil ms)

abbrev field_of : String → Option Json → Dict Json
field_of k none = []
field_of k (some j) = (k, j) ∷ []

abbrev input_json : Option String → Option Json
input_json none = none
input_json (some s) = some (str s)

abbrev messages_json : Option (List Json) → Option Json
messages_json none = none
messages_json (some ms) = some (arr (to_items ms))

unfoldable pub submission_payload : Submission → Dict Json
submission_payload a =
    (("metadata", object (or_else a.metadata []))
      ∷ ("subtenant_code", optional_text a.subtenant_code)
      ∷ ("save_default", bool a.save_default)
      ∷ [])
    ++ (field_of "input" (input_json a.input_text)
        ++ field_of "messages" (messages_json a.messages))

-- The key in the headers is stripped; one that is blank is left out.
unfoldable pub key_headers : Option String → Option (Dict String)
key_headers none = none
key_headers (some key) =
    if is_empty (strip key) then none else some (("Idempotency-Key", strip key) ∷ [])

unfoldable pub submission_request : String → String → Submission → Result SdkError Request
unfolding submission_payload key_headers
submission_request endpoint_id tail a =
    if not (is_some a.input_text) && not (has_messages a.messages)
    then err (raise_value_error "Either input_text or messages must be provided")
    else ok (record {
      method = post;
      path = text_append "/v1/endpoints/" (text_append endpoint_id tail);
      headers = key_headers a.idempotency_key;
      json = some (submission_payload a);
    })

abbrev pub JobSubmission : Type 0
JobSubmission = String × String

abbrev pub field_text : Python → String → Dict Json → Result SdkError String
field_text py k d = elim (lookup k d) [
  | none ↦ err (record {
    kind = foreign;
    message = text_append "KeyError: " k;
    status_code = none;
    detail = null;
  })
  | some j ↦ ok (py.show j)
]

-- `from_api` of `JobSubmission`, and of `JobCancellation` and `BatchCancellation`, which have the same
-- two fields under other names.
unfoldable pub from_api : Python → String → Dict Json → Result SdkError JobSubmission
from_api py id_key d = do
  id ← field_text py id_key d
  status ← field_text py "status" d
  ok (id, status)

unfoldable pub normalize_tier : String → String
normalize_tier tier =
    let cleaned = lower (strip (if is_empty tier then "auto" else tier)) in
    if cleaned == "auto" || cleaned == "default" || cleaned == "flex" || cleaned == "priority"
    then cleaned
    else "auto"

-- The arguments of `submit_batch`; absent lists are empty.
pub record BatchSubmissionArguments : Type 0 where
  pub inputs : List String
  pub items : List (Dict Json)
  pub batch_name : Option String
  pub metadata : Option (Dict Json)
  pub subtenant_code : Option String
  pub save_default : Bool
  pub service_tier : String

unfoldable pub batch_request : String → BatchSubmissionArguments → Result SdkError Request
unfolding normalize_tier
batch_request endpoint_id a =
    let all_items =
      map (λ s. object (("input", str s) ∷ [])) a.inputs ++ map (λ d. object d) a.items in
    let tier = normalize_tier a.service_tier in
    if is_nil all_items
    then err (raise_value_error "At least one batch item is required")
    else ok (record {
      method = post;
      path = text_append "/v1/endpoints/" (text_append endpoint_id "/batches");
      headers = none;
      json = some (
          ("items", arr (to_items all_items))
          ∷ ("batch_name", optional_text a.batch_name)
          ∷ ("metadata", object (insert "service_tier" (str tier) (or_else a.metadata [])))
          ∷ ("subtenant_code", optional_text a.subtenant_code)
          ∷ ("save_default", bool a.save_default)
          ∷ ("service_tier", str tier)
          ∷ ("completion_window", str "24h")
          ∷ []);
    })

-- The requests that read or cancel: `GET` and `POST` of a path, with no header and no body.
abbrev pub bare_request : Method → String → Request
bare_request method path = record { method = method; path = path; headers = none; json = none }

abbrev pub get_job_request : String → Request
get_job_request job_id = bare_request get (text_append "/v1/jobs/" job_id)

abbrev pub get_batch_request : String → Request
get_batch_request batch_id = bare_request get (text_append "/v1/batches/" batch_id)

abbrev pub cancel_job_request : String → Request
cancel_job_request job_id =
    bare_request post (text_append "/v1/jobs/" (text_append job_id "/cancel"))

abbrev pub cancel_batch_request : String → Request
cancel_batch_request batch_id =
    bare_request post (text_append "/v1/batches/" (text_append batch_id "/cancel"))

module _ {World : Type 0} (pause : ℕ → World → World)
    (send : Method → String → Dict String → Option (Dict Json) → World → World × Reply)
    (py : Python) (c : Client) where
  -- A request, and what is made of the answer.
  unfoldable pub exchange :
      {A : Type 0}
      → Result SdkError Request
      → (Dict Json → Result SdkError A)
      → World
      → World × Result SdkError A
  exchange (err e) parse w = (w, err e)
  exchange (ok q) parse w =
      let (w', answer) = send_request pause send py c q w in (w', answer >>= parse)

  unfoldable pub submit_job : String → Submission → World → World × Result SdkError JobSubmission
  unfolding submission_request exchange from_api
  submit_job endpoint_id a w =
      exchange (submission_request endpoint_id "/jobs" a) (from_api py "job_id") w

  unfoldable pub cancel_job : String → World → World × Result SdkError JobSubmission
  unfolding exchange from_api
  cancel_job job_id w = exchange (ok (cancel_job_request job_id)) (from_api py "job_id") w

  unfoldable pub cancel_batch : String → World → World × Result SdkError JobSubmission
  unfolding exchange from_api
  cancel_batch batch_id w = exchange (ok (cancel_batch_request batch_id)) (from_api py "batch_id") w

  -- The calls whose answer is a longer record, which `parse` makes.
  unfoldable pub create_response :
      {A : Type 0}
      → (Dict Json → Result SdkError A)
      → String
      → Submission
      → World
      → World × Result SdkError A
  unfolding submission_request exchange
  create_response parse endpoint_id a w =
      exchange (submission_request endpoint_id "/responses" a) parse w

  unfoldable pub submit_batch :
      {A : Type 0}
      → (Dict Json → Result SdkError A)
      → String
      → BatchSubmissionArguments
      → World
      → World × Result SdkError A
  unfolding batch_request exchange
  submit_batch parse endpoint_id a w = exchange (batch_request endpoint_id a) parse w

  unfoldable pub get_job :
      {A : Type 0} → (Dict Json → Result SdkError A) → String → World → World × Result SdkError A
  unfolding exchange
  get_job parse job_id w = exchange (ok (get_job_request job_id)) parse w

  unfoldable pub get_batch :
      {A : Type 0} → (Dict Json → Result SdkError A) → String → World → World × Result SdkError A
  unfolding exchange
  get_batch parse batch_id w = exchange (ok (get_batch_request batch_id)) parse w
