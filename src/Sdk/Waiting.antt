-- ===== src/Sdk/Waiting.antt =====
-- sdk/client.py: `wait_for_job`, `wait_for_batch` and `submit_and_wait`, over what `get_job` and
-- `get_batch` return.
use flash_connector.Prelude.{
  ℕ, zero, suc, ◌-◌, String, Bool, true, false, Option, none, some, [], ◌∷◌, ◌==◌, ◌||◌,
  if◌then◌else◌, leb, text_append, Result, ok, err,
}
use flash_connector.Json.{str, object}
use flash_connector.Sdk.Errors.{SdkError, ErrorKind}

-- Of a `JobDetail` or a `BatchDetail`, what the waiting reads.
pub record Detail : Type 0 where
  pub id : String
  pub status : String

abbrev pub is_terminal : Detail → Bool
is_terminal d = (d.status == "completed") || (d.status == "failed") || (d.status == "canceled")

-- `JobWaitTimeoutError` and `BatchWaitTimeoutError`: the kind, the noun and the name of the id.
pub record Awaited : Type 0 where
  pub kind : ErrorKind
  pub noun : String
  pub id_key : String

abbrev pub timeout_error : Awaited → String → Detail → SdkError
timeout_error a id last = record {
  kind = a.kind;
  message = text_append "Timed out waiting for " (text_append a.noun (text_append " " id));
  status_code = none;
  detail = object ((a.id_key, str id) ∷ ("last_status", str last.status) ∷ []);
}

-- `timeout_seconds is not None and (time.monotonic() - started) >= timeout_seconds`
abbrev pub is_late : Option ℕ → ℕ → ℕ → Bool
is_late none started now = false
is_late (some limit) started now = leb limit (now - started)

-- The clock counts some unit of time, in which the limit and the interval are given; `fetch` is the
-- request for the state, `sleep` the sleep of one interval. The result is nothing where the fuel runs
-- out.
module _ {World : Type 0} (clock : World → ℕ) (sleep : World → World)
    (fetch : World → World × Result SdkError Detail) (a : Awaited) (id : String) where
  unfoldable pub wait_from : Option ℕ → ℕ → ℕ → World → World × Option (Result SdkError Detail)
  wait_from limit started zero w = (w, none)
  wait_from limit started (suc fuel) w =
      let (w', answer) = fetch w in
      let again = wait_from limit started fuel (sleep w') in
      elim answer [
        | err e ↦ (w', some (err e))
        | ok d ↦
            if is_terminal d
            then (w', some (ok d))
            else if is_late limit started (clock w')
            then (w', some (err (timeout_error a id d)))
            else again
      ]

  unfoldable pub wait_for : ℕ → Option ℕ → World → World × Option (Result SdkError Detail)
  unfolding wait_from
  wait_for fuel limit w = wait_from limit (clock w) fuel w

-- `submit_and_wait`: the request, inline or queued, and then the wait, which needs no further request
-- where the inline answer is terminal. `respond` and `submit` give the job, or its id.
module _ {World : Type 0} (respond : World → World × Result SdkError Detail)
    (submit : World → World × Result SdkError String)
    (wait : String → World → World × Option (Result SdkError Detail)) where
  unfoldable pub submit_and_wait : Bool → World → World × Option (Result SdkError Detail)
  submit_and_wait true w =
      let (w', answer) = respond w in
      elim answer [
        | err e ↦ (w', some (err e))
        | ok d ↦ if is_terminal d then (w', some (ok d)) else wait d.id w'
      ]
  submit_and_wait false w =
      let (w', answer) = submit w in elim answer [ err e ↦ (w', some (err e)) | ok id ↦ wait id w' ]
