-- ===== src/Versions/Tests.antt =====
-- Runs of api/app/services/versioning.py.
use flash_connector.Prelude.{String, none, List, [], ◌∷◌, ◌≡◌, refl, ok, err, arith, strip, select}
use flash_connector.Jobs.{EndpointVersion}
use flash_connector.Versions.{
  Registry, VersionStore, EndpointVersionCreate, create_endpoint_version_record, latest_version,
  insert_version, add_contexts, resolve_route, new_version, has_twice, is_owned,
}
use flash_connector.Versions.Numbers.{Numbers, create_endpoint_version_record-Numbers}

abbrev registry : Registry
registry = record {
  ensure_slug = λ s. ok s;
  validate_model_params = λ slug model params. ok params;
  targets = [];
  personas = [];
  context_blocks = record { id = "c"; tenant_id = "t" } ∷ [];
}

abbrev request : List String → EndpointVersionCreate
request blocks = record {
  system_prompt = "Answer.";
  input_template = none;
  target_id = none;
  provider = "openai";
  model = "small";
  params_json = [];
  persona_id = none;
  context_block_ids = blocks;
}

abbrev first : EndpointVersion
first = new_version registry "v1" "e" "t" 1 (request []) "openai" "small" []

abbrev store : VersionStore
store = record { versions = first ∷ []; contexts = [] }

create_endpoint_version_record-Numbers_example :
    Numbers "e"
      (has_twice (select (is_owned "t" registry.context_blocks) ("c" ∷ [])))
      (first ∷ [])
      (first ∷ [])
      (create_endpoint_version_record registry
        (λ rows. rows)
        "v2"
        "e"
        "t"
        (request ("c" ∷ []))
        store)
create_endpoint_version_record-Numbers_example =
    create_endpoint_version_record-Numbers registry (λ rows. rows) "v2" "e" "t" (request ("c" ∷ []))
      store (λ e n. ground arith)

second_run :
    (create_endpoint_version_record registry
      (λ rows. rows)
      "v2"
      "e"
      "t"
      (request ("c" ∷ []))
      store).0
    ≡ ok (new_version registry "v2" "e" "t" 2 (request ("c" ∷ [])) "openai" "small" [])
unfolding create_endpoint_version_record latest_version insert_version add_contexts resolve_route
    strip
second_run = refl

-- Another session has taken the number.
taken_run :
    (create_endpoint_version_record registry
      (λ rows. new_version registry "v3" "e" "t" 2 (request []) "openai" "small" [] ∷ rows)
      "v2"
      "e"
      "t"
      (request [])
      store).0
    ≡ err "IntegrityError"
unfolding create_endpoint_version_record latest_version insert_version add_contexts resolve_route
    strip
taken_run = refl

-- A block that is named twice: the call raises, and the version stays.
twice_run :
    let (answer, s') =
      create_endpoint_version_record registry
        (λ rows. rows)
        "v2"
        "e"
        "t"
        (request ("c" ∷ "c" ∷ []))
        store in
    (answer ≡ err "IntegrityError")
    × (s'.versions
        ≡ first
          ∷ new_version registry "v2" "e" "t" 2 (request ("c" ∷ "c" ∷ [])) "openai" "small" []
          ∷ [])
unfolding create_endpoint_version_record latest_version insert_version add_contexts resolve_route
    strip
twice_run = (refl, refl)
