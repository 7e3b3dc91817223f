-- ===== src/Training/Query.antt =====
-- The query for events, in api/app/services/training.py.
use flash_connector.Prelude.{
  ℕ, String, Bool, true, false, ◌&&◌, ◌||◌, not, Option, none, some, List, [], ◌∷◌, ltb, leb,
  if◌then◌else◌, is_empty, any, select, ◌==◌,
}
use flash_connector.Jobs.{holds}
use flash_connector.Training.{TrainingEvent}

-- `.order_by(TrainingEvent.created_at.desc())`
abbrev pub insert_newest : TrainingEvent → List TrainingEvent → List TrainingEvent
insert_newest e [] = e ∷ []
insert_newest e (f ∷ fs) =
    if ltb e.created_at f.created_at then f ∷ insert_newest e fs else e ∷ f ∷ fs

unfoldable pub newest_first : List TrainingEvent → List TrainingEvent
newest_first [] = []
newest_first (e ∷ es) = insert_newest e (newest_first es)

pub record TrainingExportRequest : Type 0 where
  pub endpoint_id : Option String
  pub endpoint_version_id : Option String
  pub subtenant_code : Option String
  pub tags : List String
  pub feedback : Option String
  pub few_shot_only : Option Bool
  pub date_from : Option ℕ
  pub date_to : Option ℕ

-- A filter that is set, to a text that is not empty.
abbrev pub wanted : Option String → Option String → Bool
wanted none column = true
wanted (some s) column = is_empty s || holds column s

abbrev pub has_flag : Option Bool → Bool → Bool
has_flag none b = true
has_flag (some true) b = b
has_flag (some false) b = not b

abbrev pub holds_tag : List String → String → Bool
holds_tag own t = any (λ s. s == t) own

-- `contains` of an array column, which may be NULL.
abbrev pub contains_tags : Option (List String) → List String → Bool
contains_tags own [] = true
contains_tags none (t ∷ ts) = false
contains_tags (some own) (t ∷ ts) = holds_tag own t && contains_tags (some own) ts

abbrev pub not_before : Option ℕ → ℕ → Bool
not_before none t = true
not_before (some date) t = leb date t

abbrev pub not_after : Option ℕ → ℕ → Bool
not_after none t = true
not_after (some date) t = leb t date

unfoldable pub is_asked_for : String → TrainingExportRequest → TrainingEvent → Bool
is_asked_for tenant_id q e =
    (e.tenant_id == tenant_id)
    && wanted q.endpoint_id (some e.endpoint_id)
    && wanted q.endpoint_version_id (some e.endpoint_version_id)
    && wanted q.feedback e.feedback
    && has_flag q.few_shot_only e.is_few_shot
    && wanted q.subtenant_code e.subtenant_code
    && contains_tags e.tags q.tags
    && not_before q.date_from e.created_at
    && not_after q.date_to e.created_at

unfoldable pub query_training_events :
    List TrainingEvent → String → TrainingExportRequest → List TrainingEvent
unfolding is_asked_for newest_first
query_training_events events tenant_id q = newest_first (select (is_asked_for tenant_id q) events)
