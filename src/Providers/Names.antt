-- ===== src/Providers/Names.antt =====
-- The names of new connections, in api/app/services/providers.py.
use flash_connector.Prelude.{
  ℕ, zero, suc, ◌+◌, String, Bool, ◌&&◌, not, Option, none, some, ◌==◌, if◌then◌else◌, any,
  is_empty, strip, text_append, length,
}
use flash_connector.Providers.{Configs}

-- The name of the provider in the catalogue or, without one, of its slug; a number as Python prints it;
-- and Python's lower case, of all of Unicode.
pub record Names : Type 0 where
  pub base_name : String → String
  pub show_number : ℕ → String
  pub lower_case : String → String

-- `name.strip().lower()`
abbrev pub folded : Names → String → String
folded names name = names.lower_case (strip name)

abbrev pub is_taken : Names → Configs → String → Bool
is_taken names configs name =
    any (λ c. not (is_empty c.name) && (folded names c.name == folded names name)) configs

abbrev pub candidate_name : Names → String → ℕ → String
candidate_name names base suffix = text_append base (text_append " " (names.show_number suffix))

-- The `while` loop; nothing where the fuel runs out.
unfoldable pub free_name : Names → Configs → String → ℕ → ℕ → Option String
free_name names configs base zero suffix = none
free_name names configs base (suc fuel) suffix =
    let later = free_name names configs base fuel (suffix + 1) in
    let candidate = candidate_name names base suffix in
    if is_taken names configs candidate then later else some candidate

-- One round more than there are connections.
unfoldable pub new_connection_name : Names → Configs → String → Option String
unfolding free_name
new_connection_name names own slug =
    let base = names.base_name slug in
    if is_taken names own base then free_name names own base (suc (length own)) 2 else some base
