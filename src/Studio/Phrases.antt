-- ===== src/Studio/Phrases.antt =====
-- The phrases that block a request or an answer, `find_blocked_phrase` of
-- api/app/services/prompt_studio.py.
use Prim.Native.Char.{code}
use text.Mathlib.TextEquality.{Char-path}
use text.Mathlib.TextLemmas.{nil-append, cons-append}
use flash_connector.Prelude.{
  String, Bool, true, false, ◌&&◌, not, none, some, List, [], ◌∷◌, ◌≡◌, refl, ap, sym, ◌∙◌, arith,
  Bool-cases, inl, inr, ◌++◌, text_append, is_empty, All, ◌⊎◌, nat_eq,
}
use flash_connector.Studio.{within, starts_text, find_blocked_phrase}

-- `p` stands in `s`.
abbrev pub Occurs : String → String → Type 0
Occurs p s = (before : String) × (after : String) × (s ≡ text_append before (text_append p after))

starts_text-append : (p rest : String) → starts_text p (text_append p rest) ≡ true
starts_text-append String.[] rest = refl
starts_text-append (String.◌∷◌ c p) rest =
    let same : nat_eq (code c) (code c) ≡ true = ground arith in
    rw (cons-append c p rest, same, starts_text-append p rest)

starts_text_sound :
    (p s : String) → starts_text p s ≡ true → (rest : String) × (s ≡ text_append p rest)
starts_text_sound String.[] s h = (s, sym (nil-append s))
starts_text_sound (String.◌∷◌ c p) String.[] h = absurd (cc)
starts_text_sound (String.◌∷◌ c p) (String.◌∷◌ d s) h = elim (Bool-cases (starts_text p s)) [
  | inl a ↦
      let (rest, e) = starts_text_sound p s a in
      let same : code c ≡ code d = ground arith in
      (
        rest,
        ap (λ x. String.◌∷◌ x s) (sym (Char-path c d same))
            ∙ ap (String.◌∷◌ c) e
            ∙ sym (cons-append c p rest),
      )
  | inr a ↦ absurd (ground arith)
]

within_sound : (p s : String) → within p s ≡ true → Occurs p s
within_sound String.[] String.[] h = ("", "", sym (nil-append _ ∙ nil-append ""))
within_sound (String.◌∷◌ c p) String.[] h = absurd (cc)
within_sound p (String.◌∷◌ c s) h = elim (Bool-cases (starts_text p (String.◌∷◌ c s))) [
  | inl a ↦
      let (rest, e) = starts_text_sound p (String.◌∷◌ c s) a in
      ("", rest, e ∙ sym (nil-append (text_append p rest)))
  | inr a ↦
      let (before, after, e) = within_sound p s (rw a at h) in
      (String.◌∷◌ c before, after, ap (String.◌∷◌ c) e ∙ sym (cons-append c before _))
]

within-starts : (p s : String) → starts_text p s ≡ true → within p s ≡ true
within-starts String.[] String.[] h = refl
within-starts (String.◌∷◌ c p) String.[] h = absurd (cc)
within-starts p (String.◌∷◌ c s) h = rw h

within_complete :
    (p before after : String) → within p (text_append before (text_append p after)) ≡ true
within_complete p String.[] after =
    rw (nil-append (text_append p after))
      (within-starts p (text_append p after) (starts_text-append p after))
within_complete p (String.◌∷◌ c before) after =
    let here = starts_text p (String.◌∷◌ c (text_append before (text_append p after))) in
    elim (Bool-cases here) [
      | inl a ↦ rw (cons-append c before (text_append p after), a)
      | inr a ↦ rw (cons-append c before (text_append p after), a, within_complete p before after)
    ]

-- A phrase that counts and stands in the text, letter case aside.
abbrev pub Blocks : (String → String) → String → String → Type 0
Blocks lower_case text p =
    (is_empty (lower_case p) ≡ false) × Occurs (lower_case p) (lower_case text)

blocks : (String → String) → String → String → Bool
blocks lower_case text p = not (is_empty (lower_case p)) && within (lower_case p) (lower_case text)

blocks_sound :
    (lower_case : String → String) (text p : String)
    → blocks lower_case text p ≡ true
    → Blocks lower_case text p
unfolding blocks
blocks_sound lower_case text p h =
    (ground arith, within_sound (lower_case p) (lower_case text) (ground arith))

blocks_complete :
    (lower_case : String → String) (text p : String)
    → blocks lower_case text p ≡ false
    → ¬ Blocks lower_case text p
unfolding blocks
blocks_complete lower_case text p h (n, (before, after, e)) =
    let found = within_complete (lower_case p) before after in
    let found' : within (lower_case p) (lower_case text) ≡ true = rw e found in
    absurd (ground arith)

-- Whether a text is blocked: no phrase is found only if no phrase of the list is in the text, and one
-- that is found is in it, while no phrase before it in the list is. A phrase that is empty in lower
-- case does not count.
pub find_blocked_phrase-Blocks :
    (lower_case : String → String) (text : String) (phrases : List String)
    → ((find_blocked_phrase lower_case text phrases ≡ none)
        × All (λ p. ¬ Blocks lower_case text p) phrases)
      ⊎ ((p : String) × (before : List String) × (after : List String) × (find_blocked_phrase
              lower_case text phrases
            ≡ some p)
          × (phrases ≡ before ++ (p ∷ after))
          × Blocks lower_case text p
          × All (λ q. ¬ Blocks lower_case text q) before)
unfolding find_blocked_phrase blocks
find_blocked_phrase-Blocks lower_case text [] = inl (refl, tt)
find_blocked_phrase-Blocks lower_case text (p ∷ ps) = elim (Bool-cases (blocks lower_case text p)) [
  | inl a ↦ inr (p, [], ps, rw (a, find_blocked_phrase), refl, blocks_sound lower_case text p a, tt)
  | inr a ↦ elim (find_blocked_phrase-Blocks lower_case text ps) [
    | inl (e, all) ↦ inl (rw (a, find_blocked_phrase) e, (blocks_complete lower_case text p a, all))
    | inr (q, before, after, e, order, b, all) ↦ inr (
      q,
      p ∷ before,
      after,
      rw (a, find_blocked_phrase) e,
      ap (λ l. p ∷ l) order,
      b,
      (blocks_complete lower_case text p a, all),
    )
  ]
]
