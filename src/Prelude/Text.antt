-- ===== src/Prelude/Text.antt =====
-- Python's text methods that the program calls: `strip`, `lower`, and truth of a text.
use Prim.Native.Char.{Char, code}
use Prim.Native.String.{String, compare, ◌++◌}
use Prim.Native.Nat.{Ordering}
use mathlib.Core.Bool.{Bool, true, false, ◌&&◌, ◌||◌}
use mathlib.Core.Option.{Option, none, some}
use flash_connector.Prelude.Tests.{leb, nat_eq, if◌then◌else◌}

abbrev pub is_empty : String → Bool
is_empty String.[] = true
is_empty (String.◌∷◌ c s) = false

-- The characters that `str.strip` removes.
is_space : Char → Bool
is_space c =
    let n = code c in
    (leb 9 n && leb n 13)
    || (leb 28 n && leb n 32)
    || nat_eq n 0x85
    || nat_eq n 0xa0
    || nat_eq n 0x1680
    || (leb 0x2000 n && leb n 0x200a)
    || nat_eq n 0x2028
    || nat_eq n 0x2029
    || nat_eq n 0x202f
    || nat_eq n 0x205f
    || nat_eq n 0x3000

strip_left : String → String
strip_left String.[] = ""
strip_left (String.◌∷◌ c s) = let rest = strip_left s in if is_space c then rest else String.◌∷◌ c s

strip_right : String → String
strip_right String.[] = ""
strip_right (String.◌∷◌ c s) =
    let rest = strip_right s in if is_space c && is_empty rest then "" else String.◌∷◌ c rest

unfoldable pub strip : String → String
unfolding is_space strip_left strip_right
strip s = strip_right (strip_left s)

-- The character at the place of `c` in the first text, in the second; `c` where it is not there.
replaced : String → String → Char → Char
replaced (String.◌∷◌ a s) (String.◌∷◌ b t) c =
    let rest = replaced s t c in if nat_eq (code a) (code c) then b else rest
replaced _ _ c = c

-- `str.lower`, on the characters that it takes to ASCII (the Kelvin sign is one). It leaves other
-- capitals, so its result equals an ASCII text exactly where Python's does.
unfoldable pub lower : String → String
unfolding replaced
lower String.[] = ""
lower (String.◌∷◌ c s) =
    String.◌∷◌ (replaced "ABCDEFGHIJKLMNOPQRSTUVWXYZK" "abcdefghijklmnopqrstuvwxyzk" c) (lower s)

-- `s.strip() or None`
unfoldable pub nonempty : String → Option String
nonempty s = if is_empty s then none else some s

-- `s < t`, character by character
abbrev pub text_lt : String → String → Bool
text_lt s t = elim (compare s t) [ Ordering.lt ↦ true | _ ↦ false ]

-- `s + t`
abbrev pub text_append : String → String → String
text_append s t = s ++ t
