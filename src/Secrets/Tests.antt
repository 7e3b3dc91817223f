-- ===== src/Secrets/Tests.antt =====
-- Runs of api/app/services/tenant_secrets.py, with a cipher that puts the key before the text, and a
-- printer of envelopes that puts a mark before each character of the first text.
use Prim.Native.Char.{Char, code, nul}
use mathlib.Core.Option
use flash_connector.Prelude.{
  String, true, false, Option, none, some, List, [], ◌∷◌, ◌≡◌, refl, arith, if◌then◌else◌, ok,
  nat_eq, strip, ◌==◌,
}
use flash_connector.Prelude.Dict.{Dict}
use flash_connector.Json.{Json, str, obj, object, field, end}
use flash_connector.Secrets.{
  Cipher, Format, Settings, active_key, build_keyring, put_secret, get_secret, rotate_secret,
}
use flash_connector.Secrets.Rotation.{Lawful, rotate_secret-get}

abbrev first : String → Char
first String.[] = nul
first (String.◌∷◌ c s) = c

abbrev cipher : Cipher Char
cipher = record { encrypt = λ k s. String.◌∷◌ k s; decrypt = decrypt }
  where
    decrypt : Char → String → Option String
    decrypt k String.[] = none
    decrypt k (String.◌∷◌ c s) = if nat_eq (code c) (code k) then some s else none

abbrev pack : String → String → String
pack String.[] text = String.◌∷◌ nul text
pack (String.◌∷◌ c id) text = String.◌∷◌ (first "1") (String.◌∷◌ c (pack id text))

abbrev unpack : String → Option (String × String)
unpack String.[] = none
unpack (String.◌∷◌ mark String.[]) = if nat_eq (code mark) 0 then some ("", "") else none
unpack (String.◌∷◌ mark (String.◌∷◌ c rest)) =
    let later = Option.map (λ (p : String × String). (String.◌∷◌ c p.0, p.1)) (unpack rest) in
    if nat_eq (code mark) 0 then some ("", String.◌∷◌ c rest) else later

unpack-pack : (id text : String) → unpack (pack id text) ≡ some (id, text)
unpack-pack String.[] String.[] = refl
unpack-pack String.[] (String.◌∷◌ c text) = refl
unpack-pack (String.◌∷◌ c id) text = rw (unpack-pack id text) refl

abbrev dumps : Json → String
dumps (obj (field _ (str id) (field _ (str text) end))) = pack id text
dumps _ = ""

abbrev format : Format
format = record {
  dumps = dumps;
  loads = λ s.
      Option.map (λ (p : String × String). object (("v", str p.0) ∷ ("ct", str p.1) ∷ []))
        (unpack s);
  digest = λ ref. ref;
}

format-Lawful : Lawful cipher format
format-Lawful = record {
  decrypts = λ k value. ground arith;
  reads = λ id text. rw (unpack-pack id text) refl;
}

abbrev settings : Option Char → List (String × Option Char) → String → Settings Char
settings legacy keys active = record {
  legacy = legacy;
  keys = some (ok keys);
  active_key_id = active;
}

abbrev before : Settings Char
before = settings (some (first "a")) [] ""

abbrev during : Settings Char
during = settings (some (first "a")) (("k2", some (first "b")) ∷ []) "k2"

abbrev after : Settings Char
after = settings none (("k2", some (first "b")) ∷ []) "k2"

rotate_secret-get_example :
    (stored : Dict String) × (rotated : Dict String) × (put_secret cipher format before "ref" "sk-1"
        []
      ≡ ok stored)
    × (rotate_secret cipher format during "ref" stored ≡ ok (true, rotated))
    × (get_secret cipher format after "ref" rotated ≡ ok (some "sk-1"))
    × ((s : Settings Char) (other : String)
        → ("ref" == other) ≡ false
        → get_secret cipher format s other rotated ≡ get_secret cipher format s other [])
unfolding active_key build_keyring strip
rotate_secret-get_example =
    rotate_secret-get cipher format before during after "ref" "sk-1" "legacy" "k2" (first "a")
      (first "b") (("legacy", first "a") ∷ ("k2", first "b") ∷ []) (("k2", first "b") ∷ []) []
      format-Lawful refl refl refl refl refl refl
