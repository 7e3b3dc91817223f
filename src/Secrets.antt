-- ===== src/Secrets.antt =====
-- api/app/services/tenant_secrets.py: the secrets of the tenants' connections, each in a file of its
-- own, encrypted with a key of a keyring. The cipher is a parameter, as are the printing of the envelope
-- and the digest that names a file; a key that Fernet refuses is not a key here.
pub mod Rotation
mod Tests
use flash_connector.Prelude.{
  String, Bool, true, false, Option, none, some, List, [], ◌∷◌, if◌then◌else◌, is_empty, or_else,
  strip, Result, ok, err, ◌>>=◌, text_append, text_lt, ◌==◌,
}
use flash_connector.Prelude.Dict
use flash_connector.Prelude.Dict.{Dict, lookup, insert}
use flash_connector.Json.{Json, str, obj, object, fields}

-- Fernet: a text is encrypted with a key; decryption raises on what it cannot read.
pub record Cipher (K : Type 0) : Type 0 where
  pub encrypt : K → String → String
  pub decrypt : K → String → Option String

-- `json.dumps` of the envelope, `json.loads` (nothing where it raises), and the SHA-256 of a reference.
pub record Format : Type 0 where
  pub dumps : Json → String
  pub loads : String → Option Json
  pub digest : String → String

-- The settings, with the keys that they configure: the legacy key, and the JSON of the others, which is
-- absent where it is blank, and whose entries that are no texts are left out.
pub record Settings (K : Type 0) : Type 0 where
  pub legacy : Option K
  pub keys : Option (Result String (List (String × Option K)))
  pub active_key_id : String

module _ {K : Type 0} where
  -- The loop over the configured keys; a blank one is nothing.
  abbrev pub add_keys : Dict K → List (String × Option K) → Dict K
  add_keys ring [] = ring
  add_keys ring ((key_id, none) ∷ rest) = add_keys ring rest
  add_keys ring ((key_id, some key) ∷ rest) =
      add_keys (if is_empty (strip key_id) then ring else insert (strip key_id) key ring) rest

  abbrev legacy_ring : Option K → Dict K
  legacy_ring none = []
  legacy_ring (some key) = ("legacy", key) ∷ []

  abbrev require_keys : Dict K → Result String (Dict K)
  require_keys [] =
      err "TENANT_SECRET_ENCRYPTION_KEY (or keyring JSON) is required for tenant-managed keys"
  require_keys ring = ok ring

  unfoldable pub build_keyring : Settings K → Result String (Dict K)
  build_keyring s = elim s.keys [
    | none ↦ require_keys (legacy_ring s.legacy)
    | some (err e) ↦ err e
    | some (ok more) ↦ require_keys (add_keys (legacy_ring s.legacy) more)
  ]

  -- `sorted(keyring.keys())[0]`
  abbrev pub first_key : String × K → Dict K → String × K
  first_key best [] = best
  first_key best ((id, key) ∷ rest) = first_key (if text_lt id best.0 then (id, key) else best) rest

  abbrev default_key : Dict K → Result String (String × K)
  default_key [] = err "IndexError"
  default_key ((id, key) ∷ rest) = elim (lookup "legacy" ((id, key) ∷ rest)) [
    | some legacy ↦ ok ("legacy", legacy)
    | none ↦ ok (first_key (id, key) rest)
  ]

  unfoldable pub active_key : Settings K → Result String (String × K)
  unfolding build_keyring
  active_key s = build_keyring s >>= λ ring.
      let id = strip s.active_key_id in
      if is_empty id then default_key ring else elim (lookup id ring) [
        | none ↦ err (
            text_append "TENANT_SECRET_ACTIVE_KEY_ID '"
              (text_append id "' not found in configured keyring"))
        | some key ↦ ok (id, key)
      ]

  module _ (cipher : Cipher K) (fmt : Format) where
    -- The files, by their names.
    unfoldable pub put_secret :
        Settings K → String → String → Dict String → Result String (Dict String)
    unfolding active_key
    put_secret s secret_ref value files = active_key s >>= λ (key_id, key). ok (
        insert (fmt.digest secret_ref)
          (fmt.dumps (object (("v", str key_id) ∷ ("ct", str (cipher.encrypt key value)) ∷ [])))
          files)

    -- The first key of the ring that can read a text.
    abbrev pub try_keys : Dict K → String → Option String
    try_keys [] text = none
    try_keys ((id, key) ∷ rest) text = elim (cipher.decrypt key text) [
      | some value ↦ some value
      | none ↦ try_keys rest text
    ]

    -- What `get_secret` makes of the text of a file; the result is nothing where it finds no secret.
    abbrev pub or_raise : String → Option String → Result String (Option String)
    or_raise message none = err message
    or_raise message (some value) = ok (some value)

    abbrev pub open_envelope : Dict K → String → String → Result String (Option String)
    open_envelope ring key_id ciphertext = elim (lookup (strip key_id) ring) [
      | some key ↦ or_raise "InvalidToken" (cipher.decrypt key ciphertext)
      | none ↦
          or_raise "Unable to decrypt tenant secret with configured keyring"
            (try_keys ring ciphertext)
    ]

    abbrev open_legacy : Dict K → String → Result String (Option String)
    open_legacy ring payload =
        or_raise "Unable to decrypt legacy tenant secret with configured keyring"
          (try_keys ring payload)

    unfoldable pub open_file : Dict K → String → Result String (Option String)
    open_file ring payload = elim (fmt.loads payload) [
      | some (obj f) ↦ elim (lookup "v" (fields f)) [
        | some (str key_id) ↦ elim (lookup "ct" (fields f)) [
          | some (str ciphertext) ↦ open_envelope ring key_id ciphertext
          | _ ↦ open_legacy ring payload
        ]
        | _ ↦ open_legacy ring payload
      ]
      | _ ↦ open_legacy ring payload
    ]

    unfoldable pub get_secret : Settings K → String → Dict String → Result String (Option String)
    unfolding open_file build_keyring
    get_secret s secret_ref files = elim (lookup (fmt.digest secret_ref) files) [
      | none ↦ ok none
      | some payload ↦ build_keyring s >>= λ ring. open_file ring payload
    ]

    -- Whether a secret was there, and the files.
    unfoldable pub rotate_secret :
        Settings K → String → Dict String → Result String (Bool × Dict String)
    unfolding get_secret put_secret
    rotate_secret s secret_ref files = get_secret s secret_ref files >>= λ current. elim current [
      | none ↦ ok (false, files)
      | some value ↦ put_secret s secret_ref value files >>= λ files'. ok (true, files')
    ]

-- `path.unlink()`
unfoldable pub delete_secret : Format → String → Dict String → Dict String
delete_secret fmt secret_ref [] = []
delete_secret fmt secret_ref ((name, text) ∷ rest) =
    let others = delete_secret fmt secret_ref rest in
    if name == fmt.digest secret_ref then others else (name, text) ∷ others
