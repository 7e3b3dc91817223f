-- ===== src/Secrets/Rotation.antt =====
-- A secret survives the change of keys in api/app/services/tenant_secrets.py.
use flash_connector.Prelude.{
  String, true, false, some, [], ◌∷◌, ◌≡◌, refl, ◌∙◌, strip, ok, ◌==◌, eq_refl,
}
use flash_connector.Prelude.Dict.{Dict, lookup, insert, lookup-insert}
use flash_connector.Json.{str, object}
use flash_connector.Secrets.{
  Cipher, Format, Settings, build_keyring, active_key, put_secret, open_envelope, open_file,
  get_secret, rotate_secret,
}

-- Decryption undoes encryption with the same key, and the printed envelope is read back.
pub record Lawful {K : Type 0} (cipher : Cipher K) (fmt : Format) : Type 0 where
  pub decrypts : (k : K) (value : String) → cipher.decrypt k (cipher.encrypt k value) ≡ some value
  pub reads :
      (id text : String)
      → fmt.loads (fmt.dumps (object (("v", str id) ∷ ("ct", str text) ∷ [])))
        ≡ some (object (("v", str id) ∷ ("ct", str text) ∷ []))

module _ {K : Type 0} (cipher : Cipher K) (fmt : Format) (law : Lawful cipher fmt) where
  abbrev written : Settings K → String → String → K → String → Dict String → Dict String
  written s ref id k value files =
      insert (fmt.digest ref)
        (fmt.dumps (object (("v", str id) ∷ ("ct", str (cipher.encrypt k value)) ∷ []))) files

  open_file-written :
      (ring : Dict K) (id : String) (k : K) (value : String)
      → lookup (strip id) ring ≡ some k
      → open_file cipher fmt ring
          (fmt.dumps (object (("v", str id) ∷ ("ct", str (cipher.encrypt k value)) ∷ [])))
        ≡ ok (some value)
  unfolding open_file
  open_file-written ring id k value h =
      rw (law.reads id (cipher.encrypt k value), h, law.decrypts k value, open_file, open_envelope)

  put_secret-eq :
      (s : Settings K) (ref id value : String) (k : K) (files : Dict String)
      → active_key s ≡ ok (id, k)
      → put_secret cipher fmt s ref value files ≡ ok (written s ref id k value files)
  unfolding put_secret
  put_secret-eq s ref id value k files a = rw a

  get_secret-written :
      (s s' : Settings K) (ref id value : String) (k : K) (files : Dict String) (ring : Dict K)
      → build_keyring s' ≡ ok ring
      → lookup (strip id) ring ≡ some k
      → get_secret cipher fmt s' ref (written s ref id k value files) ≡ ok (some value)
  unfolding get_secret
  get_secret-written s s' ref id value k files ring b h =
      rw
        (
          lookup-insert (fmt.digest ref) (fmt.digest ref)
              (fmt.dumps (object (("v", str id) ∷ ("ct", str (cipher.encrypt k value)) ∷ [])))
              files,
          eq_refl,
          b,
          get_secret,
        )
        (open_file-written ring id k value h)

  get_secret-other :
      (s s' : Settings K) (ref other id value : String) (k : K) (files : Dict String)
      → (fmt.digest ref == fmt.digest other) ≡ false
      → get_secret cipher fmt s' other (written s ref id k value files)
        ≡ get_secret cipher fmt s' other files
  unfolding get_secret
  get_secret-other s s' ref other id value k files d = rw (
    lookup-insert (fmt.digest ref) (fmt.digest other)
        (fmt.dumps (object (("v", str id) ∷ ("ct", str (cipher.encrypt k value)) ∷ []))) files,
    d,
    get_secret,
  )

-- A secret that is stored under one active key, then rotated to another while the first is still in the
-- keyring, is read back once the first key is gone; the secrets under references of another digest
-- read as before.
pub rotate_secret-get :
    {K : Type 0} (cipher : Cipher K) (fmt : Format) (before during after : Settings K)
    (ref value : String) (old_id new_id : String) (old new : K) (ring ring' : Dict K)
    (files : Dict String)
    → Lawful cipher fmt
    → active_key before ≡ ok (old_id, old)
    → build_keyring during ≡ ok ring
    → lookup (strip old_id) ring ≡ some old
    → active_key during ≡ ok (new_id, new)
    → build_keyring after ≡ ok ring'
    → lookup (strip new_id) ring' ≡ some new
    → (stored : Dict String) × (rotated : Dict String) × (put_secret cipher fmt before ref value
          files
        ≡ ok stored)
      × (rotate_secret cipher fmt during ref stored ≡ ok (true, rotated))
      × (get_secret cipher fmt after ref rotated ≡ ok (some value))
      × ((s : Settings K) (other : String)
          → (fmt.digest ref == fmt.digest other) ≡ false
          → get_secret cipher fmt s other rotated ≡ get_secret cipher fmt s other files)
unfolding rotate_secret
rotate_secret-get cipher fmt before during after ref value old_id new_id old new ring ring' files
      law a b h c d e =
    let stored = written cipher fmt law before ref old_id old value files in
    (
      stored,
      written cipher fmt law during ref new_id new value stored,
      put_secret-eq cipher fmt law before ref old_id value old files a,
      rw
          (
            get_secret-written cipher fmt law before during ref old_id value old files ring b h,
            put_secret-eq cipher fmt law during ref new_id value new stored c,
          )
          refl,
      get_secret-written cipher fmt law during after ref new_id value new stored ring' d e,
      λ s other n.
          get_secret-other cipher fmt law during s ref other new_id value new stored n
          ∙ get_secret-other cipher fmt law before s ref other old_id value old files n,
    )
