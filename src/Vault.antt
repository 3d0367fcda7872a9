-- ===== src/Vault.antt =====
-- Credentials at rest (app/services/credential_vault.py). The Fernet cipher is a parameter.
use markmonica.Base.{ℕ, Bool, true, false, Option, none, some, ◌∷◌, ◌++◌, ◌≡◌, refl, if◌then◌else◌}
use markmonica.Base.Texts.{Text, text, starts_with, truthy, drop}
use markmonica.Http.{unhandled, Result, ok, err}

-- A cipher under the configured key; `decrypt` is `none` where Fernet raises `InvalidToken`.
pub record Fernet : Type 0 where
  pub encrypt : Text → Text
  pub decrypt : Text → Option Text

abbrev pub prefix : Text
prefix = text "enc:v1:"

-- `_fernet`, on the cipher that the settings give, if they give a key.
abbrev cipher : Option Fernet → Result Fernet
cipher none = err unhandled
cipher (some f) = ok f

unfoldable pub encrypt_secret : Option Fernet → Option Text → Result (Option Text)
encrypt_secret vault value = elim (truthy value) [
  | none ↦ ok none
  | some v ↦
      if starts_with v prefix
      then ok (some v)
      else elim (cipher vault) [ err e ↦ err e | ok f ↦ ok (some (prefix ++ f.encrypt v)) ]
]

abbrev or_invalid : Option Text → Result (Option Text)
or_invalid none = err unhandled
or_invalid (some t) = ok (some t)

unfoldable pub decrypt_secret : Option Fernet → Option Text → Result (Option Text)
decrypt_secret vault value = elim (truthy value) [
  | none ↦ ok none
  | some v ↦
      if starts_with v prefix
      then elim (cipher vault) [ err e ↦ err e | ok f ↦ or_invalid (f.decrypt (drop 7 v)) ]
      else ok (some v)
]

abbrev has_prefix : Option Text → Bool
has_prefix none = false
has_prefix (some v) = starts_with v prefix

unfoldable pub secret_is_encrypted : Option Text → Bool
secret_is_encrypted value = has_prefix (truthy value)

-- Under a cipher whose decryption undoes its encryption, a secret that is not empty and does not
-- begin with the prefix is stored under the prefix, is known as encrypted, and decrypts to itself.
pub decrypt-encrypt :
    (f : Fernet) (c : ℕ) (v : Text)
    → ((t : Text) → f.decrypt (f.encrypt t) ≡ some t)
    → starts_with (c ∷ v) prefix ≡ false
    → (stored : Text) × (encrypt_secret (some f) (some (c ∷ v)) ≡ ok (some stored))
      × (secret_is_encrypted (some stored) ≡ true)
      × (decrypt_secret (some f) (some stored) ≡ ok (some (c ∷ v)))
unfolding encrypt_secret decrypt_secret secret_is_encrypted starts_with
decrypt-encrypt f c v inverse plain =
    (prefix ++ f.encrypt (c ∷ v), rw plain, refl, rw (inverse (c ∷ v)))
