-- ===== src/Payments/Secrets.antt =====
-- How the administrator's settings of Payfast store the secrets that are typed.
use mathlib.Core.Path.{subst}
use markmonica.Base.{
  if◌then◌else◌, Bool, true, false, ◌≡◌, refl, sym, ◌⊎◌, Option, none, some, List, [], ◌∷◌, ◌++◌,
  Option-cases, Bool-cases, inl, inr, arith, ℕ,
}
use markmonica.Base.Tables.{find, put, find_passes, find-put}
use markmonica.Base.Texts.{Text, text, text_eq_refl, strip, starts_with, is_empty}
use markmonica.Model.{Db, PaymentProviderConfig}
use markmonica.Http.{Failure, Result, ok, err, Request, Response}
use markmonica.Http.Post.{ok_inj, bind_ok, returned_db}
use markmonica.Accounts.{Settings, require_same_origin, require_admin}
use markmonica.Vault.{Fernet, encrypt_secret}
use markmonica.Payments.Provider.{
  is_payfast_row, new_provider, with_provider, current_provider, PayfastForm, new_secret,
  edited_provider, update_payfast_settings,
}

-- What becomes of a secret when `field` is typed for it: a blank field keeps it; a text that stands
-- under the vault's prefix is stored as it is; any other text is stored encrypted, for which there
-- has to be a key.
pub data Sealed (vault : Option Fernet) (field : Text) (old new : Option Text) : Type 0 where
  blank : strip field ≡ [] → new ≡ old → Sealed vault field old new
  already :
      starts_with (strip field) (text "enc:v1:") ≡ true
      → new ≡ some (strip field)
      → Sealed vault field old new
  encrypted :
      (f : Fernet)
      → vault ≡ some f
      → starts_with (strip field) (text "enc:v1:") ≡ false
      → new ≡ some (text "enc:v1:" ++ f.encrypt (strip field))
      → Sealed vault field old new

err_ok : {A : Type 0} {e : Failure} {a : A} → ◌≡◌ {A = Result A} (err e) (ok a) → ⊥
err_ok h = cc

-- The typed text `t`, without its blanks.
typed_ok :
    (vault : Option Fernet) (t : Text) (old out : Option Text)
    → (if is_empty t then ok old else encrypt_secret vault (some t)) ≡ ok out
    → ((t ≡ []) × (out ≡ old))
      ⊎ (((starts_with t (text "enc:v1:") ≡ true) × (out ≡ some t))
          ⊎ ((f : Fernet) × (vault ≡ some f)
              × (starts_with t (text "enc:v1:") ≡ false)
              × (out ≡ some (text "enc:v1:" ++ f.encrypt t))))
unfolding encrypt_secret
typed_ok vault [] old out h = inl (refl, sym (ok_inj h))
typed_ok vault (c ∷ t) old out h = elim (Bool-cases (starts_with (c ∷ t) (text "enc:v1:"))) [
  | inl prefixed ↦ inr (inl (prefixed, sym (ok_inj (rw prefixed at h))))
  | inr plain ↦ elim (Option-cases vault) [
    | inl keyless ↦ absurd (err_ok (rw (plain, keyless) at h))
    | inr (f, key) ↦ inr (inr (f, key, plain, sym (ok_inj (rw (plain, key) at h))))
  ]
]

new_secret-Sealed :
    (vault : Option Fernet) (field : Text) (old out : Option Text)
    → new_secret vault field old ≡ ok out
    → Sealed vault field old out
unfolding new_secret
new_secret-Sealed vault field old out h = elim (typed_ok vault (strip field) old out h) [
  | inl (nothing, same) ↦ Sealed.blank nothing same
  | inr (inl (prefixed, same)) ↦ Sealed.already prefixed same
  | inr (inr (f, key, plain, same)) ↦ Sealed.encrypted f key plain same
]

find-snoc :
    {A : Type 0} (p : A → Bool) (xs : List A) (y : A)
    → find p xs ≡ none
    → p y ≡ true
    → find p (xs ++ y ∷ []) ≡ some y
unfolding find
find-snoc p [] y none_has h = ground arith
find-snoc p (x ∷ xs) y none_has h = ground (arith, find-snoc p xs y)

-- The row that was there, or the defaults where there was none.
abbrev pub Previous : Db → PaymentProviderConfig → Type 0
Previous db p =
    (find is_payfast_row db.payment_provider_configs ≡ some p)
    ⊎ ((find is_payfast_row db.payment_provider_configs ≡ none)
        × (p.merchant_key ≡ none)
        × (p.passphrase ≡ none))

-- The row that the form edits is there.
provider_there :
    (db : Db) (now : ℕ)
    → (find is_payfast_row (with_provider db now).payment_provider_configs
        ≡ some (current_provider db now))
      × (is_payfast_row (current_provider db now) ≡ true)
      × Previous db (current_provider db now)
provider_there db now = elim (Option-cases (find is_payfast_row db.payment_provider_configs)) [
  | inl missing ↦
      let created =
        find-snoc is_payfast_row db.payment_provider_configs (new_provider now) missing
          (text_eq_refl (text "payfast")) in
      (
        rw (with_provider, current_provider, missing, created) refl,
        rw (current_provider, missing) (text_eq_refl (text "payfast")),
        rw (current_provider, missing) (inr (refl, refl, refl)),
      )
  | inr (p, found) ↦ (
    rw (with_provider, current_provider, found) found,
    rw (current_provider, found) (find_passes is_payfast_row db.payment_provider_configs found),
    rw (current_provider, found) (inl refl),
  )
]

-- What the settings leave behind.
pub record Settled (vault : Option Fernet) (db db' : Db) (f : PayfastForm) : Type 0 where
  pub previous : PaymentProviderConfig
  pub was : Previous db previous
  pub now : PaymentProviderConfig
  pub stored : find is_payfast_row db'.payment_provider_configs ≡ some now
  pub merchant_key : Sealed vault f.merchant_key previous.merchant_key now.merchant_key
  pub passphrase : Sealed vault f.passphrase previous.passphrase now.passphrase
  pub rest : db' ≡ record db { payment_provider_configs = db'.payment_provider_configs }

only_providers :
    (db : Db) (now : ℕ) (ps : List PaymentProviderConfig)
    → ◌≡◌ {A = Db}
        (record (with_provider db now) { payment_provider_configs = ps })
        (record db { payment_provider_configs = ps })
only_providers db now ps = elim (Option-cases (find is_payfast_row db.payment_provider_configs)) [
  | inl missing ↦ rw (with_provider, missing) refl
  | inr (p, found) ↦ rw (with_provider, found) refl
]

-- A change of the settings of Payfast that succeeds touches no table but that of the providers,
-- and stores each of the two secrets like this: a blank field keeps the secret that was there (none,
-- in a new row); a text that stands under the vault's prefix is stored as it was typed; any other
-- text is stored only as its encryption under the vault's key, behind the prefix, so that without
-- a key such a form does not succeed.
pub update_payfast_seals :
    (s : Settings) (vault : Option Fernet) (req : Request) (db db' : Db) (f : PayfastForm)
    (r : Response)
    → update_payfast_settings s vault req db f ≡ ok (r, db')
    → Settled vault db db' f
unfolding update_payfast_settings
update_payfast_seals s vault req db db' f r h =
    let p = current_provider db req.now in
    let stored = with_provider db req.now in
    let (_, _, h₁) = bind_ok (require_admin s req db) _ h in
    let (_, _, h₂) = bind_ok (require_same_origin s req) _ h₁ in
    let (key, new_key, h₃) = bind_ok (new_secret vault f.merchant_key p.merchant_key) _ h₂ in
    let (phrase, new_phrase, h₄) = bind_ok (new_secret vault f.passphrase p.passphrase) _ h₃ in
    let (there, own, was) = provider_there db req.now in
    let edited = edited_provider f req.now key phrase p in
    let rows = put is_payfast_row edited stored.payment_provider_configs in
    subst (λ d. Settled vault db d f) (returned_db _ r _ db' h₄)
      (record {
        previous = p;
        was = was;
        now = edited;
        stored = find-put is_payfast_row edited stored.payment_provider_configs there own;
        merchant_key = new_secret-Sealed vault f.merchant_key p.merchant_key key new_key;
        passphrase = new_secret-Sealed vault f.passphrase p.passphrase phrase new_phrase;
        rest = only_providers db req.now rows;
      })
