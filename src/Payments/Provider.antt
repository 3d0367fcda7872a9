-- ===== src/Payments/Provider.antt =====
-- The administrator's settings of Payfast (`payment_settings` and `update_payfast_settings`,
-- app/admin.py): the row is created if there is none, and the secrets are stored encrypted.
use markmonica.Base.{ℕ, Bool, true, false, Option, none, some, [], ◌∷◌, ◌++◌, if◌then◌else◌}
use markmonica.Base.Tables.{find, put}
use markmonica.Base.Texts.{Text, text, text_eq, strip, non_empty, is_empty}
use markmonica.Model.{Db, PaymentProviderConfig}
use markmonica.Http.{Result, ok, ◌>>=◌, ◌>>◌, Request, Response, redirect, success, Location}
use markmonica.Accounts.{Settings, require_same_origin, require_admin}
use markmonica.Vault.{Fernet, encrypt_secret}

abbrev pub is_payfast_row : PaymentProviderConfig → Bool
is_payfast_row p = text_eq p.code (text "payfast")

-- `PaymentProviderConfig(code="payfast", display_name="Payfast")`, with the column defaults.
abbrev pub new_provider : ℕ → PaymentProviderConfig
new_provider now = record {
  code = text "payfast";
  display_name = text "Payfast";
  is_enabled = false;
  is_sandbox = true;
  merchant_id = none;
  merchant_key = none;
  passphrase = none;
  updated_at = now;
}

abbrev pub with_provider : Db → ℕ → Db
with_provider db now = elim (find is_payfast_row db.payment_provider_configs) [
  | none ↦ record db {
    payment_provider_configs = db.payment_provider_configs ++ new_provider now ∷ [];
  }
  | some p ↦ db
]

abbrev pub current_provider : Db → ℕ → PaymentProviderConfig
current_provider db now = elim (find is_payfast_row db.payment_provider_configs) [
  | none ↦ new_provider now
  | some p ↦ p
]

unfoldable pub payment_settings : Settings → Request → Db → Result (Response × Db)
payment_settings s req db = do
  admin ← require_admin s req db
  ok (success, with_provider db req.now)

pub record PayfastForm : Type 0 where
  pub is_enabled : Option Text
  pub is_sandbox : Option Text
  pub merchant_id : Text
  pub merchant_key : Text
  pub passphrase : Text

abbrev is_on : Option Text → Bool
is_on none = false
is_on (some t) = text_eq t (text "on")

-- `if secret.strip(): … = encrypt_secret(secret.strip())`
unfoldable pub new_secret : Option Fernet → Text → Option Text → Result (Option Text)
new_secret vault field old =
    if is_empty (strip field) then ok old else encrypt_secret vault (some (strip field))

abbrev pub edited_provider :
    PayfastForm → ℕ → Option Text → Option Text → PaymentProviderConfig → PaymentProviderConfig
edited_provider f now merchant_key passphrase p = record p {
  is_enabled = is_on f.is_enabled;
  is_sandbox = is_on f.is_sandbox;
  merchant_id = non_empty (strip f.merchant_id);
  merchant_key = merchant_key;
  passphrase = passphrase;
  updated_at = now;
}

unfoldable pub update_payfast_settings :
    Settings → Option Fernet → Request → Db → PayfastForm → Result (Response × Db)
update_payfast_settings s vault req db f = do
  admin ← require_admin s req db
  require_same_origin s req
  let p = current_provider db req.now
  let stored = with_provider db req.now
  key ← new_secret vault f.merchant_key p.merchant_key
  passphrase ← new_secret vault f.passphrase p.passphrase
  ok (
    redirect Location.admin_payments,
    record stored {
      payment_provider_configs =
          put is_payfast_row (edited_provider f req.now key passphrase p)
            stored.payment_provider_configs;
    },
  )
