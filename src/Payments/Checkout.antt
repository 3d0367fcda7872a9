-- ===== src/Payments/Checkout.antt =====
-- The start of a checkout (app/services/payments.py): the signed fields of the form that the
-- browser posts to the gateway.
use markmonica.Base.{
  ℕ, ◌/◌, ◌%◌, Bool, not, ◌&&◌, Option, none, some, List, [], ◌∷◌, ◌++◌, ltb, if◌then◌else◌,
}
use markmonica.Base.Texts.{Text, text, text_eq, is_empty, truthy, join, title, rstrip_slash}
use markmonica.Base.Numerals.{show_ℕ}
use markmonica.Base.Tables.{find}
use markmonica.Model.{Db, PackageOrder, PaymentProviderConfig}
use markmonica.Http.{Result, ok, err, unhandled, ◌>>=◌}
use markmonica.Vault.{Fernet, decrypt_secret}
use markmonica.Payments.Itn.{Form, Gateway, encoded, is_signature}

abbrev is_payfast : PaymentProviderConfig → Bool
is_payfast p = text_eq p.code (text "payfast")

abbrev enabled : PaymentProviderConfig → Option PaymentProviderConfig
enabled p = if p.is_enabled then some p else none

unfoldable pub payfast_runtime_config : Db → Option PaymentProviderConfig
payfast_runtime_config db = elim (find is_payfast db.payment_provider_configs) [
  | none ↦ none
  | some p ↦ enabled p
]

-- The parts of `payfast_signature`: empty values and the signature itself are left out.
unfoldable pub signed_parts : Gateway → Form → List Text
signed_parts g [] = []
signed_parts g ((key, value) ∷ form) =
    let rest = signed_parts g form in
    if not (is_empty value) && not (is_signature key)
    then (key ++ text "=" ++ encoded g value) ∷ rest
    else rest

abbrev passphrase_part : Gateway → Option Text → List Text
passphrase_part g passphrase = elim (truthy passphrase) [
  | none ↦ []
  | some p ↦ (text "passphrase=" ++ encoded g p) ∷ []
]

unfoldable pub payfast_signature : Gateway → Form → Option Text → Text
payfast_signature g form passphrase =
    g.md5 (join (text "&") (signed_parts g form ++ passphrase_part g passphrase))

-- Two digits.
abbrev two_digits : ℕ → Text
two_digits n = if ltb n 10 then text "0" ++ show_ℕ n else show_ℕ n

-- `f"{Decimal(order.amount_cents) / Decimal(100):.2f}"`
unfoldable pub format_amount : ℕ → Text
format_amount cents = show_ℕ (cents / 100) ++ text "." ++ two_digits (cents % 100)

-- The fields before the signature; `order_id` is the text of the order's UUID.
unfoldable pub unsigned_fields : PackageOrder → Text → Text → Text → Text → Text → Form
unsigned_fields o order_id email app_url merchant_id merchant_key =
    let base = rstrip_slash app_url in
    (text "merchant_id", merchant_id)
    ∷ (text "merchant_key", merchant_key)
    ∷ (text "return_url", base ++ text "/payments/payfast/return?order_id=" ++ order_id)
    ∷ (text "cancel_url", base ++ text "/payments/payfast/cancel?order_id=" ++ order_id)
    ∷ (text "notify_url", base ++ text "/payments/payfast/notify")
    ∷ (text "email_address", email)
    ∷ (text "m_payment_id", order_id)
    ∷ (text "amount", format_amount o.amount_cents)
    ∷ (text "item_name", text "Memories Events - " ++ title o.package_code ++ text " package")
    ∷ []

abbrev or_unhandled : Option Text → Result Text
or_unhandled none = err unhandled
or_unhandled (some t) = ok t

-- The text that an f-string or a dictionary of texts makes of an optional value.
abbrev or_none_text : Option Text → Text
or_none_text none = text "None"
or_none_text (some t) = t

unfoldable pub payfast_checkout_fields_for_config :
    Gateway
    → Option Fernet
    → PackageOrder
    → Text
    → Text
    → Text
    → PaymentProviderConfig
    → Result Form
unfolding unsigned_fields
payfast_checkout_fields_for_config g vault o order_id email app_url provider = do
  merchant_id ← or_unhandled (truthy provider.merchant_id)
  stored_key ← or_unhandled (truthy provider.merchant_key)
  key ← decrypt_secret vault (some stored_key)
  passphrase ← decrypt_secret vault provider.passphrase
  let fields = unsigned_fields o order_id email app_url merchant_id (or_none_text key)
  ok (fields ++ (text "signature", payfast_signature g fields passphrase) ∷ [])
