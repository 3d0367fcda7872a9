-- ===== src/Payments/Sessions.antt =====
-- The providers that the environment configures (app/services/payments.py): the start of a
-- checkout with one of them, and Payfast's form from the settings of the environment. A
-- `ValueError` is an exception that no handler expects.
pub mod Begun
use markmonica.Base.{ℕ, Bool, true, false, ◌||◌, Option, none, some, [], ◌∷◌, ◌++◌, if◌then◌else◌}
use markmonica.Base.Texts.{Text, text, text_eq, truthy}
use markmonica.Model.{PackageOrder, OrderStatus}
use markmonica.Http.{Result, ok, err, unhandled, ◌>>=◌}
use markmonica.Payments.Itn.{Form, Gateway}
use markmonica.Payments.Checkout.{unsigned_fields, payfast_signature}

-- `PAYFAST_*` of the settings
pub record PayfastSettings : Type 0 where
  pub payfast_sandbox : Bool
  pub payfast_merchant_id : Option Text
  pub payfast_merchant_key : Option Text
  pub payfast_passphrase : Option Text

pub record CheckoutSession : Type 0 where
  pub provider : Text
  pub reference : Text
  pub redirect_url : Option Text

abbrev sandbox_of : PayfastSettings → Option Bool → Bool
sandbox_of s none = s.payfast_sandbox
sandbox_of s (some is_sandbox) = is_sandbox

unfoldable pub payfast_process_url : PayfastSettings → Option Bool → Text
payfast_process_url s is_sandbox =
    if sandbox_of s is_sandbox
    then text "https://sandbox.payfast.co.za/eng/process"
    else text "https://www.payfast.co.za/eng/process"

-- The keys of `PROVIDERS`.
pub data PaymentProvider : Type 0 where
  manual payfast : PaymentProvider

unfoldable pub provider_for : Text → Result PaymentProvider
provider_for code =
    if text_eq code (text "manual")
    then ok manual
    else if text_eq code (text "payfast")
    then ok payfast
    else err unhandled

-- The merchant's credentials, if both are configured.
abbrev pub credentials : PayfastSettings → Result (Text × Text)
credentials s = elim (truthy s.payfast_merchant_id) [
  | none ↦ err unhandled
  | some id ↦ elim (truthy s.payfast_merchant_key) [
    | none ↦ err unhandled
    | some key ↦ ok (id, key)
  ]
]

-- `create_checkout` of the two providers; `reference` is `str(order.id)`.
unfoldable pub create_checkout : PayfastSettings → PaymentProvider → Text → Result CheckoutSession
create_checkout s manual reference =
    ok (record { provider = text "manual"; reference = reference; redirect_url = none })
create_checkout s payfast reference = do
  merchant ← credentials s
  ok (record {
    provider = text "payfast";
    reference = reference;
    redirect_url = some (payfast_process_url s none);
  })

-- `order.status not in {PAYMENT_PENDING, PAYMENT_FAILED}`
abbrev pub can_begin : OrderStatus → Bool
can_begin OrderStatus.pending = true
can_begin OrderStatus.failed = true
can_begin _ = false

abbrev pub begun_order : CheckoutSession → ℕ → PackageOrder → PackageOrder
begun_order session now o = record o {
  provider = some session.provider;
  provider_reference = some session.reference;
  status = OrderStatus.awaiting_payment;
  updated_at = now;
}

unfoldable pub begin_checkout :
    PayfastSettings → (ℕ → Text) → ℕ → PackageOrder → Text → Result (CheckoutSession × PackageOrder)
begin_checkout s str_uuid now o provider_code =
    if can_begin o.status
    then (do
      provider ← provider_for provider_code
      session ← create_checkout s provider (str_uuid o.id)
      ok (session, begun_order session now o))
    else err unhandled

unfoldable pub payfast_checkout_fields :
    PayfastSettings → Gateway → (ℕ → Text) → PackageOrder → Text → Text → Result Form
payfast_checkout_fields s g str_uuid o email app_url = do
  merchant ← credentials s
  let fields = unsigned_fields o (str_uuid o.id) email app_url merchant.0 merchant.1
  ok (fields ++ (text "signature", payfast_signature g fields s.payfast_passphrase) ∷ [])
