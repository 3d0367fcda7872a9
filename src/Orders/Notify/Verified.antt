-- ===== src/Orders/Notify/Verified.antt =====
-- What must be verified before a notification upgrades an event.
use markmonica.Base.{
  ℕ, Bool, true, false, not, ◌≡◌, ap, ◌∙◌, ◌⊎◌, inl, inr, Option, some, [], arith,
}
use markmonica.Base.Texts.{Text, text, text_eq, opt_text_eq}
use markmonica.Model.{Db, Event, PackageOrder, PaymentProviderConfig}
use markmonica.Http.{ok, or_raise, raise_if, Response, success}
use markmonica.Http.Post.{bind_ok, or_raise_ok, raise_if_ok, returned_db}
use markmonica.Vault.{decrypt_secret}
use markmonica.Payments.Itn.{
  Form, form_get, valid_payfast_itn_signature, valid_payfast_server_confirmation,
}
use markmonica.Payments.Amount.{Decimal, received_cents}
use markmonica.Payments.Checkout.{payfast_runtime_config}
use markmonica.Orders.Host.{Env}
use markmonica.Orders.Notify.Upgrade.{Upgrades, settle_ok}
use markmonica.Orders.Notify.{
  authenticate, named_order, check_amount, settle, payfast_notify, get_or,
}
use markmonica.Orders.Effects.Notify.{named_order_ok}

-- The four tests of a notification's origin.
pub record Authentic (env : Env) (provider : PaymentProviderConfig) (form : Form) : Type 0 where
  pub passphrase : Option Text
  pub secret : decrypt_secret env.vault provider.passphrase ≡ ok passphrase
  pub signed : valid_payfast_itn_signature env.gateway form passphrase ≡ true
  pub merchant : opt_text_eq (form_get form (text "merchant_id")) provider.merchant_id ≡ true
  pub confirmed : valid_payfast_server_confirmation env.gateway form provider.is_sandbox ≡ ok true

not-false : (b : Bool) → not b ≡ false → b ≡ true
not-false b h = ground arith

authenticate_ok :
    (env : Env) (provider : PaymentProviderConfig) (form : Form) {u : Unit {0}}
    → authenticate env provider form ≡ ok u
    → Authentic env provider form
unfolding authenticate
authenticate_ok env provider form h =
    let (passphrase, secret, h₁) = bind_ok (decrypt_secret env.vault provider.passphrase) _ h in
    let (_, signed, h₂) =
      bind_ok (raise_if (not (valid_payfast_itn_signature env.gateway form passphrase)) 400) _ h₁ in
    let (_, merchant, h₃) =
      bind_ok
        (raise_if (not (opt_text_eq (form_get form (text "merchant_id")) provider.merchant_id)) 400)
        _ h₂ in
    let (answer, confirmed, h₄) =
      bind_ok (valid_payfast_server_confirmation env.gateway form provider.is_sandbox) _ h₃ in
    record {
      passphrase = passphrase;
      secret = secret;
      signed = not-false _ (raise_if_ok _ 400 signed);
      merchant = not-false _ (raise_if_ok _ 400 merchant);
      confirmed = confirmed ∙ ap ok (not-false _ (raise_if_ok _ 400 h₄));
    }

-- The payment of the order `o` in `form`: the amount is the order's, in rand, and complete.
pub record PaysFor (decimal : Text → Option Decimal) (form : Form) (o : PackageOrder) : Type 0 where
  pub gateway : opt_text_eq o.provider (some (text "payfast")) ≡ true
  pub amount : received_cents (decimal (get_or form (text "amount_gross") [])) ≡ ok o.amount_cents
  pub currency : text_eq o.currency (text "ZAR") ≡ true
  pub complete : opt_text_eq (form_get form (text "payment_status")) (some (text "COMPLETE")) ≡ true

check_amount_ok :
    (decimal : Text → Option Decimal) (o : PackageOrder) (form : Form) {u : Unit {0}}
    → check_amount decimal o form ≡ ok u
    → (received_cents (decimal (get_or form (text "amount_gross") [])) ≡ ok o.amount_cents)
      × (text_eq o.currency (text "ZAR") ≡ true)
unfolding check_amount
check_amount_ok decimal o form h =
    let (n, got, h₁) =
      bind_ok (received_cents (decimal (get_or form (text "amount_gross") []))) _ h in
    let passed = raise_if_ok _ 400 h₁ in
    let same : n ≡ o.amount_cents = ground arith in (got ∙ ap ok same, ground arith)

-- Everything that stands behind an upgrade.
pub record PaidUpgrade (env : Env) (decimal : Text → Option Decimal) (now : ℕ) (db db' : Db)
    (form : Form) : Type 0 where
  pub provider : PaymentProviderConfig
  pub order : PackageOrder
  pub event : Event
  pub configured : payfast_runtime_config db ≡ some provider
  pub authentic : Authentic env provider form
  pub pays : PaysFor decimal form order
  pub upgrades : Upgrades db db' now order event

-- A notification that is accepted leaves every event as it is, or it is authentic (signature,
-- merchant and server confirmation), it pays the exact amount of an order that awaits its payment
-- in rand by this gateway, and it upgrades the order's event to the active package that was
-- ordered, and approves the order.
pub payfast_notify_verified :
    (env : Env) (decimal : Text → Option Decimal) (now activity_id : ℕ) (db db' : Db) (form : Form)
    (r : Response)
    → payfast_notify env decimal now activity_id db form ≡ ok (r, db')
    → (db'.events ≡ db.events) ⊎ PaidUpgrade env decimal now db db' form
unfolding payfast_notify
payfast_notify_verified env decimal now activity_id db db' form r h =
    let (provider, configured, h₁) = bind_ok (or_raise (payfast_runtime_config db) 503) _ h in
    let (_, authentic, h₂) = bind_ok (authenticate env provider form) _ h₁ in
    let (named, was, h₃) = bind_ok (named_order env db form) _ h₂ in
    let o = named.0 in
    let e = named.1 in
    let (_, gateway, h₄) =
      bind_ok (raise_if (not (opt_text_eq o.provider (some (text "payfast")))) 400) _ h₃ in
    let (_, amount, h₅) = bind_ok (check_amount decimal o form) _ h₄ in
    let (d, settled, h₆) = bind_ok (settle now activity_id db o e form) _ h₅ in
    let same : d ≡ db' = returned_db success r d db' h₆ in
    let facts = named_order_ok env db form was in
    let exact = check_amount_ok decimal o form amount in
    elim (settle_ok now db o e facts.0 facts.1 activity_id form (settled ∙ ap ok same)) [
      | inl kept ↦ inl kept
      | inr (up, complete) ↦ inr (record {
        provider = provider;
        order = o;
        event = e;
        configured = or_raise_ok (payfast_runtime_config db) 503 configured;
        authentic = authenticate_ok env provider form authentic;
        pays = record {
          gateway = not-false _ (raise_if_ok _ 400 gateway);
          amount = exact.0;
          currency = exact.1;
          complete = complete;
        };
        upgrades = up;
      })
    ]
