-- ===== src/Orders/Notify.antt =====
-- The gateway's notification (`payfast_notify`, app/main.py), stage by stage: who sent it, which
-- order it names, what was paid, and what that does to the order and its event.
pub mod Upgrade
pub mod Verified
pub mod Late
use markmonica.Base.{ℕ, not, ◌||◌, Option, none, some, [], ◌++◌, ◌==◌, if◌then◌else◌}
use markmonica.Base.Texts.{Text, text, text_eq, opt_text_eq, upper}
use markmonica.Model.{Db, Event, PackageOrder, OrderStatus, PaymentProviderConfig}
use markmonica.Http.{Result, ok, err, http, ◌>>=◌, ◌>>◌, raise_if, or_raise, Response, success}
use markmonica.Vault.{decrypt_secret}
use markmonica.Payments.Itn.{
  Form, valid_payfast_itn_signature, valid_payfast_server_confirmation, form_get,
}
use markmonica.Payments.Amount.{Decimal, received_cents}
use markmonica.Payments.Checkout.{payfast_runtime_config}
use markmonica.Orders.{
  get_order, save_order, save_event, add_activity, lock_commercial_event,
  flag_late_completed_payment, mark_paid, is_awaiting, status_text,
}
use markmonica.Orders.Host.{Env, active_package, assign_package}
use markmonica.Orders.Checkout.{with_status, order_activity}

-- Signature, merchant and server confirmation, in this order.
unfoldable pub authenticate : Env → PaymentProviderConfig → Form → Result (Unit {0})
authenticate env provider form = do
  passphrase ← decrypt_secret env.vault provider.passphrase
  raise_if (not (valid_payfast_itn_signature env.gateway form passphrase)) 400
  raise_if (not (opt_text_eq (form_get form (text "merchant_id")) provider.merchant_id)) 400
  confirmation ← valid_payfast_server_confirmation env.gateway form provider.is_sandbox
  raise_if (not confirmation) 400

-- `data.get(key, default)`
abbrev pub get_or : Form → Text → Text → Text
get_or form key default = elim (form_get form key) [ none ↦ default | some v ↦ v ]

-- The order that the form names. Reading it again under the lock of its event finds the same row.
unfoldable pub named_order : Env → Db → Form → Result (PackageOrder × Event)
named_order env db form = do
  id ← or_raise (env.settings.parse_uuid (get_or form (text "m_payment_id") (text "missing"))) 400
  o ← or_raise (get_order db id) 404
  e ← lock_commercial_event db o.event_id
  ok (o, e)

-- `Decimal(text)` is a parameter: `none` where it raises.
unfoldable pub check_amount : (Text → Option Decimal) → PackageOrder → Form → Result (Unit {0})
check_amount decimal o form = do
  received ← received_cents (decimal (get_or form (text "amount_gross") []))
  raise_if (not (received == o.amount_cents) || not (text_eq o.currency (text "ZAR"))) 400

-- The payment of an order that awaits it: the order is approved and its event upgraded.
unfoldable pub activate : ℕ → Db → PackageOrder → Event → Option Text → Result Db
activate now db o e reference = do
  p ← active_package db o.package_code 409
  paid_order ← mark_paid now reference o
  let approved_order = with_status now OrderStatus.approved paid_order
  ok (save_order approved_order (save_event (assign_package now p.code e) db))

-- `payment_status == "COMPLETE"`, by the order's status.
unfoldable pub complete_by :
    OrderStatus → ℕ → ℕ → Db → PackageOrder → Event → Option Text → Result Db
complete_by OrderStatus.approved now activity_id db o e reference = ok db
complete_by OrderStatus.payment_review now activity_id db o e reference = ok db
complete_by OrderStatus.cancelled now activity_id db o e reference =
    flag_late_completed_payment now activity_id db e o reference
complete_by OrderStatus.failed now activity_id db o e reference =
    flag_late_completed_payment now activity_id db e o reference
complete_by OrderStatus.awaiting_payment now activity_id db o e reference =
    activate now db o e reference
complete_by OrderStatus.pending now activity_id db o e reference = err (http 409)
complete_by OrderStatus.paid now activity_id db o e reference = err (http 409)

-- The status that a provider's word closes an order with.
abbrev pub closing : Text → Option OrderStatus
closing word =
    if text_eq word (text "FAILED")
    then some OrderStatus.failed
    else if text_eq word (text "CANCELLED")
    then some OrderStatus.cancelled
    else none

abbrev closed_detail : PackageOrder → OrderStatus → Text → Text
closed_detail o status word =
    text "Status "
    ++ status_text o.status
    ++ text " → "
    ++ status_text status
    ++ text ". Verified Payfast status: "
    ++ word
    ++ text "."

-- Any other status of the payment.
unfoldable pub not_complete : ℕ → ℕ → Db → PackageOrder → Event → Text → Db
not_complete now activity_id db o e word = elim (closing word) [
  | none ↦ db
  | some status ↦
      if is_awaiting o.status
      then add_activity
          (order_activity now activity_id none (text "provider_payment_closed") e o
            (closed_detail o status word))
          (save_order (with_status now status o) db)
      else db
]

-- The commit that the verified payment leads to.
unfoldable pub settle : ℕ → ℕ → Db → PackageOrder → Event → Form → Result Db
settle now activity_id db o e form =
    if opt_text_eq (form_get form (text "payment_status")) (some (text "COMPLETE"))
    then complete_by o.status now activity_id db o e (form_get form (text "pf_payment_id"))
    else ok (not_complete now activity_id db o e (upper (get_or form (text "payment_status") [])))

unfoldable pub payfast_notify :
    Env → (Text → Option Decimal) → ℕ → ℕ → Db → Form → Result (Response × Db)
payfast_notify env decimal now activity_id db form = do
  provider ← or_raise (payfast_runtime_config db) 503
  authenticate env provider form
  named ← named_order env db form
  raise_if (not (opt_text_eq named.0.provider (some (text "payfast")))) 400
  check_amount decimal named.0 form
  db' ← settle now activity_id db named.0 named.1 form
  ok (success, db')
