-- ===== src/Orders/Checkout.antt =====
-- A host's order on its way to the gateway (app/main.py): `start_checkout`, `cancel_host_order`,
-- and the pages that only read the order.
use markmonica.Base.{
  ℕ, Bool, true, false, not, ◌&&◌, ◌||◌, Option, none, some, ◌++◌, ◌==◌, if◌then◌else◌,
}
use markmonica.Base.Texts.{Text, text, text_eq}
use markmonica.Model.{Db, User, Event, PackageOrder, OrderStatus, AdminActivity}
use markmonica.Http.{
  Result, ok, err, http, ◌>>=◌, ◌>>◌, raise_if, or_raise, Request, Response, Location, redirect,
  success,
}
use markmonica.Accounts.{require_same_origin, event_for_owner}
use markmonica.Payments.Checkout.{payfast_runtime_config, payfast_checkout_fields_for_config}
use markmonica.Orders.{
  get_order, save_order, add_activity, lock_commercial_event, require_resolved_payments,
  is_awaiting, order_label, status_text,
}
use markmonica.Orders.Host.{Env, logged_in, active_package}

abbrev pub is_pending : OrderStatus → Bool
is_pending OrderStatus.pending = true
is_pending _ = false

-- `if order is None or order.event_id != event.id or order.user_id != user.id: raise 404`
unfoldable pub own_order : Db → ℕ → Event → User → Result PackageOrder
own_order db order_id e user = elim (get_order db order_id) [
  | none ↦ err (http 404)
  | some o ↦ if o.event_id == e.id && o.user_id == user.id then ok o else err (http 404)
]

abbrev pub awaiting_order : ℕ → Text → PackageOrder → PackageOrder
awaiting_order now reference o = record o {
  provider = some (text "payfast");
  provider_reference = some reference;
  status = OrderStatus.awaiting_payment;
  updated_at = now;
}

-- `start_checkout` below its checks of the request and the order.
unfoldable pub begin_payment : Env → ℕ → Db → User → PackageOrder → Result (Response × Db)
begin_payment env now db user o = do
  p ← active_package db o.package_code 409
  raise_if (o.amount_cents == 0 || not (text_eq o.currency (text "ZAR"))) 400
  provider ← or_raise (payfast_runtime_config db) 503
  let reference = env.settings.str_uuid o.id
  fields ←
      payfast_checkout_fields_for_config env.gateway env.vault (awaiting_order now reference o)
        reference user.email env.settings.app_url provider
  ok (success, save_order (awaiting_order now reference o) db)

unfoldable pub start_checkout : Env → Request → Db → Option ℕ → ℕ → Result (Response × Db)
start_checkout env req db event_id order_id =
    require_same_origin env.settings req
    >> logged_in env req db (λ user. do
      owned ← event_for_owner db user event_id
      e ← lock_commercial_event db owned.id
      o ← own_order db order_id e user
      require_resolved_payments db e.id
      raise_if (not (is_pending o.status)) 409
      begin_payment env req.now db user o)

abbrev pub with_status : ℕ → OrderStatus → PackageOrder → PackageOrder
with_status now status o = record o { status = status; updated_at = now }

-- The audit row of a change of status.
abbrev pub order_activity : ℕ → ℕ → Option ℕ → Text → Event → PackageOrder → Text → AdminActivity
order_activity now id admin action e o detail = record {
  id = id;
  admin_user_id = admin;
  action = action;
  target_type = some (text "package_order");
  target_id = some o.id;
  target_label = some (order_label e o);
  detail = some detail;
  created_at = now;
}

unfoldable pub cancel_host_order : Env → Request → Db → Option ℕ → ℕ → ℕ → Result (Response × Db)
cancel_host_order env req db event_id order_id activity_id =
    require_same_origin env.settings req
    >> logged_in env req db (λ user. do
      owned ← event_for_owner db user event_id
      e ← lock_commercial_event db owned.id
      o ← own_order db order_id e user
      raise_if (not (is_awaiting o.status)) 409
      let detail =
          text "Status "
          ++ status_text o.status
          ++ text " → cancelled. Host explicitly cancelled the outstanding order."
      let row = order_activity req.now activity_id none (text "order_cancelled_by_host") e o detail
      ok (
        redirect (Location.payment_cancelled e.id),
        add_activity row (save_order (with_status req.now OrderStatus.cancelled o) db),
      ))

-- `checkout_page`: only a pending order is shown.
unfoldable pub checkout_page : Env → Request → Db → Option ℕ → ℕ → Result (Response × Db)
checkout_page env req db event_id order_id = logged_in env req db (λ user. do
  e ← event_for_owner db user event_id
  o ← own_order db order_id e user
  ok (if is_pending o.status then success else redirect (Location.packages e.id), db))

-- The order of a browser that comes back from the gateway.
abbrev returned_order : Db → ℕ → User → Result PackageOrder
returned_order db order_id user = elim (get_order db order_id) [
  | none ↦ err (http 404)
  | some o ↦ if o.user_id == user.id then ok o else err (http 404)
]

unfoldable pub payfast_return : Env → Request → Db → ℕ → Result (Response × Db)
payfast_return env req db order_id = logged_in env req db (λ user. do
  o ← returned_order db order_id user
  ok (redirect (Location.payment_processing o.event_id), db))

unfoldable pub payfast_cancel : Env → Request → Db → ℕ → Result (Response × Db)
payfast_cancel env req db order_id = logged_in env req db (λ user. do
  o ← returned_order db order_id user
  ok (redirect (Location.payment_cancelled o.event_id), db))
