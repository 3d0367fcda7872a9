-- ===== src/Orders/Admin.antt =====
-- An administrator's reconciliation of orders (app/admin.py): `approve_order`, `cancel_order`,
-- `fail_order`, `activate_reviewed_payment`, and the assignment of a package to an event.
use markmonica.Base.{ℕ, Bool, true, false, not, ◌||◌, some, ◌++◌, ltb, if◌then◌else◌}
use markmonica.Base.Tables.{length}
use markmonica.Base.Texts.{Text, text, strip, take}
use markmonica.Model.{Db, User, Event, PackageOrder, OrderStatus}
use markmonica.Http.{
  Result, ok, err, http, ◌>>=◌, ◌>>◌, raise_if, or_raise, Request, Response, Location, redirect,
}
use markmonica.Accounts.{require_same_origin, require_admin}
use markmonica.Orders.{
  get_order, save_order, save_event, add_activity, lock_commercial_event, require_resolved_payments,
  is_awaiting, status_text,
}
use markmonica.Orders.Host.{Env, active_package, assign_package}
use markmonica.Orders.Checkout.{is_pending, with_status, order_activity}

-- `require_reconciliation_reason`
unfoldable pub require_reconciliation_reason : Text → Result Text
require_reconciliation_reason reason =
    let cleaned = strip reason in
    if ltb (length cleaned) 5 then err (http 400) else ok (take 800 cleaned)

-- `record_order_activity`, for an order whose status was `previous`.
unfoldable pub record_order_activity :
    ℕ → ℕ → Db → User → Event → PackageOrder → Text → OrderStatus → Text → Db
record_order_activity now id db admin e o action previous reason =
    let detail =
      text "Status "
      ++ status_text previous
      ++ text " → "
      ++ status_text o.status
      ++ text ". "
      ++ reason in
    add_activity (order_activity now id (some admin.id) action e o (take 1000 detail)) db

-- The head of each handler: the administrator, the order and its event under the lock.
unfoldable pub order_for_admin : Env → Request → Db → ℕ → Result (User × PackageOrder × Event)
order_for_admin env req db order_id = do
  admin ← require_admin env.settings req db
  require_same_origin env.settings req
  o ← or_raise (get_order db order_id) 404
  e ← lock_commercial_event db o.event_id
  ok (admin, o, e)

-- The order takes a new status, with its audit row.
unfoldable pub resolve :
    ℕ → ℕ → Db → User → Event → PackageOrder → OrderStatus → Text → Text → Result (Response × Db)
resolve now id db admin e o status action reason =
    let o' = with_status now status o in
    ok (
      redirect (Location.admin_order o.id),
      record_order_activity now id (save_order o' db) admin e o' action o.status reason,
    )

unfoldable pub approve_order : Env → Request → Db → ℕ → Text → ℕ → Result (Response × Db)
approve_order env req db order_id reason id = do
  target ← order_for_admin env req db order_id
  let o = target.1
  let e = target.2
  require_resolved_payments db o.event_id
  raise_if (not (is_pending o.status)) 409
  cleaned ← require_reconciliation_reason reason
  p ← active_package db o.package_code 400
  resolve req.now id (save_event (assign_package req.now p.code e) db) target.0 e o
      OrderStatus.approved (text "order_manually_approved") cleaned

unfoldable pub cancel_order : Env → Request → Db → ℕ → Text → ℕ → Result (Response × Db)
cancel_order env req db order_id reason id = do
  target ← order_for_admin env req db order_id
  raise_if (not (is_pending target.1.status || is_awaiting target.1.status)) 409
  cleaned ← require_reconciliation_reason reason
  resolve req.now id db target.0 target.2 target.1 OrderStatus.cancelled (text "order_cancelled")
      cleaned

unfoldable pub fail_order : Env → Request → Db → ℕ → Text → ℕ → Result (Response × Db)
fail_order env req db order_id reason id = do
  target ← order_for_admin env req db order_id
  raise_if (not (is_awaiting target.1.status)) 409
  cleaned ← require_reconciliation_reason reason
  resolve req.now id db target.0 target.2 target.1 OrderStatus.failed (text "order_marked_failed")
      cleaned

abbrev pub is_reviewable : OrderStatus → Bool
is_reviewable OrderStatus.paid = true
is_reviewable OrderStatus.payment_review = true
is_reviewable _ = false

unfoldable pub activate_reviewed_payment :
    Env → Request → Db → ℕ → Text → ℕ → Result (Response × Db)
activate_reviewed_payment env req db order_id reason id = do
  target ← order_for_admin env req db order_id
  let o = target.1
  let e = target.2
  raise_if (not (is_reviewable o.status)) 409
  p ← active_package db o.package_code 409
  cleaned ← require_reconciliation_reason reason
  resolve req.now id (save_event (assign_package req.now p.code e) db) target.0 e o
      OrderStatus.approved (text "reviewed_payment_activated") cleaned

-- `event_package`: no change of `package_assigned_at`.
unfoldable pub event_package : Env → Request → Db → ℕ → Text → Result (Response × Db)
event_package env req db event_id package_code = do
  admin ← require_admin env.settings req db
  require_same_origin env.settings req
  e ← lock_commercial_event db event_id
  require_resolved_payments db event_id
  p ← active_package db package_code 400
  ok (redirect (Location.admin_event e.id), save_event (record e { package_code = p.code }) db)
