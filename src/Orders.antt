-- ===== src/Orders.antt =====
-- Commercial orders: the guards and the moves of app/services/package_orders.py and
-- app/services/payments.py. An object of the session is written back by `save_order` and
-- `save_event`, as the session's flush does; an insert fails where its id is taken.
pub mod Host
pub mod Checkout
pub mod Notify
pub mod Admin
pub mod Effects
pub mod History
use markmonica.Base.{
  ℕ, Bool, true, false, ◌&&◌, Option, none, some, List, [], ◌∷◌, ◌++◌, ◌==◌, if◌then◌else◌,
}
use markmonica.Base.Tables.{find, put, any}
use markmonica.Base.Texts.{Text, text, truthy}
use markmonica.Model.{Db, Event, PackageOrder, OrderStatus, AdminActivity}
use markmonica.Http.{Failure, http, unhandled, Result, ok, err, ◌>>=◌, ◌>>◌, raise_if, or_raise}

abbrev pub order_has_id : ℕ → PackageOrder → Bool
order_has_id id o = o.id == id

abbrev pub event_has_id : ℕ → Event → Bool
event_has_id id e = e.id == id

-- `db.get(PackageOrder, id)`
unfoldable pub get_order : Db → ℕ → Option PackageOrder
get_order db id = find (order_has_id id) db.package_orders

abbrev pub save_order : PackageOrder → Db → Db
save_order o db = record db { package_orders = put (order_has_id o.id) o db.package_orders }

abbrev pub save_event : Event → Db → Db
save_event e db = record db { events = put (event_has_id e.id) e db.events }

-- `db.add(order)` and its flush: the primary key refuses an id that is taken.
unfoldable pub add_order : PackageOrder → Db → Result Db
add_order o db =
    if any (order_has_id o.id) db.package_orders
    then err unhandled
    else ok (record db { package_orders = db.package_orders ++ o ∷ [] })

abbrev pub add_activity : AdminActivity → Db → Db
add_activity a db = record db { admin_activity = db.admin_activity ++ a ∷ [] }

-- `lock_commercial_event`: the row is read anew under its lock.
unfoldable pub lock_commercial_event : Db → ℕ → Result Event
lock_commercial_event db event_id = or_raise (find (event_has_id event_id) db.events) 404

abbrev pub is_outstanding : OrderStatus → Bool
is_outstanding OrderStatus.awaiting_payment = true
is_outstanding OrderStatus.paid = true
is_outstanding OrderStatus.payment_review = true
is_outstanding _ = false

abbrev pub outstanding_for : ℕ → PackageOrder → Bool
outstanding_for event_id o = o.event_id == event_id && is_outstanding o.status

unfoldable pub require_resolved_payments : Db → ℕ → Result (Unit {0})
require_resolved_payments db event_id =
    raise_if (any (outstanding_for event_id) db.package_orders) 409

-- The word of a status, as f-strings print it.
unfoldable pub status_text : OrderStatus → Text
status_text OrderStatus.pending = text "pending"
status_text OrderStatus.awaiting_payment = text "awaiting_payment"
status_text OrderStatus.paid = text "paid"
status_text OrderStatus.approved = text "approved"
status_text OrderStatus.failed = text "failed"
status_text OrderStatus.cancelled = text "cancelled"
status_text OrderStatus.payment_review = text "payment_review"

-- `a or b` on optional texts.
abbrev pub or_text : Option Text → Option Text → Option Text
or_text a b = elim (truthy a) [ none ↦ b | some t ↦ some t ]

abbrev pub closed : OrderStatus → Bool
closed OrderStatus.cancelled = true
closed OrderStatus.failed = true
closed _ = false

abbrev pub review_of : ℕ → Option Text → PackageOrder → PackageOrder
review_of now reference o = record o {
  status = OrderStatus.payment_review;
  provider_reference = or_text reference o.provider_reference;
  updated_at = now;
}

-- `target_label=f"{event.title} · {order.package_code}"`
abbrev pub order_label : Event → PackageOrder → Text
order_label e o = e.title ++ text " · " ++ o.package_code

-- `flag_late_completed_payment` of the order's event `e`, with the id of its audit row.
unfoldable pub flag_late_completed_payment :
    ℕ → ℕ → Db → Event → PackageOrder → Option Text → Result Db
unfolding status_text
flag_late_completed_payment now activity_id db e o reference =
    if closed o.status
    then ok (
        add_activity
          (record {
            id = activity_id;
            admin_user_id = none;
            action = text "late_payment_received";
            target_type = some (text "package_order");
            target_id = some o.id;
            target_label = some (order_label e o);
            detail = some (
                text "Verified COMPLETE payment received after order status "
                ++ status_text o.status
                ++ text "; entitlement was not activated.");
            created_at = now;
          })
          (save_order (review_of now reference o) db))
    else err unhandled

abbrev pub is_awaiting : OrderStatus → Bool
is_awaiting OrderStatus.awaiting_payment = true
is_awaiting _ = false

abbrev pub can_fail : OrderStatus → Bool
can_fail OrderStatus.awaiting_payment = true
can_fail OrderStatus.paid = true
can_fail _ = false

-- `mark_paid`
unfoldable pub mark_paid : ℕ → Option Text → PackageOrder → Result PackageOrder
mark_paid now reference o =
    if is_awaiting o.status
    then ok (record o {
      provider_reference = or_text reference o.provider_reference;
      status = OrderStatus.paid;
      updated_at = now;
    })
    else err unhandled

-- `mark_failed`
unfoldable pub mark_failed : ℕ → PackageOrder → Result PackageOrder
mark_failed now o =
    if can_fail o.status
    then ok (record o { status = OrderStatus.failed; updated_at = now })
    else err unhandled
