-- ===== src/Orders/Notify/Late.antt =====
-- A complete payment for an order that was cancelled or failed in the meantime.
use markmonica.Base.{
  List, ◌≤◌, ℕ, Bool, true, ◌≡◌, refl, Option, some, inl, inr, arith, ==_refl, Bool-cases,
}
use markmonica.Base.Tables.{find, any, find-put, count_found, any-false}
use markmonica.Base.Texts.{Text, text, opt_text_eq}
use markmonica.Model.{Db, Event, PackageOrder, OrderStatus}
use markmonica.Http.{Result, ok}
use markmonica.Payments.Itn.{Form, form_get}
use markmonica.Orders.{
  get_order, order_has_id, closed, review_of, outstanding_for, flag_late_completed_payment,
}
use markmonica.Orders.Notify.{complete_by, settle}
use markmonica.Orders.Notify.Upgrade.{OrderBecame}

closed_by :
    (s : OrderStatus) (now activity_id : ℕ) (db : Db) (o : PackageOrder) (e : Event)
    (r : Option Text)
    → closed s ≡ true
    → complete_by s now activity_id db o e r ≡ flag_late_completed_payment now activity_id db e o r
unfolding complete_by
closed_by OrderStatus.cancelled now i db o e r h = refl
closed_by OrderStatus.failed now i db o e r h = refl
closed_by OrderStatus.pending now i db o e r h = cc
closed_by OrderStatus.awaiting_payment now i db o e r h = cc
closed_by OrderStatus.paid now i db o e r h = cc
closed_by OrderStatus.approved now i db o e r h = cc
closed_by OrderStatus.payment_review now i db o e r h = cc

-- The payment is put aside: committed, with no event changed, the order under review, which counts
-- as outstanding for its event.
pub record PutAside (o : PackageOrder) (db : Db) (result : Result Db) : Type 0 where
  pub db' : Db
  pub committed : result ≡ ok db'
  pub same_events : db'.events ≡ db.events
  pub review : OrderBecame db' o.id OrderStatus.payment_review
  pub outstanding : any (outstanding_for o.event_id) db'.package_orders ≡ true

any_found :
    {A : Type 0} (p q : A → Bool) (xs : List A) {x : A}
    → find q xs ≡ some x
    → p x ≡ true
    → any p xs ≡ true
any_found p q xs {x} found passes = elim (Bool-cases (any p xs)) [
  | inl there ↦ there
  | inr nowhere ↦ absurd (nothing_there (any-false p xs nowhere) (count_found p q xs found passes))
]
  where
    nothing_there : {n : ℕ} → n ≡ 0 → 1 ≤ n → ⊥
    nothing_there e h = omega arith

-- A complete payment of a stored order that is cancelled or failed is put aside.
pub settle_late :
    (now activity_id : ℕ) (db : Db) (o : PackageOrder) (e : Event) (form : Form)
    → get_order db o.id ≡ some o
    → closed o.status ≡ true
    → opt_text_eq (form_get form (text "payment_status")) (some (text "COMPLETE")) ≡ true
    → PutAside o db (settle now activity_id db o e form)
unfolding settle get_order flag_late_completed_payment
settle_late now i db o e form found late complete =
    let reference = form_get form (text "pf_payment_id") in
    let reviewed = review_of now reference o in
    let stored = find-put (order_has_id o.id) reviewed db.package_orders found (==_refl o.id) in
    let open_review : outstanding_for o.event_id reviewed ≡ true = rw (==_refl o.event_id) refl in
    let blocks = any_found (outstanding_for o.event_id) (order_has_id o.id) _ stored open_review in
    rw
      (
        settle,
        complete,
        closed_by o.status now i db o e reference late,
        flag_late_completed_payment,
        late,
      )
      (record {
        db' = _;
        committed = refl;
        same_events = refl;
        review = record { now = reviewed; stored = stored; reached = refl };
        outstanding = blocks;
      })
