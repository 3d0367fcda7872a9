-- ===== src/Orders/Notify/Upgrade.antt =====
-- The upgrade of an event by a complete payment, and the payments that upgrade nothing.
use mathlib.Core.Path.{subst}
use markmonica.Base.Tables.{find, put, find-put}
use markmonica.Base.{
  ==_refl, ℕ, true, ◌==◌, ◌≡◌, ◌≢◌, refl, sym, ap, ◌∙◌, ◌⊎◌, inl, inr, Option, some, [], Bool-cases,
  Option-cases,
}
use markmonica.Base.Texts.{Text, text, opt_text_eq, upper}
use markmonica.Model.{Db, Event, PackageConfig, PackageOrder, OrderStatus}
use markmonica.Http.{Failure, ok, err}
use markmonica.Http.Post.{ok_inj, bind_ok}
use markmonica.Payments.Itn.{Form, form_get}
use markmonica.Orders.{
  get_order, is_awaiting, closed, flag_late_completed_payment, order_has_id, event_has_id,
  mark_paid,
}
use markmonica.Orders.Host.{active_package, assign_package}
use markmonica.Orders.Checkout.{with_status}
use markmonica.Orders.Notify.{activate, complete_by, closing, not_complete, settle, get_or}
use markmonica.Orders.Effects.Rules.{package_config_code, active_package_ok}
use markmonica.Orders.Effects.Notify.{mark_paid_ok}

err_apart : {A : Type 0} {f : Failure} {a : A} → err f ≢ ok a
err_apart h = cc

-- The order under an id has a status.
pub record OrderBecame (db : Db) (id : ℕ) (status : OrderStatus) : Type 0 where
  pub now : PackageOrder
  pub stored : get_order db id ≡ some now
  pub reached : now.status ≡ status

-- The upgrade itself: the order awaited its payment, and its event is put on the package ordered.
pub record Upgrades (db db' : Db) (now : ℕ) (o : PackageOrder) (e : Event) : Type 0 where
  pub ordered : PackageConfig
  pub found : get_order db o.id ≡ some o
  pub of_order : e.id ≡ o.event_id
  pub awaiting : o.status ≡ OrderStatus.awaiting_payment
  pub active : active_package db o.package_code 409 ≡ ok ordered
  pub upgraded :
      find (event_has_id e.id) db'.events
      ≡ some (record e { package_code = o.package_code; package_assigned_at = now })
  pub approved : OrderBecame db' o.id OrderStatus.approved

late_events :
    (now activity_id : ℕ) (db : Db) (e : Event) (o : PackageOrder) (r : Option Text) {db' : Db}
    → flag_late_completed_payment now activity_id db e o r ≡ ok db'
    → db'.events ≡ db.events
unfolding flag_late_completed_payment
late_events now activity_id db e o r {db'} h = elim (Bool-cases (closed o.status)) [
  | inl late ↦ ap (λ d. d.events) (sym (ok_inj (rw late at h)))
  | inr open_still ↦ absurd (err_apart (rw open_still at h))
]

not_complete_events :
    (now activity_id : ℕ) (db : Db) (o : PackageOrder) (e : Event) (word : Text)
    → (not_complete now activity_id db o e word).events ≡ db.events
unfolding not_complete
not_complete_events now activity_id db o e word = elim (Option-cases (closing word)) [
  | inl other ↦ rw (not_complete, other) refl
  | inr (s, closes) ↦ elim (Bool-cases (is_awaiting o.status)) [
    | inl awaits ↦ rw (not_complete, closes, awaits) refl
    | inr other ↦ rw (not_complete, closes, other) refl
  ]
]

module _ (now : ℕ) (db : Db) (o : PackageOrder) (e : Event)
    (found : find (order_has_id o.id) db.package_orders ≡ some o)
    (place : (find (event_has_id e.id) db.events ≡ some e) × (e.id ≡ o.event_id)) where
  activate_ok :
      (r : Option Text) {db' : Db} → activate now db o e r ≡ ok db' → Upgrades db db' now o e
  unfolding activate get_order
  activate_ok r {db'} h =
      let (p, active, h₁) = bind_ok (active_package db o.package_code 409) _ h in
      let (o', paid, h₂) = bind_ok (mark_paid now r o) _ h₁ in
      let (awaits, key, _) = mark_paid_ok now r o paid in
      let code = package_config_code db o.package_code (active_package_ok db _ 409 active).0 in
      let approved_order = with_status now OrderStatus.approved o' in
      let keyed : (approved_order.id == o.id) ≡ true = rw key (==_refl o.id) in
      let orders = put (order_has_id o.id) approved_order db.package_orders in
      let stored : find (order_has_id o.id) orders ≡ some approved_order =
        find-put (order_has_id o.id) approved_order db.package_orders found keyed in
      let shelf : find (event_has_id e.id)
            (put (event_has_id e.id) (assign_package now p.code e) db.events)
          ≡ some (assign_package now p.code e) =
        find-put (event_has_id e.id) (assign_package now p.code e) db.events place.0
          (==_refl e.id) in
      subst (λ d. Upgrades db d now o e) (ok_inj h₂)
        (record {
          ordered = p;
          found = found;
          of_order = place.1;
          awaiting = awaits;
          active = active;
          upgraded =
              subst
                (λ c.
                  find (event_has_id e.id)
                    (put (event_has_id e.id) (assign_package now p.code e) db.events)
                  ≡ some (assign_package now c e))
                code shelf;
          approved = record {
            now = approved_order;
            stored =
                subst
                  (λ k.
                    find (order_has_id o.id) (put (order_has_id k) approved_order db.package_orders)
                    ≡ some approved_order)
                  (sym key) stored;
            reached = refl;
          };
        })

  complete_ok :
      (s : OrderStatus) (activity_id : ℕ) (r : Option Text) {db' : Db}
      → complete_by s now activity_id db o e r ≡ ok db'
      → (db'.events ≡ db.events) ⊎ Upgrades db db' now o e
  unfolding complete_by
  complete_ok OrderStatus.approved i r h = inl (ap (λ d. d.events) (sym (ok_inj h)))
  complete_ok OrderStatus.payment_review i r h = inl (ap (λ d. d.events) (sym (ok_inj h)))
  complete_ok OrderStatus.cancelled i r h = inl (late_events now i db e o r h)
  complete_ok OrderStatus.failed i r h = inl (late_events now i db e o r h)
  complete_ok OrderStatus.awaiting_payment i r h = inr (activate_ok r h)
  complete_ok OrderStatus.pending i r h = absurd (err_apart h)
  complete_ok OrderStatus.paid i r h = absurd (err_apart h)

  pub settle_ok :
      (activity_id : ℕ) (form : Form) {db' : Db}
      → settle now activity_id db o e form ≡ ok db'
      → (db'.events ≡ db.events)
        ⊎ (Upgrades db db' now o e
            × (opt_text_eq (form_get form (text "payment_status")) (some (text "COMPLETE")) ≡ true))
  unfolding settle
  settle_ok i form h =
      elim (Bool-cases
        (opt_text_eq (form_get form (text "payment_status")) (some (text "COMPLETE")))) [
          | inl complete ↦
              elim (complete_ok o.status i (form_get form (text "pf_payment_id"))
                (rw complete at h)) [ inl same ↦ inl same | inr up ↦ inr (up, complete) ]
          | inr other ↦ inl (
              ap (λ d. d.events) (sym (ok_inj (rw other at h)))
              ∙ not_complete_events now i db o e (upper (get_or form (text "payment_status") [])))
        ]
