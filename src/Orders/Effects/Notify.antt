-- ===== src/Orders/Effects/Notify.antt =====
-- The gateway's notification meets the specification.
use mathlib.Core.Path.{subst, subst₂}
use markmonica.Base.{
  ℕ, not, true, ◌≡◌, refl, inl, inr, Option, some, [], arith, Option-cases, Bool-cases,
}
use markmonica.Base.Tables.{find}
use markmonica.Base.Texts.{Text, text, opt_text_eq, upper}
use markmonica.Model.{Db, Event, PackageOrder, OrderStatus}
use markmonica.Http.{ok, or_raise, raise_if, success}
use markmonica.Http.Post.{
  Returns, bind, bind_ok, or_raise_ok, Yields, fails, yields, bind_stage, finish,
}
use markmonica.Payments.Itn.{Form, form_get}
use markmonica.Payments.Amount.{Decimal}
use markmonica.Payments.Checkout.{payfast_runtime_config}
use markmonica.Orders.{
  order_has_id, event_has_id, get_order, lock_commercial_event, is_awaiting, mark_paid,
  flag_late_completed_payment, closed, review_of,
}
use markmonica.Orders.Host.{Env, active_package}
use markmonica.Orders.Checkout.{with_status}
use markmonica.Orders.Notify.{
  authenticate, named_order, check_amount, activate, complete_by, closing, not_complete, settle,
  payfast_notify, get_or,
}
use markmonica.Orders.Effects.{Change, Grounds, SameTerms, may_close}
use markmonica.Orders.Effects.Rules.{
  locked_event, stored_order, rewritten, granted, same_terms, sold,
}

pub mark_paid_ok :
    (now : ℕ) (r : Option Text) (o : PackageOrder) {o' : PackageOrder}
    → mark_paid now r o ≡ ok o'
    → (o.status ≡ OrderStatus.awaiting_payment) × (o'.id ≡ o.id) × (o'.event_id ≡ o.event_id)
unfolding mark_paid
mark_paid_ok now r o e = ground arith

mark_paid-SameTerms :
    (now : ℕ) (r : Option Text) (o : PackageOrder) {o' : PackageOrder}
    → mark_paid now r o ≡ ok o'
    → SameTerms o o'
unfolding mark_paid
mark_paid-SameTerms now r o {o'} e =
    same_terms o o' (ground arith) (ground arith) (ground arith) (ground arith)

pub named_order_ok :
    (env : Env) (db : Db) (form : Form) {o : PackageOrder} {e : Event}
    → named_order env db form ≡ ok (o, e)
    → (find (order_has_id o.id) db.package_orders ≡ some o)
      × ((find (event_has_id e.id) db.events ≡ some e) × (e.id ≡ o.event_id))
unfolding named_order
named_order_ok env db form {o} {e} h =
    let (id, _, h₁) =
      bind_ok
        (or_raise (env.settings.parse_uuid (get_or form (text "m_payment_id") (text "missing")))
          400)
        _ h in
    let (o', got, h₂) = bind_ok (or_raise (get_order db id) 404) _ h₁ in
    let (e', locked, h₃) = bind_ok (lock_commercial_event db o'.event_id) _ h₂ in
    let same_o : o' ≡ o = ground arith in
    let same_e : e' ≡ e = ground arith in
    let place = locked_event db o'.event_id locked in
    (
      subst (λ x. find (order_has_id x.id) db.package_orders ≡ some x) same_o
          (stored_order db id (or_raise_ok (get_order db id) 404 got)).0,
      (
        subst (λ x. find (event_has_id x.id) db.events ≡ some x) same_e place.0,
        subst₂ (λ x y. x.id ≡ y.event_id) same_e same_o place.1,
      ),
    )

awaiting_ok : (s : OrderStatus) → is_awaiting s ≡ true → s ≡ OrderStatus.awaiting_payment
awaiting_ok s h = ground arith

review_allowed : (s : OrderStatus) → closed s ≡ true → may_close s OrderStatus.payment_review ≡ true
review_allowed s h = ground arith

closing_allowed :
    (word : Text) (s s' : OrderStatus)
    → closing word ≡ some s'
    → is_awaiting s ≡ true
    → may_close s s' ≡ true
closing_allowed word s s' h a = ground arith

-- The facts that a verified notification works with.
module _ {Admin : Type 0} (now activity_id : ℕ) (db : Db) (o : PackageOrder) (e : Event)
    (found : find (order_has_id o.id) db.package_orders ≡ some o)
    (place : (find (event_has_id e.id) db.events ≡ some e) × (e.id ≡ o.event_id)) where
  activate-Change : (r : Option Text) → Yields (Change Admin db) (activate now db o e r)
  unfolding activate
  activate-Change r = bind_stage (active_package db o.package_code 409) _ λ p active.
      bind_stage (mark_paid now r o) _ λ o' paid.
        let (awaits, key, home) = mark_paid_ok now r o paid in
        let terms = mark_paid-SameTerms now r o paid in
        yields (
          granted db _ o (with_status now OrderStatus.approved o') e p now
            (rewritten db _ o _ found key home refl)
            (same_terms o _ terms.code terms.price terms.currency terms.user)
            (Grounds.awaited awaits) refl place (sold db o.package_code 409 active) refl)

  late-Change :
      (r : Option Text)
      → Yields (Change Admin db) (flag_late_completed_payment now activity_id db e o r)
  unfolding flag_late_completed_payment
  late-Change r = elim (Bool-cases (closed o.status)) [
    | inl late ↦ rw late (
        yields (
          Change.close o (review_of now r o) (rewritten db _ o _ found refl refl refl)
            (same_terms o _ refl refl refl refl) (review_allowed o.status late) (inr (inl late))
            refl))
    | inr open_still ↦ rw open_still fails
  ]

  complete-Change :
      (s : OrderStatus) (r : Option Text)
      → Yields (Change Admin db) (complete_by s now activity_id db o e r)
  unfolding complete_by
  complete-Change OrderStatus.approved r = yields (Change.nothing refl refl)
  complete-Change OrderStatus.payment_review r = yields (Change.nothing refl refl)
  complete-Change OrderStatus.cancelled r = late-Change r
  complete-Change OrderStatus.failed r = late-Change r
  complete-Change OrderStatus.awaiting_payment r = activate-Change r
  complete-Change OrderStatus.pending r = fails
  complete-Change OrderStatus.paid r = fails

  not_complete-Change : (word : Text) → Change Admin db (not_complete now activity_id db o e word)
  unfolding not_complete
  not_complete-Change word = elim (Option-cases (closing word)) [
    | inl other ↦ rw (other, not_complete) (Change.nothing refl refl)
    | inr (s, closes) ↦ elim (Bool-cases (is_awaiting o.status)) [
      | inl awaits ↦
          rw (closes, not_complete, awaits)
            (Change.close o (with_status now s o) (rewritten db _ o _ found refl refl refl)
              (same_terms o _ refl refl refl refl) (closing_allowed word o.status s closes awaits)
              (inl (awaiting_ok o.status awaits)) refl)
      | inr other ↦ rw (closes, not_complete, other) (Change.nothing refl refl)
    ]
  ]

  pub settle-Change : (form : Form) → Yields (Change Admin db) (settle now activity_id db o e form)
  unfolding settle
  settle-Change form =
      elim (Bool-cases
        (opt_text_eq (form_get form (text "payment_status")) (some (text "COMPLETE")))) [
          | inl paid ↦ rw paid (complete-Change o.status (form_get form (text "pf_payment_id")))
          | inr other ↦
              rw other
                (yields (not_complete-Change (upper (get_or form (text "payment_status") []))))
        ]

-- A notification that is accepted has one of the effects of the specification.
pub payfast_notify-Change :
    {Admin : Type 0} (env : Env) (decimal : Text → Option Decimal) (now activity_id : ℕ) (db : Db)
    (form : Form)
    → Returns (Change Admin db) (payfast_notify env decimal now activity_id db form)
unfolding payfast_notify
payfast_notify-Change env decimal now activity_id db form =
    bind (or_raise (payfast_runtime_config db) 503) _ λ provider _.
      bind (authenticate env provider form) _ λ _ _. bind (named_order env db form) _ λ named was.
        let o = named.0 in
        let e = named.1 in
        bind (raise_if (not (opt_text_eq o.provider (some (text "payfast")))) 400) _ λ _ _.
          bind (check_amount decimal o form) _ λ _ _.
            let facts = named_order_ok env db form was in
            finish (settle now activity_id db o e form) success
              (settle-Change now activity_id db o e facts.0 facts.1 form)
