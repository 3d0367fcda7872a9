-- ===== src/Orders/Effects/Admin.antt =====
-- The administrator's handlers meet the specification.
use mathlib.Core.Path.{subst, subst₂, sym}
use markmonica.Base.{ℕ, not, true, false, ◌≡◌, ◌⊎◌, inl, inr, refl, ◌||◌, some, arith}
use markmonica.Base.Tables.{find, any}
use markmonica.Base.Texts.{Text}
use markmonica.Model.{Db, User, Event, PackageOrder, OrderStatus}
use markmonica.Http.{ok, Request, or_raise, raise_if}
use markmonica.Http.Post.{Returns, returned, bind, bind_ok, or_raise_ok, raise_if_ok}
use markmonica.Accounts.{require_same_origin, require_admin}
use markmonica.Orders.{
  order_has_id, event_has_id, get_order, lock_commercial_event, require_resolved_payments,
  outstanding_for, is_awaiting,
}
use markmonica.Orders.Host.{Env, active_package}
use markmonica.Orders.Checkout.{is_pending, with_status}
use markmonica.Orders.Admin.{
  order_for_admin, require_reconciliation_reason, resolve, record_order_activity, approve_order,
  cancel_order, fail_order, activate_reviewed_payment, is_reviewable, event_package,
}
use markmonica.Orders.Effects.{Change, Grounds, ByAdmin, may_close}
use markmonica.Orders.Effects.Rules.{
  locked_event, stored_order, resolved, rewritten, granted, same_terms, sold, require_admin-ByAdmin,
}

order_for_admin_ok :
    (env : Env) (req : Request) (db : Db) (id : ℕ) {t : User × PackageOrder × Event}
    → order_for_admin env req db id ≡ ok t
    → (find (order_has_id t.1.id) db.package_orders ≡ some t.1)
      × ((find (event_has_id t.2.id) db.events ≡ some t.2) × (t.2.id ≡ t.1.event_id))
      × ByAdmin env req db
unfolding order_for_admin
order_for_admin_ok env req db id {t} h =
    let (admin, signed, h₁) = bind_ok (require_admin env.settings req db) _ h in
    let (_, _, h₂) = bind_ok (require_same_origin env.settings req) _ h₁ in
    let (o, got, h₃) = bind_ok (or_raise (get_order db id) 404) _ h₂ in
    let (e, locked, h₄) = bind_ok (lock_commercial_event db o.event_id) _ h₃ in
    let same_o : o ≡ t.1 = ground arith in
    let same_e : e ≡ t.2 = ground arith in
    let place = locked_event db o.event_id locked in
    (
      subst (λ x. find (order_has_id x.id) db.package_orders ≡ some x) same_o
          (stored_order db id (or_raise_ok (get_order db id) 404 got)).0,
      (
        subst (λ x. find (event_has_id x.id) db.events ≡ some x) same_e place.0,
        subst₂ (λ x y. x.id ≡ y.event_id) same_e same_o place.1,
      ),
      require_admin-ByAdmin env req db signed,
    )

is_pending_ok : (s : OrderStatus) → not (is_pending s) ≡ false → s ≡ OrderStatus.pending
is_pending_ok s h = ground arith

is_reviewable_ok :
    (s : OrderStatus)
    → not (is_reviewable s) ≡ false
    → (s ≡ OrderStatus.paid) ⊎ (s ≡ OrderStatus.payment_review)
is_reviewable_ok OrderStatus.paid h = inl refl
is_reviewable_ok OrderStatus.payment_review h = inr refl
is_reviewable_ok OrderStatus.pending h = cc
is_reviewable_ok OrderStatus.awaiting_payment h = cc
is_reviewable_ok OrderStatus.approved h = cc
is_reviewable_ok OrderStatus.cancelled h = cc
is_reviewable_ok OrderStatus.failed h = cc

open_cancels :
    (s : OrderStatus)
    → not (is_pending s || is_awaiting s) ≡ false
    → may_close s OrderStatus.cancelled ≡ true
open_cancels s h = ground arith

awaiting_fails :
    (s : OrderStatus) → not (is_awaiting s) ≡ false → may_close s OrderStatus.failed ≡ true
awaiting_fails s h = ground arith

module _ (env : Env) (req : Request) (db : Db) (id : ℕ) (reason : Text) (activity_id : ℕ) where
  -- A resolution without a grant.
  resolve-Change :
      (t : User × PackageOrder × Event) (s : OrderStatus) (action cleaned : Text)
      → find (order_has_id t.1.id) db.package_orders ≡ some t.1
      → ByAdmin env req db
      → may_close t.1.status s ≡ true
      → Returns
          (Change (ByAdmin env req db) db)
          (resolve req.now activity_id db t.0 t.2 t.1 s action cleaned)
  unfolding resolve record_order_activity
  resolve-Change t s action cleaned found who allowed = returned (
      Change.close t.1 (with_status req.now s t.1) (rewritten db _ t.1 _ found refl refl refl)
        (same_terms t.1 _ refl refl refl refl) allowed (inr (inr who)) refl)

  -- A manual approval grants what a pending order asks for.
  pub approve_order-Change :
      Returns (Change (ByAdmin env req db) db) (approve_order env req db id reason activity_id)
  unfolding approve_order resolve record_order_activity
  approve_order-Change = bind (order_for_admin env req db id) _ λ t got.
      bind (require_resolved_payments db t.1.event_id) _ λ _ clear.
        bind (raise_if (not (is_pending t.1.status)) 409) _ λ _ guard.
          bind (require_reconciliation_reason reason) _ λ cleaned _.
            bind (active_package db t.1.package_code 400) _ λ p active.
              let facts = order_for_admin_ok env req db id got in
              returned (
                granted db _ t.1 (with_status req.now OrderStatus.approved t.1) t.2 p req.now
                  (rewritten db _ t.1 _ facts.0 refl refl refl)
                  (same_terms t.1 _ refl refl refl refl)
                  (Grounds.manual facts.2 (is_pending_ok t.1.status (raise_if_ok _ 409 guard))
                    (resolved db t.1.event_id clear))
                  refl facts.1 (sold db t.1.package_code 400 active) refl)

  -- So does the activation of a reviewed payment.
  pub activate_reviewed_payment-Change :
      Returns
        (Change (ByAdmin env req db) db)
        (activate_reviewed_payment env req db id reason activity_id)
  unfolding activate_reviewed_payment resolve record_order_activity
  activate_reviewed_payment-Change = bind (order_for_admin env req db id) _ λ t got.
      bind (raise_if (not (is_reviewable t.1.status)) 409) _ λ _ guard.
        bind (active_package db t.1.package_code 409) _ λ p active.
          bind (require_reconciliation_reason reason) _ λ cleaned _.
            let facts = order_for_admin_ok env req db id got in
            returned (
              granted db _ t.1 (with_status req.now OrderStatus.approved t.1) t.2 p req.now
                (rewritten db _ t.1 _ facts.0 refl refl refl) (same_terms t.1 _ refl refl refl refl)
                (Grounds.reviewed facts.2 (is_reviewable_ok t.1.status (raise_if_ok _ 409 guard)))
                refl facts.1 (sold db t.1.package_code 409 active) refl)

  pub cancel_order-Change :
      Returns (Change (ByAdmin env req db) db) (cancel_order env req db id reason activity_id)
  unfolding cancel_order
  cancel_order-Change = bind (order_for_admin env req db id) _ λ t got.
      bind (raise_if (not (is_pending t.1.status || is_awaiting t.1.status)) 409) _ λ _ guard.
        bind (require_reconciliation_reason reason) _ λ cleaned _.
          let facts = order_for_admin_ok env req db id got in
          resolve-Change t OrderStatus.cancelled _ cleaned facts.0 facts.2
            (open_cancels t.1.status (raise_if_ok _ 409 guard))

  pub fail_order-Change :
      Returns (Change (ByAdmin env req db) db) (fail_order env req db id reason activity_id)
  unfolding fail_order
  fail_order-Change = bind (order_for_admin env req db id) _ λ t got.
      bind (raise_if (not (is_awaiting t.1.status)) 409) _ λ _ guard.
        bind (require_reconciliation_reason reason) _ λ cleaned _.
          let facts = order_for_admin_ok env req db id got in
          resolve-Change t OrderStatus.failed _ cleaned facts.0 facts.2
            (awaiting_fails t.1.status (raise_if_ok _ 409 guard))

-- An administrator's assignment needs an active package and no outstanding payment.
pub event_package-Change :
    (env : Env) (req : Request) (db : Db) (event_id : ℕ) (code : Text)
    → Returns (Change (ByAdmin env req db) db) (event_package env req db event_id code)
unfolding event_package
event_package-Change env req db event_id code =
    bind (require_admin env.settings req db) _ λ admin signed.
      bind (require_same_origin env.settings req) _ λ _ _.
        bind (lock_commercial_event db event_id) _ λ e locked.
          bind (require_resolved_payments db event_id) _ λ _ clear.
            bind (active_package db code 400) _ λ p active.
              let (found, same) = locked_event db event_id locked in
              returned (
                Change.assign_by_admin e p (require_admin-ByAdmin env req db signed)
                  (sold db code 400 active).1
                  (subst (λ k. any (outstanding_for k) db.package_orders ≡ false) (sym same)
                    (resolved db event_id clear))
                  refl (record { at = e.package_assigned_at; found = found; written = refl }))
