-- ===== src/Orders/Effects/Payments.antt =====
-- The way of an order through the gateway meets the specification.
use mathlib.Core.Path.{subst}
use markmonica.Base.{
  ℕ, Bool, ◌≤◌, inl, not, true, false, ◌≡◌, refl, ◌||◌, Option, some, arith, ◌==◌, sym,
}
use markmonica.Base.Tables.{find, any}
use markmonica.Base.Texts.{text, text_eq}
use markmonica.Model.{Db, User, PackageOrder, OrderStatus}
use markmonica.Http.{Request, or_raise, raise_if}
use markmonica.Http.Post.{Returns, returned, bind, raise_if_ok}
use markmonica.Accounts.{require_same_origin, event_for_owner}
use markmonica.Payments.Checkout.{payfast_runtime_config, payfast_checkout_fields_for_config}
use markmonica.Orders.{
  order_has_id, lock_commercial_event, require_resolved_payments, outstanding_for, is_awaiting,
}
use markmonica.Orders.Host.{Env, active_package}
use markmonica.Orders.Checkout.{
  is_pending, own_order, awaiting_order, begin_payment, start_checkout, cancel_host_order,
  with_status,
}
use markmonica.Orders.Effects.{Change, may_close}
use markmonica.Orders.Effects.Rules.{
  logged_in_rule, rewritten, resolved, own_order_ok, same_terms, sold,
}

is_pending_ok : (s : OrderStatus) → not (is_pending s) ≡ false → s ≡ OrderStatus.pending
is_pending_ok s h = ground arith

closable :
    (s : OrderStatus) → s ≡ OrderStatus.awaiting_payment → may_close s OrderStatus.cancelled ≡ true
closable s h = rw h

is_awaiting_ok : (s : OrderStatus) → not (is_awaiting s) ≡ false → s ≡ OrderStatus.awaiting_payment
is_awaiting_ok s h = ground arith

has_price : (n : ℕ) (b : Bool) → (n == 0 || b) ≡ false → 1 ≤ n
has_price n b h = ground arith

begin_payment-Change :
    {Admin : Type 0} (env : Env) (now : ℕ) (db : Db) (u : User) (o : PackageOrder)
    → find (order_has_id o.id) db.package_orders ≡ some o
    → o.status ≡ OrderStatus.pending
    → any (outstanding_for o.event_id) db.package_orders ≡ false
    → Returns (Change Admin db) (begin_payment env now db u o)
unfolding begin_payment
begin_payment-Change env now db u o found pending clear =
    let reference = env.settings.str_uuid o.id in
    let o' = awaiting_order now reference o in
    bind (active_package db o.package_code 409) _ λ p active.
      bind (raise_if (o.amount_cents == 0 || not (text_eq o.currency (text "ZAR"))) 400) _
        λ _ priced. bind (or_raise (payfast_runtime_config db) 503) _ λ provider _.
          bind
            (payfast_checkout_fields_for_config env.gateway env.vault o' reference u.email
              env.settings.app_url provider)
            _
            λ fields _. returned (
              Change.checkout o o' p (rewritten db _ o o' found refl refl refl)
                (same_terms o o' refl refl refl refl) pending refl clear
                (sold db o.package_code 409 active)
                (has_price o.amount_cents _ (raise_if_ok _ 400 priced)) refl)

-- The start of a checkout puts one pending order into payment, while none is outstanding.
pub start_checkout-Change :
    {Admin : Type 0} (env : Env) (req : Request) (db : Db) (event_id : Option ℕ) (id : ℕ)
    → Returns (Change Admin db) (start_checkout env req db event_id id)
unfolding start_checkout
start_checkout-Change env req db event_id id = bind (require_same_origin env.settings req) _ λ _ _.
    logged_in_rule env req db _ (Change.nothing refl refl) λ u.
      bind (event_for_owner db u event_id) _ λ owned _.
        bind (lock_commercial_event db owned.id) _ λ e _. bind (own_order db id e u) _ λ o own.
          bind (require_resolved_payments db e.id) _ λ _ clear.
            bind (raise_if (not (is_pending o.status)) 409) _ λ _ guard.
              let (found, place, _) = own_order_ok db id e u own in
              begin_payment-Change env req.now db u o found
                (is_pending_ok o.status (raise_if_ok _ 409 guard))
                (subst (λ k. any (outstanding_for k) db.package_orders ≡ false) (sym place)
                  (resolved db e.id clear))

-- The host's cancellation closes an order that awaits its payment.
pub cancel_host_order-Change :
    {Admin : Type 0} (env : Env) (req : Request) (db : Db) (event_id : Option ℕ)
    (id activity_id : ℕ)
    → Returns (Change Admin db) (cancel_host_order env req db event_id id activity_id)
unfolding cancel_host_order
cancel_host_order-Change env req db event_id id activity_id =
    bind (require_same_origin env.settings req) _ λ _ _.
      logged_in_rule env req db _ (Change.nothing refl refl) λ u.
        bind (event_for_owner db u event_id) _ λ owned _.
          bind (lock_commercial_event db owned.id) _ λ e _. bind (own_order db id e u) _ λ o own.
            bind (raise_if (not (is_awaiting o.status)) 409) _ λ _ guard. returned (
              Change.close o (with_status req.now OrderStatus.cancelled o)
                (rewritten db _ o _ (own_order_ok db id e u own).0 refl refl refl)
                (same_terms o _ refl refl refl refl)
                (closable o.status (is_awaiting_ok o.status (raise_if_ok _ 409 guard)))
                (inl (is_awaiting_ok o.status (raise_if_ok _ 409 guard))) refl)
