-- ===== src/Payments/Sessions/Begun.antt =====
-- What the start of a checkout leaves.
use markmonica.Base.{ℕ, true, ◌≡◌, sym, ap, ◌∙◌, Bool-cases, inl, inr}
use markmonica.Base.Texts.{Text}
use markmonica.Model.{PackageOrder}
use markmonica.Http.{Failure, Result, ok, err}
use markmonica.Http.Post.{bind_ok, ok_inj}
use markmonica.Payments.Sessions.{
  PayfastSettings, CheckoutSession, PaymentProvider, provider_for, create_checkout, can_begin,
  begun_order, begin_checkout,
}

err_ok : {A : Type 0} {e : Failure} {a : A} → ◌≡◌ {A = Result A} (err e) (ok a) → ⊥
err_ok h = cc

reference_of :
    (s : PayfastSettings) (p : PaymentProvider) (reference : Text) (session : CheckoutSession)
    → create_checkout s p reference ≡ ok session
    → session.reference ≡ reference
unfolding create_checkout
reference_of s PaymentProvider.manual reference session h = sym (ap (λ x. x.reference) (ok_inj h))
reference_of s PaymentProvider.payfast reference session h =
    let (_, _, h₁) = bind_ok (markmonica.Payments.Sessions.credentials s) _ h in
    sym (ap (λ x. x.reference) (ok_inj h₁))

-- A checkout is only begun for an order that is pending or failed; the order then awaits its
-- payment under the session's provider and its own id, and keeps its price.
begin_checkout_lem :
    (s : PayfastSettings) (str_uuid : ℕ → Text) (now : ℕ) (o o' : PackageOrder) (code : Text)
    (session : CheckoutSession)
    → begin_checkout s str_uuid now o code ≡ ok (session, o')
    → (can_begin o.status ≡ true)
      × (o' ≡ begun_order session now o)
      × (session.reference ≡ str_uuid o.id)
unfolding begin_checkout
begin_checkout_lem s str_uuid now o o' code session h = elim (Bool-cases (can_begin o.status)) [
  | inr closed ↦ absurd (err_ok (rw closed at h))
  | inl can ↦
      let (p, _, h₁) = bind_ok (provider_for code) _ (rw can at h) in
      let (made, created, h₂) = bind_ok (create_checkout s p (str_uuid o.id)) _ h₁ in
      let pair : ◌≡◌ {A = CheckoutSession × PackageOrder} (made, begun_order made now o)
          (session, o') =
        ok_inj h₂ in
      let same : made ≡ session = ap (λ x. x.0) pair in
      (
        can,
        sym (ap (λ x. x.1) pair) ∙ ap (λ x. begun_order x now o) same,
        sym (ap (λ x. x.reference) same) ∙ reference_of s p (str_uuid o.id) made created,
      )
]
