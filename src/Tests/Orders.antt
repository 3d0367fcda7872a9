-- ===== src/Tests/Orders.antt =====
-- Instances of the theorems on orders and payments.
use markmonica.Base.{ℕ, Option, none, some, List, [], ◌∷◌, ◌≡◌, refl, ◌⊎◌, arith, true, false}
use markmonica.Model.{Db, OrderStatus}
use markmonica.Http.{ok, success, after}
use markmonica.Base.Texts.{Text, text}
use markmonica.Orders.Notify.{
  payfast_notify, authenticate, named_order, check_amount, settle, complete_by, activate,
}
use markmonica.Orders.Notify.Verified.{PaidUpgrade, payfast_notify_verified}
use markmonica.Base.{◌++◌, ◌≤◌, ◌<◌, ◌*◌, ◌+◌, ◌^◌, ltb, ◌&&◌}
use markmonica.Base.Tables.{count, find}
use markmonica.Http.{Request}
use markmonica.Model.{PackageOrder}
use markmonica.Orders.{order_has_id, get_order}
use markmonica.Orders.Effects.{Change, ByAdmin}
use markmonica.Orders.History.{Call, step, run, step-Change}
use markmonica.Orders.History.Invariants.{IsValid, awaiting_for, run-IsValid}
use markmonica.Orders.History.Lifecycle.{Became, run-Became, approved_final}
use markmonica.Orders.Notify.Upgrade.{OrderBecame}
use markmonica.Orders.History.Holds.{Held, late_payment_holds}
use markmonica.Payments.Itn.{
  form_get, valid_payfast_itn_signature, valid_payfast_server_confirmation,
}
use markmonica.Payments.Itn.Coverage.{after_signature_unchecked}
use markmonica.Payments.Amount.Rounding.{received_cents_nearest}
use markmonica.Tests.Data.{env, decimal, itn, db_with, order_with, request_of, party, gateway}

abbrev paying : Db
paying = db_with (order_with OrderStatus.awaiting_payment ∷ []) []

abbrev paid : Db
paid = after paying (payfast_notify env decimal 100 9 paying (itn (text "COMPLETE")))

payfast_notify_verified_example :
    (paid.events ≡ paying.events) ⊎ PaidUpgrade env decimal 100 paying paid (itn (text "COMPLETE"))
unfolding payfast_notify markmonica.Payments.Checkout.payfast_runtime_config
    markmonica.Base.Tables.find markmonica.Base.Texts.text_eq authenticate
    markmonica.Vault.decrypt_secret markmonica.Payments.Itn.valid_payfast_itn_signature
    markmonica.Payments.Itn.digest_matches markmonica.Payments.Itn.supplied_signature
    markmonica.Payments.Itn.payfast_itn_param_string markmonica.Base.Texts.join
    markmonica.Payments.Itn.itn_parts markmonica.Payments.Itn.form_get
    markmonica.Payments.Itn.valid_payfast_server_confirmation markmonica.Payments.Itn.is_ascii
    markmonica.Base.Texts.strip named_order markmonica.Orders.get_order markmonica.Base.Tables.put
    markmonica.Base.Texts.lstrip markmonica.Base.Texts.starts_with markmonica.Base.Texts.upper
    markmonica.Base.Texts.upper_char activate check_amount complete_by
    markmonica.Orders.Notify.not_complete settle markmonica.Orders.flag_late_completed_payment
    markmonica.Orders.lock_commercial_event markmonica.Orders.mark_paid
    markmonica.Orders.status_text markmonica.Packages.package_config
    markmonica.Payments.Amount.cents markmonica.Payments.Amount.received_cents
    markmonica.Payments.Itn.encoded markmonica.Payments.Itn.payfast_validation_url
payfast_notify_verified_example =
    payfast_notify_verified env decimal 100 9 paying paid (itn (text "COMPLETE")) success refl

-- The host cancels, then a payment arrives late, then an administrator approves.
abbrev story : List (Request × Call)
story =
    (request_of (text "h"), Call.cancels_order (some 7) 5 1)
    ∷ (request_of (text ""), Call.notifies (itn (text "COMPLETE")) 2)
    ∷ (request_of (text "a"), Call.admin_activates 5 (text "paid late") 3)
    ∷ []

one_order : (o : PackageOrder) (id : ℕ) → count (order_has_id id) (o ∷ []) ≤ 1
unfolding count
one_order o id = ground arith

one_payment : (o : PackageOrder) (id : ℕ) → count (awaiting_for id) (o ∷ []) ≤ 1
unfolding count
one_payment o id = ground arith

one_order-IsValid : (o : PackageOrder) → IsValid (db_with (o ∷ []) [])
one_order-IsValid o = record { unique = one_order o; one_payment = one_payment o }

step-Change_example :
    Change
      (ByAdmin env (request_of (text "h")) paying)
      paying
      (step env decimal paying (request_of (text "h"), Call.cancels_order (some 7) 5 1))
step-Change_example =
    step-Change env decimal paying (request_of (text "h"), Call.cancels_order (some 7) 5 1)
      (one_order (order_with OrderStatus.awaiting_payment))

run-IsValid_example : IsValid (run env decimal paying story)
run-IsValid_example =
    run-IsValid env decimal paying story
      (one_order-IsValid (order_with OrderStatus.awaiting_payment))

stored :
    (status : OrderStatus)
    → get_order (db_with (order_with status ∷ []) []) 5 ≡ some (order_with status)
unfolding get_order find
stored status = refl

run-Became_example :
    Became (order_with OrderStatus.awaiting_payment) 5 (run env decimal paying story)
run-Became_example =
    run-Became env decimal paying story 5
      (one_order-IsValid (order_with OrderStatus.awaiting_payment))
      (stored OrderStatus.awaiting_payment)

abbrev granted : Db
granted = db_with (order_with OrderStatus.approved ∷ []) []

approved_final_example :
    (o' : PackageOrder) × (get_order (run env decimal granted story) 5 ≡ some o')
    × (o'.event_id ≡ 7)
    × (o'.status ≡ OrderStatus.approved)
approved_final_example =
    approved_final env decimal granted story 5 (one_order-IsValid (order_with OrderStatus.approved))
      (stored OrderStatus.approved) refl

abbrev cancelled : Db
cancelled = db_with (order_with OrderStatus.cancelled ∷ []) []

-- The payment of a cancelled order comes in, and the host asks for another package.
late_payment_holds_example :
    (db' : Db) × (settle 100 9 cancelled
        (order_with OrderStatus.cancelled)
        party
        (itn (text "COMPLETE"))
      ≡ ok db')
    × (db'.events ≡ cancelled.events)
    × OrderBecame db' 5 OrderStatus.payment_review
    × Held
        (ByAdmin env (request_of (text "h")) db')
        db'
        (step env decimal db'
          (request_of (text "h"), Call.requests_package (some 7) (text "starter") 6))
        party
unfolding form_get markmonica.Base.Texts.text_eq markmonica.Base.Tables.find
late_payment_holds_example =
    late_payment_holds env decimal 100 9 cancelled (order_with OrderStatus.cancelled) party
      (itn (text "COMPLETE"))
      (request_of (text "h"), Call.requests_package (some 7) (text "starter") 6)
      (one_order-IsValid (order_with OrderStatus.cancelled)) (stored OrderStatus.cancelled) refl
      refl refl refl

after_signature_unchecked_example :
    let form = itn (text "COMPLETE") in
    let forged = form ++ (text "m_payment_id", text "6") ∷ [] in
    (valid_payfast_itn_signature gateway forged none
      ≡ valid_payfast_itn_signature gateway form none)
    × (valid_payfast_server_confirmation gateway forged true
        ≡ valid_payfast_server_confirmation gateway form true)
    × (form_get forged (text "m_payment_id") ≡ some (text "6"))
unfolding markmonica.Base.Tables.any markmonica.Base.Texts.text_eq
after_signature_unchecked_example =
    after_signature_unchecked gateway (itn (text "COMPLETE")) none true (text "m_payment_id")
      (text "6") refl

-- 98.999 is accepted as 99.00.
received_cents_nearest_example :
    (2 * (9900 * 10 ^ 1) ≤ 2 * 98999 + 10 ^ 1)
    × (2 * 98999 < 2 * (9900 * 10 ^ 1) + 10 ^ 1)
    × ((false && ltb 0 9900) ≡ false)
unfolding markmonica.Payments.Amount.received_cents markmonica.Payments.Amount.cents
received_cents_nearest_example = received_cents_nearest false 98999 0 9900 refl
