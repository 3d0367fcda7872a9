-- ===== src/Payments/Itn/Coverage.antt =====
-- What the signature of a notification covers.
use markmonica.Base.{Bool, true, ◌≡◌, refl, Option, some, [], ◌∷◌, ◌++◌, Bool-cases, inl, inr, ap}
use markmonica.Base.Tables.{any}
use markmonica.Base.Texts.{Text, text, text_eq_refl, join}
use markmonica.Payments.Itn.{
  Form, Gateway, is_signature, itn_parts, payfast_itn_param_string, supplied_signature,
  valid_payfast_itn_signature, valid_payfast_server_confirmation, form_get,
}

abbrev pub signs : Text × Text → Bool
signs (key, value) = is_signature key

module _ (g : Gateway) where
  itn_parts-append :
      (form extra : Form) → any signs form ≡ true → itn_parts g (form ++ extra) ≡ itn_parts g form
  unfolding itn_parts any
  itn_parts-append [] extra h = cc
  itn_parts-append ((key, value) ∷ form) extra h = elim (Bool-cases (is_signature key)) [
    | inl here ↦ rw here refl
    | inr later ↦ rw later (
        ap (λ ps. (key ++ text "=" ++ g.quote_plus value) ∷ ps)
          (itn_parts-append form extra (rw later at h)))
  ]

param_string-append :
    (g : Gateway) (form extra : Form)
    → any signs form ≡ true
    → payfast_itn_param_string g (form ++ extra) ≡ payfast_itn_param_string g form
unfolding payfast_itn_param_string
param_string-append g form extra h = ap (join (text "&")) (itn_parts-append g form extra h)

supplied_signature-append :
    (form extra : Form)
    → any signs form ≡ true
    → supplied_signature (form ++ extra) ≡ supplied_signature form
unfolding supplied_signature any
supplied_signature-append [] extra h = cc
supplied_signature-append ((key, value) ∷ form) extra h = elim (Bool-cases (is_signature key)) [
  | inl here ↦ rw here refl
  | inr later ↦ rw later (supplied_signature-append form extra (rw later at h))
]

form_get-append :
    (form : Form) (key value : Text) → form_get (form ++ (key, value) ∷ []) key ≡ some value
unfolding form_get
form_get-append [] key value = rw (text_eq_refl key) refl
form_get-append ((k, v) ∷ form) key value = rw (form_get-append form key value) refl

-- A field that is posted after the signature is covered by neither test of the notification: the
-- signature is as valid with it as without it, and the gateway is asked to confirm the same
-- string; and yet that field is the value that the form's dictionary has under its name, in
-- place of any signed one.
pub after_signature_unchecked :
    (g : Gateway) (form : Form) (passphrase : Option Text) (is_sandbox : Bool) (key value : Text)
    → any signs form ≡ true
    → let forged = form ++ (key, value) ∷ [] in
      (valid_payfast_itn_signature g forged passphrase
        ≡ valid_payfast_itn_signature g form passphrase)
      × (valid_payfast_server_confirmation g forged is_sandbox
          ≡ valid_payfast_server_confirmation g form is_sandbox)
      × (form_get forged key ≡ some value)
unfolding valid_payfast_itn_signature valid_payfast_server_confirmation
after_signature_unchecked g form passphrase is_sandbox key value h =
    let extra : Form = (key, value) ∷ [] in
    (
      rw
          (
            valid_payfast_itn_signature,
            supplied_signature-append form extra h,
            param_string-append g form extra h,
          )
          refl,
      rw (valid_payfast_server_confirmation, param_string-append g form extra h) refl,
      form_get-append form key value,
    )
