-- ===== src/Payments/Itn.antt =====
-- Instant transaction notifications (app/services/payments.py): the signed parameter string, the
-- signature's test and the server's confirmation. A form is the list of its fields as posted.
pub mod Coverage
use markmonica.Base.{
  ℕ, Bool, true, false, ◌&&◌, Option, none, some, List, [], ◌∷◌, ◌++◌, leb, ◌==◌, if◌then◌else◌,
}
use markmonica.Base.Texts.{Text, text, text_eq, strip, truthy, join, non_empty}
use markmonica.Http.{Result, ok, err, unhandled}

abbrev pub Form : Type 0
Form = List (Text × Text)

-- The platform's functions: percent encoding, MD5 in hexadecimal, and the POST to the gateway,
-- `none` where it raises, else the status and the body.
pub record Gateway : Type 0 where
  pub quote_plus : Text → Text
  pub md5 : Text → Text
  pub post : Text → Text → Option (ℕ × Text)

-- `_encoded`
unfoldable pub encoded : Gateway → Text → Text
encoded g value = g.quote_plus (strip value)

abbrev pub is_signature : Text → Bool
is_signature key = text_eq key (text "signature")

-- The parts of `payfast_itn_param_string`: the loop breaks at the signature.
unfoldable pub itn_parts : Gateway → Form → List Text
itn_parts g [] = []
itn_parts g ((key, value) ∷ form) =
    let rest = itn_parts g form in
    if is_signature key then [] else (key ++ text "=" ++ g.quote_plus value) ∷ rest

unfoldable pub payfast_itn_param_string : Gateway → Form → Text
payfast_itn_param_string g form = join (text "&") (itn_parts g form)

-- `next((value for key, value in form_items if key == "signature"), "")`
unfoldable pub supplied_signature : Form → Text
supplied_signature [] = []
supplied_signature ((key, value) ∷ form) =
    let rest = supplied_signature form in if is_signature key then value else rest

abbrev with_passphrase : Gateway → Text → Option Text → Text
with_passphrase g params passphrase = elim (truthy passphrase) [
  | none ↦ params
  | some p ↦ params ++ text "&passphrase=" ++ encoded g p
]

unfoldable pub digest_matches : Gateway → Option Text → Text → Option Text → Bool
unfolding encoded
digest_matches g passphrase params none = false
digest_matches g passphrase params (some supplied) =
    text_eq supplied (g.md5 (with_passphrase g params passphrase))

unfoldable pub valid_payfast_itn_signature : Gateway → Form → Option Text → Bool
valid_payfast_itn_signature g form passphrase =
    digest_matches g passphrase (payfast_itn_param_string g form)
      (non_empty (supplied_signature form))

unfoldable pub payfast_validation_url : Bool → Text
payfast_validation_url is_sandbox =
    text "https://"
    ++ (if is_sandbox then text "sandbox.payfast.co.za" else text "www.payfast.co.za")
    ++ text "/eng/query/validate"

unfoldable pub is_ascii : Text → Bool
is_ascii [] = true
is_ascii (c ∷ t) = leb c 127 && is_ascii t

abbrev confirmed : Option (ℕ × Text) → Bool
confirmed none = false
confirmed (some (status, body)) = status == 200 && text_eq (strip body) (text "VALID")

-- `payload.encode("ascii")` raises outside the `try`.
unfoldable pub valid_payfast_server_confirmation : Gateway → Form → Bool → Result Bool
unfolding payfast_validation_url
valid_payfast_server_confirmation g form is_sandbox =
    let payload = payfast_itn_param_string g form in
    if is_ascii payload
    then ok (confirmed (g.post (payfast_validation_url is_sandbox) payload))
    else err unhandled

-- `dict(items).get(key)`: the last field of that name.
unfoldable pub form_get : Form → Text → Option Text
form_get [] key = none
form_get ((k, v) ∷ form) key = elim (form_get form key) [
  | some w ↦ some w
  | none ↦ if text_eq k key then some v else none
]
