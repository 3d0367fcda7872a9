-- ===== src/Tests/Accounts.antt =====
-- Instances of the theorems on accounts, events, packages and secrets.
use markmonica.Base.{ℕ, Bool, true, false, Option, none, some, List, [], ◌∷◌, ◌≡◌, refl, ◌≤◌, arith}
use markmonica.Base.Tables.{count}
use markmonica.Base.Texts.{Text, text, starts_with}
use markmonica.Model.{Db, User, OrderStatus}
use markmonica.Http.{ok, after, redirect, Location}
use markmonica.Accounts.{require_admin, require_same_origin}
use markmonica.Accounts.Users.{get_user, user_password, user_status}
use markmonica.Accounts.Passwords.{SignedOut, user_password_signs_out, user_status_keeps_admin}
use markmonica.Orders.{event_has_id}
use markmonica.Events.{EventForm, update_event}
use markmonica.Events.Publishing.{Edited, update_event_publishes}
use markmonica.Packages.{PackageDefinition, built_in, fallback_code}
use markmonica.Packages.Lookup.{fallback_code_known}
use markmonica.Vault.{Fernet, encrypt_secret, decrypt_secret, secret_is_encrypted, decrypt-encrypt}
use markmonica.Tests.Data.{env, settings, db_with, order_with, root, request_of}

abbrev quiet : Db
quiet = db_with (order_with OrderStatus.approved ∷ []) []

root_signed_in : require_admin settings (request_of (text "a")) quiet ≡ ok root
unfolding require_admin markmonica.Base.Tables.find markmonica.Base.Tables.any
    markmonica.Base.Texts.text_eq
root_signed_in = refl

root_stored : get_user quiet 2 ≡ some root
unfolding get_user markmonica.Base.Tables.find
root_stored = refl

no_origin : require_same_origin settings (request_of (text "a")) ≡ ok tt
unfolding require_same_origin
no_origin = refl

-- An administrator changes their own password.
user_password_signs_out_example :
    SignedOut settings (request_of (text "a")) quiet root root (text "12345678") (
      user_password
        (λ t. t)
        settings
        (request_of (text "a"))
        quiet
        2
        (text "12345678")
        (text "12345678"))
user_password_signs_out_example =
    user_password_signs_out (λ t. t) settings (request_of (text "a")) quiet root root
      (text "12345678") root_signed_in no_origin root_stored refl

abbrev disabled : Db
disabled = after quiet (user_status settings (request_of (text "a")) quiet 1 (text "false"))

disables :
    user_status settings (request_of (text "a")) quiet 1 (text "false")
    ≡ ok (redirect (Location.admin_user 1), disabled)
unfolding user_status require_admin markmonica.Base.Tables.find markmonica.Base.Tables.any
    markmonica.Base.Texts.text_eq get_user
disables = refl

user_status_keeps_admin_example : (u : User) × (get_user disabled 2 ≡ some u) × (u.is_active ≡ true)
user_status_keeps_admin_example =
    user_status_keeps_admin settings (request_of (text "a")) quiet disabled 1 (text "false")
      (redirect (Location.admin_user 1)) root root_signed_in root_stored refl disables

abbrev form : EventForm
form = record {
  title = text "Party";
  event_date = [];
  status = text "live";
  welcome_message = [];
  thank_you_message = [];
  theme = text "classic";
  accent_color = [];
  guest_font = text "default";
  guest_gallery_enabled = none;
}

abbrev published : Db
published = after quiet (update_event env (request_of (text "h")) quiet (some 7) form)

publishes :
    update_event env (request_of (text "h")) quiet (some 7) form
    ≡ ok (redirect (Location.event 7), published)
unfolding update_event require_same_origin markmonica.Accounts.current_user
    markmonica.Base.Tables.find markmonica.Base.Tables.any markmonica.Base.Texts.text_eq
    markmonica.Accounts.event_for_owner
publishes = refl

one_event : (k : ℕ) → count (event_has_id k) quiet.events ≤ 1
unfolding count
one_event k = ground arith

update_event_publishes_example : Edited quiet published 7 form
update_event_publishes_example =
    update_event_publishes env (request_of (text "h")) quiet published (some 7) form 7 one_event
      publishes

fallback_code_known_example :
    (p : PackageDefinition) × (built_in (fallback_code (text "gold")) ≡ some p)
fallback_code_known_example = fallback_code_known (text "gold")

abbrev reversible : Fernet
reversible = record { encrypt = λ t. 1 ∷ t; decrypt = tail }
  where
    tail : Text → Option Text
    tail [] = none
    tail (c ∷ t) = some t

decrypt-encrypt_example :
    (stored : Text) × (encrypt_secret (some reversible) (some (text "key")) ≡ ok (some stored))
    × (secret_is_encrypted (some stored) ≡ true)
    × (decrypt_secret (some reversible) (some stored) ≡ ok (some (text "key")))
unfolding starts_with
decrypt-encrypt_example = decrypt-encrypt reversible 107 (text "ey") (λ t. refl) refl
