-- ===== src/Tests/Entry.antt =====
-- Instances of the theorems on passwords, registration and sessions.
use mathlib.Core.Logic.{◌↔◌}
use markmonica.Base.{
  ℕ, Bool, true, false, Option, none, some, List, [], ◌∷◌, ◌++◌, ◌≡◌, refl, ◌≤◌, ◌<◌, arith,
}
use markmonica.Base.Tables.{count, any}
use markmonica.Base.Texts.{Text, text, truthy}
use markmonica.Model.{Db}
use markmonica.Http.{Result, ok, Request, redirect, Location}
use markmonica.Accounts.{require_same_origin}
use markmonica.Accounts.Users.{has_hash}
use markmonica.Accounts.Hashing.{hash_password, verify_password, pbkdf2_iterations}
use markmonica.Accounts.Hashing.Verified.{IsBytes, verify-hash_password}
use markmonica.Accounts.Entry.{Drawn, Entered, has_email, session_has_id, register, login, logout}
use markmonica.Accounts.Entry.Sessions.{UniqueUsers, LoggedIn, login_identifies}
use markmonica.Accounts.Entry.Logout.{LoggedOut, logout_closes}
use markmonica.Accounts.Entry.Registered.{register_keeps_unique, register_then_login}
use markmonica.Tests.Data.{settings, db_with, host, request_of}

-- A stand-in for PBKDF2: the first byte of the password.
abbrev pbkdf2 : Text → List ℕ → ℕ → Option (List ℕ)
pbkdf2 [] salt n = some []
pbkdf2 (c ∷ t) salt n = some (c ∷ [])

abbrev drawn : Drawn
drawn = record { user_id = 9; session_id = 9; salt = 7 ∷ []; token = text "n" }

abbrev encoded : Text
encoded = text "pbkdf2_sha256$600000$07$70"

hashes : hash_password pbkdf2 (7 ∷ []) (text "password") ≡ some encoded
unfolding hash_password markmonica.Base.Numerals.show_ℕ markmonica.Accounts.Hashing.hex
hashes = refl

seven : IsBytes (7 ∷ [])
seven = (omega arith, tt)

abbrev one_byte : List ℕ
one_byte = 112 ∷ []

byte : IsBytes one_byte
byte = (omega arith, tt)

verify-hash_password_example :
    (verify_password pbkdf2 (text "password") encoded ≡ true) ↔ (one_byte ≡ one_byte)
verify-hash_password_example =
    verify-hash_password pbkdf2 (7 ∷ []) seven (text "password") (text "password") encoded one_byte
      one_byte hashes refl refl byte byte

abbrev web : Request
web = request_of (text "h")

abbrev registered : Result Entered
registered =
    register pbkdf2 settings web drawn (db_with [] []) (text "New") (text "N@x.za")
      (text "password")

-- The database after that registration.
abbrev database : Result Entered → Db
database (ok e) = e.0.1
database _ = db_with [] []

abbrev joined : Db
joined = database registered

registers : registered ≡ ok ((redirect Location.dashboard, joined), some (text "n"))
unfolding register require_same_origin markmonica.Base.Texts.strip any markmonica.Base.Texts.lower
    hash_password markmonica.Accounts.Entry.store_user markmonica.Base.Texts.text_eq
registers = refl

one_email : count (has_email (text "h@x.za")) (db_with [] []).users ≤ 1
unfolding count markmonica.Base.Texts.text_eq
one_email = omega arith

register_keeps_unique_example : count (has_email (text "h@x.za")) joined.users ≤ 1
register_keeps_unique_example =
    register_keeps_unique pbkdf2 settings web drawn (db_with [] []) (text "New") (text "N@x.za")
      (text "password") (text "h@x.za") joined (redirect Location.dashboard) (some (text "n"))
      one_email registers

same_origin : require_same_origin settings web ≡ ok tt
unfolding require_same_origin
same_origin = refl

abbrev drawn_later : Drawn
drawn_later = record { user_id = 0; session_id = 10; salt = []; token = text "m" }

register_then_login_example :
    (db'' : Db) × (login pbkdf2 settings web drawn_later joined (text "N@x.za") (text "password")
      ≡ ok ((redirect Location.dashboard, db''), some (text "m")))
register_then_login_example =
    register_then_login pbkdf2 settings web web drawn drawn_later (db_with [] []) joined
      (text "New") (text "N@x.za") (text "password") (text "n") (redirect Location.dashboard) seven
      registers same_origin

-- The sample host, with a password.
abbrev with_password : Db
with_password = record (db_with [] []) { users = record host { password_hash = encoded } ∷ [] }

abbrev logged_in : Db
logged_in =
    database (login pbkdf2 settings web drawn with_password (text " H@x.za ") (text "password"))

logs_in :
    login pbkdf2 settings web drawn with_password (text " H@x.za ") (text "password")
    ≡ ok ((redirect Location.dashboard, logged_in), some (text "n"))
unfolding login require_same_origin markmonica.Accounts.Entry.admit markmonica.Base.Tables.find
    markmonica.Base.Texts.text_eq markmonica.Base.Texts.lower markmonica.Base.Texts.strip
    verify_password markmonica.Accounts.Hashing.split markmonica.Accounts.Hashing.from_hex
    markmonica.Accounts.Hashing.read_int markmonica.Accounts.Hashing.read_digits
    markmonica.Accounts.Hashing.hex
logs_in = refl

one_user : UniqueUsers with_password.users
unfolding count
one_user id = ground arith

new_token : any (has_hash (some (text "n"))) with_password.user_sessions ≡ false
unfolding any markmonica.Base.Texts.text_eq
new_token = refl

login_identifies_example :
    LoggedIn pbkdf2 settings 100 with_password logged_in
      (text " H@x.za ")
      (text "password")
      (text "n")
login_identifies_example =
    login_identifies pbkdf2 settings web drawn with_password logged_in (text " H@x.za ")
      (text "password") (text "n") (redirect Location.dashboard) one_user new_token refl logs_in

abbrev alone : Db
alone = record (db_with [] []) {
  user_sessions =
      record { id = 1; user_id = 1; token_hash = text "h"; expires_at = 1000; created_at = 0 } ∷ [];
}

abbrev gone : Db
gone = record alone { user_sessions = [] }

logs_out : logout settings web alone ≡ ok (redirect Location.home, gone)
unfolding logout require_same_origin markmonica.Base.Tables.find markmonica.Base.Texts.text_eq
    markmonica.Base.Tables.select
logs_out = refl

one_hash : (h : Text) → count (has_hash (some h)) alone.user_sessions ≤ 1
unfolding count
one_hash h = ground arith

one_session : (id : ℕ) → count (session_has_id id) alone.user_sessions ≤ 1
unfolding count
one_session id = ground arith

logout_closes_example : LoggedOut settings alone gone (text "h")
logout_closes_example =
    logout_closes settings web alone gone (text "h") (redirect Location.home) one_hash one_session
      refl logs_out
