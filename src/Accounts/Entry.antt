-- ===== src/Accounts/Entry.antt =====
-- `register`, `login` and `logout` (app/main.py). What a call draws at random (the ids of new rows,
-- the salt, the token) is an argument; a token that is set as the cookie is part of the answer.
pub mod Sessions
pub mod Logout
pub mod Registered
use markmonica.Base.{
  ℕ, Bool, true, false, not, ◌&&◌, ◌||◌, Option, none, some, List, [], ◌∷◌, ◌++◌, ltb, ◌==◌,
  if◌then◌else◌,
}
use markmonica.Base.Tables.{find, any, select, length}
use markmonica.Base.Texts.{Text, text, text_eq, truthy, strip, lower, is_empty}
use markmonica.Model.{Db, User, UserSession}
use markmonica.Http.{
  Result, ok, err, unhandled, ◌>>=◌, ◌>>◌, Request, Response, redirect, refusal, Location,
}
use markmonica.Accounts.{Settings, require_same_origin, new_session}
use markmonica.Accounts.Users.{has_hash}
use markmonica.Accounts.Hashing.{hash_password, verify_password}

-- What a call draws.
pub record Drawn : Type 0 where
  pub user_id : ℕ
  pub session_id : ℕ
  pub salt : List ℕ
  pub token : Text

-- The answer, the database, and the token that the cookie is set to, if it is.
abbrev pub Entered : Type 0
Entered = (Response × Db) × Option Text

abbrev pub clean_email : Text → Text
clean_email email = lower (strip email)

abbrev pub has_email : Text → User → Bool
has_email email u = text_eq u.email email

abbrev has_at : Text → Bool
has_at t = any (λ c. c == 64) t

-- `len(password)<8 or not display_name or "@" not in email`
abbrev pub is_refused : Text → Text → Text → Bool
is_refused display_name email password =
    ltb (length password) 8 || is_empty display_name || not (has_at email)

abbrev pub new_user : Drawn → ℕ → Text → Text → Text → User
new_user drawn now email display_name password_hash = record {
  id = drawn.user_id;
  email = email;
  display_name = display_name;
  password_hash = password_hash;
  is_active = true;
  is_admin = false;
  plan_code = text "free";
  created_at = now;
}

abbrev pub add_user : User → Db → Db
add_user u db = record db { users = db.users ++ u ∷ [] }

-- `new_session`, whose rows the cookie's token opens.
abbrev pub enter : Settings → ℕ → Drawn → Db → User → Entered
enter s now drawn db u = (
  (redirect Location.dashboard, (new_session s now drawn.session_id drawn.token db u).1),
  some drawn.token,
)

abbrev pub hashed : Option Text → Result Text
hashed none = err unhandled
hashed (some h) = ok h

abbrev pub can_log_in : Text → User → Bool
can_log_in email u = has_email email u && u.is_active

abbrev pub session_has_id : ℕ → UserSession → Bool
session_has_id id session = session.id == id

abbrev pub end_session : Db → Option UserSession → Db
end_session db none = db
end_session db (some session) = record db {
  user_sessions = select (λ x. not (session_has_id session.id x)) db.user_sessions;
}

module _ (pbkdf2 : Text → List ℕ → ℕ → Option (List ℕ)) (s : Settings) where
  -- The insert and its commit: the unique email refuses a duplicate.
  unfoldable pub store_user : Request → Drawn → Db → User → Entered
  store_user req drawn db u =
      if any (has_email u.email) db.users
      then ((refusal 409, db), none)
      else enter s req.now drawn (add_user u db) u

  unfoldable pub register : Request → Drawn → Db → Text → Text → Text → Result Entered
  register req drawn db display_name email password = do
    require_same_origin s req
    let name = strip display_name
    let address = clean_email email
    if is_refused name address password then ok ((refusal 400, db), none) else (do
      h ← hashed (hash_password pbkdf2 drawn.salt password)
      ok (store_user req drawn db (new_user drawn req.now address name h)))

  -- The tail of `login`, on the user that it found.
  unfoldable pub admit : Request → Drawn → Db → Text → Option User → Entered
  admit req drawn db password none = ((refusal 401, db), none)
  admit req drawn db password (some u) =
      if verify_password pbkdf2 password u.password_hash
      then enter s req.now drawn db u
      else ((refusal 401, db), none)

  unfoldable pub login : Request → Drawn → Db → Text → Text → Result Entered
  login req drawn db email password = do
    require_same_origin s req
    ok (admit req drawn db password (find (can_log_in (clean_email email)) db.users))

-- The session of the token is deleted, if there is one; the cookie is taken back in any case.
unfoldable pub logout : Settings → Request → Db → Result (Response × Db)
logout s req db = do
  require_same_origin s req
  ok (elim (truthy req.session_token) [
    | none ↦ (redirect Location.home, db)
    | some token ↦ (
      redirect Location.home,
      end_session db (find (has_hash (some (s.sha256 token))) db.user_sessions),
    )
  ])
