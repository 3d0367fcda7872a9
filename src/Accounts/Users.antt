-- ===== src/Accounts/Users.antt =====
-- The administrator's handlers on accounts (`user_status` and `user_password`, app/admin.py). The
-- hash of a password is a parameter.
use markmonica.Base.{ℕ, Bool, false, not, ◌&&◌, ◌||◌, Option, none, some, leb, ◌==◌, if◌then◌else◌}
use markmonica.Base.Tables.{find, put, select, length}
use markmonica.Base.Texts.{Text, text, text_eq, truthy}
use markmonica.Model.{Db, User, UserSession}
use markmonica.Http.{
  Result, ok, ◌>>=◌, ◌>>◌, raise_if, or_raise, Request, Response, redirect, Location,
}
use markmonica.Accounts.{Settings, require_same_origin, require_admin}

abbrev pub user_has_id : ℕ → User → Bool
user_has_id id u = u.id == id

-- `db.get(User, id)`
unfoldable pub get_user : Db → ℕ → Option User
get_user db id = find (user_has_id id) db.users

abbrev pub save_user : User → Db → Db
save_user u db = record db { users = put (user_has_id u.id) u db.users }

unfoldable pub user_status : Settings → Request → Db → ℕ → Text → Result (Response × Db)
user_status s req db user_id is_active = do
  admin ← require_admin s req db
  target ← or_raise (get_user db user_id) 404
  let active = text_eq is_active (text "true")
  raise_if (target.id == admin.id && not active) 400
  ok (redirect (Location.admin_user target.id), save_user (record target { is_active = active }) db)

-- The session that survives: the one of the request, if it changes its own user's password.
abbrev pub current_token_hash : Settings → Request → User → User → Option Text
current_token_hash s req admin target =
    if target.id == admin.id
    then elim (truthy req.session_token) [ none ↦ none | some t ↦ some (s.sha256 t) ]
    else none

abbrev pub has_hash : Option Text → UserSession → Bool
has_hash none session = false
has_hash (some h) session = text_eq session.token_hash h

-- `db.delete(session)` for each session of the target but that one.
abbrev pub stays_signed_in : ℕ → Option Text → UserSession → Bool
stays_signed_in user_id h session = not (session.user_id == user_id) || has_hash h session

abbrev pub password_fits : Text → Bool
password_fits t = leb 8 (length t) && leb (length t) 256

abbrev with_password : (Text → Text) → Settings → Request → Db → User → User → Text → Db
with_password hash_password s req db admin target password =
    let db' = save_user (record target { password_hash = hash_password password }) db in
    record db' {
      user_sessions =
          select (stays_signed_in target.id (current_token_hash s req admin target))
            db.user_sessions;
    }

unfoldable pub user_password :
    (Text → Text) → Settings → Request → Db → ℕ → Text → Text → Result (Response × Db)
user_password hash_password s req db user_id new_password confirm_password = do
  admin ← require_admin s req db
  require_same_origin s req
  target ← or_raise (get_user db user_id) 404
  let back = redirect (Location.admin_user target.id)
  if not (text_eq new_password confirm_password)
      then ok (back, db)
      else if not (password_fits new_password)
      then ok (back, db)
      else ok (back, with_password hash_password s req db admin target new_password)
