-- ===== src/Accounts.antt =====
-- Who makes a request: sessions (app/security.py), the checks at the head of each handler
-- (`require_same_origin`, `current_user`, `event_for_owner` in app/main.py, `require_admin` in
-- app/admin.py), and the settings that the handlers read (app/settings.py).
pub mod Users
pub mod Owners
pub mod Hashing
pub mod Entry
pub mod Passwords
use markmonica.Base.{
  ◌≡◌, true, arith, ℕ, ◌+◌, ◌*◌, Bool, not, ◌&&◌, ◌||◌, Option, none, some, ◌++◌, [], ◌∷◌, ltb,
  ◌==◌, if◌then◌else◌,
}
use markmonica.Base.Tables.{find, any, find_passes}
use markmonica.Base.Texts.{Text, text, text_eq, starts_with, truthy, rstrip_slash}
use markmonica.Model.{Db, User, UserSession, Event}
use markmonica.Http.Post.{or_raise_ok}
use markmonica.Http.{http, Result, ok, err, raise_if, or_raise, Request}

pub record Settings : Type 0 where
  -- `APP_ORIGIN`, which `origin_for` computes from `app_url`
  pub app_origin : Option Text
  pub app_url : Text
  pub max_image_upload_mb : ℕ
  pub max_video_upload_mb : ℕ
  pub stale_upload_hours : ℕ
  pub archive_retention_hours : ℕ
  pub archive_stale_job_hours : ℕ
  -- the platform's functions: SHA-256 in hexadecimal, the text of a UUID and its reading, and the
  -- reading of an ISO date (`none` where Python raises `ValueError`)
  pub sha256 : Text → Text
  pub str_uuid : ℕ → Text
  pub parse_uuid : Text → Option ℕ
  pub parse_date : Text → Option ℕ

-- `require_same_origin` of app/main.py
unfoldable pub require_same_origin : Settings → Request → Result (Unit {0})
require_same_origin s req = elim (truthy s.app_origin) [
  | none ↦ ok tt
  | some app ↦ elim (truthy req.origin) [
    | some origin ↦ raise_if (not (text_eq (rstrip_slash origin) (rstrip_slash app))) 403
    | none ↦ elim (truthy req.referer) [
      | none ↦ err (http 403)
      | some referer ↦ raise_if (not (starts_with referer (rstrip_slash app ++ text "/"))) 403
    ]
  ]
]

-- A session that lets its bearer in at the instant `now`.
abbrev pub admits : ℕ → Text → User → UserSession → Bool
admits now token_hash u session =
    session.user_id == u.id && text_eq session.token_hash token_hash && ltb now session.expires_at

unfoldable pub user_from_session_token : Settings → ℕ → Db → Option Text → Option User
user_from_session_token s now db token = elim (truthy token) [
  | none ↦ none
  | some t ↦ find (λ u. any (admits now (s.sha256 t) u) db.user_sessions && u.is_active) db.users
]

unfoldable pub current_user : Settings → Request → Db → Option User
unfolding user_from_session_token
current_user s req db = user_from_session_token s req.now db req.session_token

abbrev pub session_ttl_days : ℕ
session_ttl_days = 30

-- `new_session`, with the fresh row id and the random token as arguments.
unfoldable pub new_session : Settings → ℕ → ℕ → Text → Db → User → UserSession × Db
new_session s now id token db u =
    let session : UserSession = record {
      id = id;
      user_id = u.id;
      token_hash = s.sha256 token;
      expires_at = now + session_ttl_days * 86400;
      created_at = now;
    } in
    (session, record db { user_sessions = db.user_sessions ++ session ∷ [] })

abbrev admin_only : User → Option User
admin_only u = if u.is_admin then some u else none

-- `admin_user` and `require_admin` of app/admin.py
unfoldable pub require_admin : Settings → Request → Db → Result User
unfolding current_user
require_admin s req db = elim (current_user s req db) [
  | none ↦ err (http 403)
  | some u ↦ or_raise (admin_only u) 403
]

abbrev pub visible_to : User → ℕ → Event → Bool
visible_to u id e = e.id == id && (u.is_admin || e.owner_id == u.id)

-- `event_for_owner`: `id` is what `uuid.UUID` makes of the path, `none` where it raises.
unfoldable pub event_for_owner : Db → User → Option ℕ → Result Event
event_for_owner db u none = err (http 404)
event_for_owner db u (some id) = or_raise (find (visible_to u id) db.events) 404

pub event_for_owner_ok :
    (db : Db) (u : User) (e : Event) (id : ℕ)
    → event_for_owner db u (some id) ≡ ok e
    → (e.id ≡ id) × ((u.is_admin || e.owner_id == u.id) ≡ true)
unfolding event_for_owner
event_for_owner_ok db u e id h =
    let found = or_raise_ok (find (visible_to u id) db.events) 404 h in
    ground (arith, find_passes (visible_to u id) db.events found)

-- `if user is None: raise HTTPException(401)`
unfoldable pub require_user : Settings → Request → Db → Result User
require_user s req db = or_raise (current_user s req db) 401
