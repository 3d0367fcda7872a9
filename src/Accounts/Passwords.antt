-- ===== src/Accounts/Passwords.antt =====
-- What the administrator's handlers guarantee.
use mathlib.Core.Path.{subst}
use markmonica.Base.{
  ℕ, Bool, true, false, not, ◌&&◌, ◌==◌, ◌≡◌, refl, sym, ◌∙◌, Option, some, arith, ==_refl,
  Bool-cases, Option-cases, some_inj, ◌||◌, none, inl, inr,
}
use markmonica.Base.Tables.{find, put, find_key, find-put, find-put_other, count, count-select_all}
use markmonica.Base.Texts.{Text, text, text_eq, text_eq_refl, text_eq_iff, truthy}
use markmonica.Base.Membership.{In}
use markmonica.Base.Updates.{In-select, select-In}
use markmonica.Model.{Db, User, UserSession}
use markmonica.Http.{Result, ok, or_raise, raise_if, Request, Response, redirect, Location}
use markmonica.Http.Post.{ok_inj, bind_ok, or_raise_ok, raise_if_ok, returned_db}
use markmonica.Accounts.{Settings, require_same_origin, require_admin}
use markmonica.Accounts.Users.{
  user_has_id, get_user, save_user, user_status, current_token_hash, has_hash, stays_signed_in,
  password_fits, user_password,
}

-- The sessions of a user.
abbrev pub of_user : ℕ → UserSession → Bool
of_user id session = session.user_id == id

-- The session is the one whose token the request carries.
abbrev pub OpenedBy : Settings → Request → UserSession → Type 0
OpenedBy s req session =
    (token : Text) × (truthy req.session_token ≡ some token) × (session.token_hash ≡ s.sha256 token)

-- What a changed password leaves behind.
pub record SignedOut (s : Settings) (req : Request) (db : Db) (admin target : User) (hash : Text)
    (result : Result (Response × Db)) : Type 0 where
  pub db' : Db
  pub committed : result ≡ ok (redirect (Location.admin_user target.id), db')
  pub changed : get_user db' target.id ≡ some (record target { password_hash = hash })
  -- a session of the user that is left was there, and is the requesting administrator's own
  pub signed_out :
      (x : UserSession)
      → In x db'.user_sessions
      → x.user_id ≡ target.id
      → In x db.user_sessions × (target.id ≡ admin.id) × OpenedBy s req x
  -- and the session that makes the request stays
  pub stays :
      (x : UserSession)
      → In x db.user_sessions
      → target.id ≡ admin.id
      → OpenedBy s req x
      → In x db'.user_sessions
  pub others :
      (id : ℕ)
      → (target.id == id) ≡ false
      → count (of_user id) db'.user_sessions ≡ count (of_user id) db.user_sessions

has_hash_ok :
    (h : Option Text) (x : UserSession)
    → has_hash h x ≡ true
    → (t : Text) × (h ≡ some t) × (x.token_hash ≡ t)
has_hash_ok none x e = cc
has_hash_ok (some t) x e = (t, refl, (text_eq_iff x.token_hash t).0 e)

module _ (s : Settings) (req : Request) (admin target : User) (x : UserSession) where
  current_hash_ok :
      has_hash (current_token_hash s req admin target) x ≡ true
      → (target.id ≡ admin.id) × OpenedBy s req x
  current_hash_ok h = elim (Bool-cases (target.id == admin.id)) [
    | inl own ↦
        let same : target.id ≡ admin.id = ground arith in
        elim (Option-cases (truthy req.session_token)) [
          | inl anonymous ↦ absurd (no_hash (rw (own, anonymous) at h))
          | inr (token, given) ↦
              let hashed = has_hash_ok (some (s.sha256 token)) x (rw (own, given) at h) in
              (same, (token, given, hashed.2 ∙ sym (some_inj hashed.1)))
        ]
    | inr other ↦ absurd (no_hash (rw other at h))
  ]
    where
      no_hash : ◌≡◌ {A = Bool} false true → ⊥
      no_hash e = cc

  own_session :
      target.id ≡ admin.id
      → OpenedBy s req x
      → has_hash (current_token_hash s req admin target) x ≡ true
  own_session same (token, given, hashed) =
      let own : (target.id == admin.id) ≡ true = rw same (==_refl admin.id) in
      rw (own, given, hashed) (text_eq_refl (s.sha256 token))

  left_over :
      x.user_id ≡ target.id
      → stays_signed_in target.id (current_token_hash s req admin target) x ≡ true
      → has_hash (current_token_hash s req admin target) x ≡ true
  left_over home h = ground arith

stays_if : (a b : Bool) → b ≡ true → (a || b) ≡ true
stays_if a b h = ground arith

-- An administrator's request of the right origin that sets a stored user's password, twice the
-- same and of a length that fits, succeeds: the user has the new hash; of the user's sessions
-- exactly the one whose token the request carries is left, and only where administrators change
-- their own password; and no other user gains or loses a session.
pub user_password_signs_out :
    (hash_password : Text → Text) (s : Settings) (req : Request) (db : Db) (admin target : User)
    (password : Text)
    → require_admin s req db ≡ ok admin
    → require_same_origin s req ≡ ok tt
    → get_user db target.id ≡ some target
    → password_fits password ≡ true
    → SignedOut s req db admin target
        (hash_password password)
        (user_password hash_password s req db target.id password password)
unfolding get_user user_password
user_password_signs_out hash_password s req db admin target password is_admin origin found fits =
    let h = current_token_hash s req admin target in
    let keep = stays_signed_in target.id h in
    let hashed = record target { password_hash = hash_password password } in
    rw (user_password, is_admin, origin, found, text_eq_refl password, fits)
      (record {
        db' = _;
        committed = refl;
        changed = find-put (user_has_id target.id) hashed db.users found (==_refl target.id);
        signed_out = λ x there home.
            let (stored, kept) = select-In keep db.user_sessions there in
            let (own, opened) =
              current_hash_ok s req admin target x (left_over s req admin target x home kept) in
            (stored, own, opened);
        stays = λ x there same opened. In-select keep db.user_sessions there (
            stays_if (not (x.user_id == target.id)) (has_hash h x)
              (own_session s req admin target x same opened));
        others =
            λ id apart. count-select_all (of_user id) keep (λ x is. ground arith) db.user_sessions;
      })

guarded : {own active : Bool} → (own && not active) ≡ false → own ≡ true → active ≡ true
guarded h k = ground arith

-- Where `user_status` succeeds, the stored and active account of the administrator who makes the
-- request is still there, and active.
pub user_status_keeps_admin :
    (s : Settings) (req : Request) (db db' : Db) (user_id : ℕ) (word : Text) (r : Response)
    (admin : User)
    → require_admin s req db ≡ ok admin
    → get_user db admin.id ≡ some admin
    → admin.is_active ≡ true
    → user_status s req db user_id word ≡ ok (r, db')
    → (u : User) × (get_user db' admin.id ≡ some u) × (u.is_active ≡ true)
unfolding user_status get_user
user_status_keeps_admin s req db db' user_id word r admin is_admin found active h =
    let (a, was, h₁) = bind_ok (require_admin s req db) _ h in
    let (target, named, h₂) = bind_ok (or_raise (get_user db user_id) 404) _ h₁ in
    let active_word = text_eq word (text "true") in
    let (_, guard, h₃) = bind_ok (raise_if (target.id == a.id && not active_word) 400) _ h₂ in
    let same : a ≡ admin = ok_inj (sym was ∙ is_admin) in
    let changed = record target { is_active = active_word } in
    let there =
      find_key (λ u. u.id) user_id db.users (or_raise_ok (get_user db user_id) 404 named) in
    let saved : save_user changed db ≡ db' = returned_db _ r _ db' h₃ in
    subst (λ d. (u : User) × (get_user d admin.id ≡ some u) × (u.is_active ≡ true)) saved
      (elim (Bool-cases (target.id == admin.id)) [
        | inl own ↦
            let key : target.id ≡ admin.id = ground arith in
            let stored =
              find-put (user_has_id target.id) changed db.users there.0 (==_refl target.id) in
            (
              changed,
              subst
                  (λ k.
                    find (user_has_id k) (put (user_has_id target.id) changed db.users)
                    ≡ some changed)
                  key stored,
              guarded
                  (subst (λ x. (target.id == x.id && not active_word) ≡ false) same
                    (raise_if_ok _ 400 guard))
                  own,
            )
        | inr other ↦ (
          admin,
          find-put_other (user_has_id admin.id) (user_has_id target.id) changed db.users
                (λ z k. ground arith) other
              ∙ found,
          active,
        )
      ])
