-- ===== src/Accounts/Entry/Sessions.antt =====
-- A session identifies the user who has logged in, until they log out.
use mathlib.Core.Path.{subst₂}
use markmonica.Base.{
  clash, some_inj, ℕ, ◌+◌, ◌*◌, ◌≤◌, ◌<◌, Bool, true, false, ◌&&◌, ◌≡◌, ◌⊎◌, inl, inr, refl, ap,
  Option, none, some, List, [], ◌∷◌, ◌++◌, arith, ==_refl, Bool-cases, Option-cases,
}
use markmonica.Base.Tables.{find, find_passes, any, count, count_mono, any_weaker}
use markmonica.Base.Membership.{In, find-In, find_unique}
use markmonica.Base.Updates.{In-any, any-In}
use markmonica.Base.Texts.{Text, text_eq_refl, truthy}
use markmonica.Model.{Db, User, UserSession}
use markmonica.Http.{ok, Request, Response}
use markmonica.Http.Post.{ok_inj, bind_ok}
use markmonica.Accounts.{
  Settings, require_same_origin, admits, user_from_session_token, new_session, session_ttl_days,
}
use markmonica.Accounts.Users.{user_has_id, has_hash}
use markmonica.Accounts.Hashing.{verify_password}
use markmonica.Accounts.Entry.{
  Drawn, Entered, clean_email, has_email, enter, can_log_in, admit, login,
}

abbrev pub UniqueUsers : List User → Type 0
UniqueUsers us = (id : ℕ) → count (user_has_id id) us ≤ 1

In-snoc : {A : Type 0} (xs : List A) (y : A) {x : A} → In x (xs ++ y ∷ []) → In x xs ⊎ (x ≡ y)
In-snoc [] y (inl e) = inr e
In-snoc [] y (inr i) = absurd i
In-snoc (z ∷ zs) y (inl e) = inl (inl e)
In-snoc (z ∷ zs) y (inr i) = elim (In-snoc zs y i) [
  | inl there ↦ inl (inr there)
  | inr last ↦ inr last
]

any-snoc :
    {A : Type 0} (f : A → Bool) (xs : List A) (y : A) → f y ≡ true → any f (xs ++ y ∷ []) ≡ true
unfolding any
any-snoc f [] y h = ground arith
any-snoc f (x ∷ xs) y h = ground (arith, any-snoc f xs y h)

pub no_cookie : {x y : Response × Db} {t : Text} → ◌≡◌ {A = Entered} (x, none) (y, some t) → ⊥
no_cookie h = cc

find-none : {A : Type 0} (p : A → Bool) (xs : List A) → ((x : A) → p x ≡ false) → find p xs ≡ none
unfolding find
find-none p [] h = refl
find-none p (x ∷ xs) h = rw (h x) (find-none p xs h)

pub token_is : (token : Text) {t : Text} → truthy (some token) ≡ some t → t ≡ token
token_is [] h = cc
token_is (c ∷ token) h = ground arith

-- No session opens where none has the hash of the token.
pub shut_out :
    (s : Settings) (later : ℕ) (token : Text) (db : Db)
    → any (has_hash (some (s.sha256 token))) db.user_sessions ≡ false
    → user_from_session_token s later db (some token) ≡ none
unfolding user_from_session_token
shut_out s later token db none_has = elim (Option-cases (truthy (some token))) [
  | inl empty ↦ rw (user_from_session_token, empty) refl
  | inr (t, given) ↦
      rw (user_from_session_token, given, token_is token given)
        (find-none (λ u. any (admits later (s.sha256 token) u) db.user_sessions && u.is_active)
          db.users λ u. shut_to u)
]
  where
    shut_to :
        (u : User) → (any (admits later (s.sha256 token) u) db.user_sessions && u.is_active) ≡ false
    shut_to u =
        rw
          (any_weaker (has_hash (some (s.sha256 token))) (admits later (s.sha256 token) u)
            (λ x h. ground arith) db.user_sessions none_has)
          refl

-- The session that `new_session` writes: among sessions none of which has its hash, it alone lets
-- the bearer of the token in, as its user.
module _ (s : Settings) (now later id : ℕ) (token : Text) (db : Db) (u : User) where
  abbrev session : UserSession
  session = (new_session s now id token db u).0

  abbrev opens : User → Bool
  opens x = any (admits later (s.sha256 token) x) (db.user_sessions ++ session ∷ []) && x.is_active

  opens_own :
      any (has_hash (some (s.sha256 token))) db.user_sessions ≡ false
      → (x : User) → opens x ≡ true
      → user_has_id u.id x ≡ true
  unfolding new_session
  opens_own fresh x h =
      let (entry, there, admitted) =
        In-any (admits later (s.sha256 token) x) (db.user_sessions ++ session ∷ [])
          (ground arith) in
      elim (In-snoc db.user_sessions session there) [
        | inl old ↦ absurd (
            clash (any-In (has_hash (some (s.sha256 token))) db.user_sessions old (ground arith))
              fresh)
        | inr new ↦ let own : entry.user_id ≡ u.id = ap (λ z. z.user_id) new in ground (arith, own)
      ]

  pub identifies :
      UniqueUsers db.users
      → any (has_hash (some (s.sha256 token))) db.user_sessions ≡ false
      → In u db.users
      → u.is_active ≡ true
      → truthy (some token) ≡ some token
      → later < now + session_ttl_days * 86400
      → user_from_session_token s later (new_session s now id token db u).1 (some token) ≡ some u
  unfolding user_from_session_token new_session
  identifies unique fresh there active given in_time =
      let admitted : admits later (s.sha256 token) u session ≡ true =
        ground (arith, ==_refl u.id, text_eq_refl (s.sha256 token), in_time) in
      let passes : opens u ≡ true =
        rw (any-snoc (admits later (s.sha256 token) u) db.user_sessions session admitted, active)
          refl in
      rw (user_from_session_token, given)
        (find_unique opens db.users there passes (
          omega
            (arith, unique u.id, count_mono opens (user_has_id u.id) (opens_own fresh) db.users)))

-- What a login has done.
pub record LoggedIn (pbkdf2 : Text → List ℕ → ℕ → Option (List ℕ)) (s : Settings) (now : ℕ)
    (db db' : Db) (email password token : Text) : Type 0 where
  pub user : User
  pub stored : In user db.users
  pub named : has_email (clean_email email) user ≡ true
  pub active : user.is_active ≡ true
  pub verified : verify_password pbkdf2 password user.password_hash ≡ true
  pub opens :
      (later : ℕ)
      → later < now + session_ttl_days * 86400
      → user_from_session_token s later db' (some token) ≡ some user

-- A login that sets the cookie has found an active user of that email, in lower case and without
-- the white space around it, and verified the password; where user ids are unique and the token
-- drawn is not empty and its hash new, the token then identifies that user for thirty days.
pub login_identifies :
    (pbkdf2 : Text → List ℕ → ℕ → Option (List ℕ)) (s : Settings) (req : Request) (drawn : Drawn)
    (db db' : Db) (email password token : Text) (r : Response)
    → UniqueUsers db.users
    → any (has_hash (some (s.sha256 drawn.token))) db.user_sessions ≡ false
    → truthy (some drawn.token) ≡ some drawn.token
    → login pbkdf2 s req drawn db email password ≡ ok ((r, db'), some token)
    → LoggedIn pbkdf2 s req.now db db' email password token
unfolding login admit
login_identifies pbkdf2 s req drawn db db' email password token r unique fresh given h =
    let (_, _, h₁) = bind_ok (require_same_origin s req) _ h in
    elim (Option-cases (find (can_log_in (clean_email email)) db.users)) [
      | inl nobody ↦ absurd (no_cookie (ok_inj (rw nobody at h₁)))
      | inr (u, found) ↦ elim (Bool-cases (verify_password pbkdf2 password u.password_hash)) [
        | inl verified ↦
            let entered : enter s req.now drawn db u ≡ ((r, db'), some token) =
              ok_inj (rw (found, verified) at h₁) in
            let cookie : drawn.token ≡ token = some_inj (ap (λ x. x.1) entered) in
            let passes = find_passes (can_log_in (clean_email email)) db.users found in
            record {
              user = u;
              stored = find-In (can_log_in (clean_email email)) db.users found;
              named = ground (arith, passes);
              active = ground (arith, passes);
              verified = verified;
              opens = λ later in_time.
                  subst₂ (λ d t. user_from_session_token s later d (some t) ≡ some u)
                    (ap (λ x. x.0.1) entered) cookie
                    (identifies s req.now later drawn.session_id drawn.token db u unique fresh
                      (find-In (can_log_in (clean_email email)) db.users found)
                      (ground (arith, passes)) given in_time);
            }
        | inr wrong ↦ absurd (no_cookie (ok_inj (rw (found, wrong) at h₁)))
      ]
    ]
