-- ===== src/Accounts/Entry/Registered.antt =====
-- What a registration has done.
use mathlib.Core.Path.{subst}
use markmonica.Base.{
  ℕ, ◌≤◌, Bool, true, false, ◌≡◌, inl, inr, refl, sym, ap, Option, none, some, List, [], ◌∷◌, ◌++◌,
  arith, Bool-cases, bit,
}
use markmonica.Base.Tables.{find, any, count, count-snoc, any-false}
use markmonica.Base.Texts.{Text, text_eq, text_eq_iff, text_eq_refl, strip}
use markmonica.Model.{Db, User}
use markmonica.Http.{ok, Request, Response, redirect, Location}
use markmonica.Http.Post.{ok_inj, bind_ok}
use markmonica.Accounts.{Settings, require_same_origin, new_session}
use markmonica.Accounts.Hashing.{hash_password, verify_password}
use markmonica.Accounts.Hashing.Verified.{IsBytes, verifies_own}
use markmonica.Accounts.Entry.Sessions.{no_cookie}
use markmonica.Accounts.Entry.{
  Drawn, clean_email, has_email, is_refused, new_user, add_user, enter, hashed, store_user,
  register, can_log_in, admit, login,
}

hashed_ok : (o : Option Text) {h : Text} → hashed o ≡ ok h → o ≡ some h
hashed_ok none e = cc
hashed_ok (some t) e = ground arith

-- Both ends of `store_user`.
module _ (pbkdf2 : Text → List ℕ → ℕ → Option (List ℕ)) (s : Settings) (req : Request)
    (drawn : Drawn) (db : Db) where
  store_user_unique :
      (u : User) (e : Text)
      → count (has_email e) db.users ≤ 1
      → count (has_email e) (store_user pbkdf2 s req drawn db u).0.1.users ≤ 1
  unfolding store_user new_session
  store_user_unique u e h = elim (Bool-cases (any (has_email u.email) db.users)) [
    | inl taken ↦ rw taken h
    | inr free ↦ rw free (elim (Bool-cases (has_email e u)) [
      | inr other ↦ omega (arith, h, count-snoc (has_email e) db.users u, ap bit other)
      | inl same ↦
          let none_yet =
            subst (λ t. count (has_email t) db.users ≡ 0) ((text_eq_iff u.email e).0 same)
              (any-false (has_email u.email) db.users free) in
          omega (arith, none_yet, count-snoc (has_email e) db.users u, ap bit same)
    ])
  ]

  -- However a registration ends, no email belongs to two users after it if none did before.
  pub register_keeps_unique :
      (display_name email password e : Text) (db' : Db) (r : Response) (cookie : Option Text)
      → count (has_email e) db.users ≤ 1
      → register pbkdf2 s req drawn db display_name email password ≡ ok ((r, db'), cookie)
      → count (has_email e) db'.users ≤ 1
  unfolding register
  register_keeps_unique display_name email password e db' r cookie unique h =
      let (_, _, h₁) = bind_ok (require_same_origin s req) _ h in
      elim (Bool-cases (is_refused (strip display_name) (clean_email email) password)) [
        | inl refused ↦
            subst (λ x. count (has_email e) x.0.1.users ≤ 1) (ok_inj (rw refused at h₁)) unique
        | inr accepted ↦
            let (hash, _, h₂) =
              bind_ok (hashed (hash_password pbkdf2 drawn.salt password)) _ (rw accepted at h₁) in
            let u = new_user drawn req.now (clean_email email) (strip display_name) hash in
            subst (λ x. count (has_email e) x.0.1.users ≤ 1) (ok_inj h₂)
              (store_user_unique u e unique)
      ]

find-snoc :
    {A : Type 0} (p q : A → Bool) (xs : List A) (y : A)
    → ((x : A) → p x ≡ true → q x ≡ true)
    → any q xs ≡ false
    → p y ≡ true
    → find p (xs ++ y ∷ []) ≡ some y
unfolding find any
find-snoc p q [] y weaker none_has h = ground arith
find-snoc p q (x ∷ xs) y weaker none_has h = ground (arith, weaker x, find-snoc p q xs y weaker)

module _ (pbkdf2 : Text → List ℕ → ℕ → Option (List ℕ)) (s : Settings) where
  -- The login of a user who has just been stored.
  logs_in :
      (req : Request) (drawn drawn' : Drawn) (db : Db) (now : ℕ) (u : User) (email password : Text)
      → any (has_email u.email) db.users ≡ false
      → u.email ≡ clean_email email
      → u.is_active ≡ true
      → verify_password pbkdf2 password u.password_hash ≡ true
      → require_same_origin s req ≡ ok tt
      → (db' : Db) × (login pbkdf2 s req drawn'
            (enter s now drawn (add_user u db) u).0.1
            email
            password
          ≡ ok ((redirect Location.dashboard, db'), some drawn'.token))
  unfolding login admit new_session
  logs_in req drawn drawn' db now u email password free named active verified origin =
      let passes : can_log_in (clean_email email) u ≡ true =
        rw (sym named, text_eq_refl u.email, active) refl in
      let found =
        find-snoc (can_log_in (clean_email email)) (has_email u.email) db.users u
          (λ x h. subst (λ e. text_eq x.email e ≡ true) (sym named) (ground arith)) free passes in
      let stored = (enter s now drawn (add_user u db) u).0.1 in
      ((enter s req.now drawn' stored u).0.1, rw (origin, found, verified) refl)

  -- Who has registered can log in: after a registration that sets the cookie, a login with the
  -- same email and password from the right origin succeeds, where the salt drawn was bytes.
  pub register_then_login :
      (req req' : Request) (drawn drawn' : Drawn) (db db' : Db)
      (display_name email password token : Text) (r : Response)
      → IsBytes drawn.salt
      → register pbkdf2 s req drawn db display_name email password ≡ ok ((r, db'), some token)
      → require_same_origin s req' ≡ ok tt
      → (db'' : Db) × (login pbkdf2 s req' drawn' db' email password
          ≡ ok ((redirect Location.dashboard, db''), some drawn'.token))
  unfolding register store_user
  register_then_login req req' drawn drawn' db db' display_name email password token r bytes h
        origin =
      let (_, _, h₁) = bind_ok (require_same_origin s req) _ h in
      elim (Bool-cases (is_refused (strip display_name) (clean_email email) password)) [
        | inl refused ↦ absurd (no_cookie (ok_inj (rw refused at h₁)))
        | inr accepted ↦
            let (hash, made, h₂) =
              bind_ok (hashed (hash_password pbkdf2 drawn.salt password)) _ (rw accepted at h₁) in
            let u = new_user drawn req.now (clean_email email) (strip display_name) hash in
            let own =
              verifies_own pbkdf2 drawn.salt bytes password hash
                (hashed_ok (hash_password pbkdf2 drawn.salt password) made) in
            elim (Bool-cases (any (has_email (clean_email email)) db.users)) [
              | inl taken ↦ absurd (no_cookie (ok_inj (rw taken at h₂)))
              | inr free ↦
                  subst
                    (λ x.
                      (db'' : Db) × (login pbkdf2 s req' drawn' x.0.1 email password
                        ≡ ok ((redirect Location.dashboard, db''), some drawn'.token)))
                    (ok_inj (rw free at h₂))
                    (logs_in req' drawn drawn' db req.now u email password free refl refl own
                      origin)
            ]
      ]
