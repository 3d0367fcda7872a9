-- ===== src/Accounts/Entry/Logout.antt =====
-- A logout ends the session of its token, and no other.
use mathlib.Core.Path.{subst}
use markmonica.Base.{
  clash, some_inj, ℕ, ◌≤◌, Bool, true, false, not, ◌≡◌, inl, inr, refl, sym, ap, ◌∙◌, none, some,
  List, [], ◌∷◌, arith, ==_refl, Bool-cases, Option-cases,
}
use markmonica.Base.Tables.{find, find_passes, any, count, select, count_zero}
use markmonica.Base.Membership.{In, find-In, find_unique}
use markmonica.Base.Updates.{count-select_cover, count-select_spare}
use markmonica.Base.Texts.{Text, text_eq, text_eq_iff, truthy}
use markmonica.Model.{Db, UserSession}
use markmonica.Http.{ok, Request, Response}
use markmonica.Http.Post.{bind_ok, returned_db}
use markmonica.Accounts.{Settings, require_same_origin, user_from_session_token}
use markmonica.Accounts.Users.{has_hash}
use markmonica.Accounts.Entry.Sessions.{token_is, shut_out}
use markmonica.Accounts.Entry.{session_has_id, end_session, logout}

-- What a logout leaves of the sessions.
pub record LoggedOut (s : Settings) (db db' : Db) (token : Text) : Type 0 where
  pub closed : (later : ℕ) → user_from_session_token s later db' (some token) ≡ none
  pub others :
      (h : Text)
      → text_eq (s.sha256 token) h ≡ false
      → count (has_hash (some h)) db'.user_sessions ≡ count (has_hash (some h)) db.user_sessions

find-none-any : {A : Type 0} (p : A → Bool) (xs : List A) → find p xs ≡ none → any p xs ≡ false
unfolding find any
find-none-any p [] h = refl
find-none-any p (x ∷ xs) h = ground (arith, find-none-any p xs)

-- Two texts that equal a third.
text_eq_both : (a b c : Text) → text_eq a b ≡ true → text_eq a c ≡ true → text_eq b c ≡ true
text_eq_both a b c h k = subst (λ x. text_eq x c ≡ true) ((text_eq_iff a b).0 h) k

module _ (s : Settings) (db : Db) (token : Text) (session : UserSession) where
  abbrev rows : List UserSession
  rows = db.user_sessions

  module _ (hashes : (h : Text) → count (has_hash (some h)) rows ≤ 1)
      (ids : (id : ℕ) → count (session_has_id id) rows ≤ 1)
      (found : find (has_hash (some (s.sha256 token))) rows ≡ some session) where
    its_hash : text_eq session.token_hash (s.sha256 token) ≡ true
    its_hash = find_passes (has_hash (some (s.sha256 token))) rows found

    ends :
        (x : UserSession)
        → In x rows
        → has_hash (some (s.sha256 token)) x ≡ true
        → session_has_id session.id x ≡ true
    ends x i h =
        let same : x ≡ session = some_inj (
          sym (find_unique (has_hash (some (s.sha256 token))) rows i h (hashes (s.sha256 token)))
          ∙ found) in
        ap (λ y. session_has_id session.id y) same ∙ ==_refl session.id

    spares :
        (h : Text)
        → text_eq (s.sha256 token) h ≡ false
        → (x : UserSession) → In x rows
        → has_hash (some h) x ≡ true
        → session_has_id session.id x ≡ false
    spares h apart x i k = elim (Bool-cases (session_has_id session.id x)) [
      | inr other ↦ other
      | inl same_id ↦
          let one : x ≡ session = some_inj (
            sym (find_unique (session_has_id session.id) rows i same_id (ids session.id))
            ∙ find_unique (session_has_id session.id) rows
                (find-In (has_hash (some (s.sha256 token))) rows found) (==_refl session.id)
                (ids session.id)) in
          let has_h = ap (λ y. has_hash (some h) y) (sym one) ∙ k in
          absurd (clash (text_eq_both session.token_hash (s.sha256 token) h its_hash has_h) apart)
    ]

    ended : LoggedOut s db (end_session db (some session)) token
    ended = record {
      closed = λ later. shut_out s later token (end_session db (some session)) (
          count_zero (has_hash (some (s.sha256 token)))
            (select (λ x. not (session_has_id session.id x)) rows)
            (count-select_cover (has_hash (some (s.sha256 token))) (session_has_id session.id) rows
              ends));
      others = λ h apart.
          count-select_spare (has_hash (some h)) (session_has_id session.id) rows (spares h apart);
    }

shut_empty :
    (s : Settings) (db : Db) (token : Text) → truthy (some token) ≡ none → LoggedOut s db db token
unfolding user_from_session_token
shut_empty s db token empty = record {
  closed = λ later. rw (user_from_session_token, empty) refl;
  others = λ h apart. refl;
}

-- Where the hashes and the ids of sessions are unique, a logout ends the session of the request's
-- token: from then on the token identifies nobody, and no session under another hash is gone.
pub logout_closes :
    (s : Settings) (req : Request) (db db' : Db) (token : Text) (r : Response)
    → ((h : Text) → count (has_hash (some h)) db.user_sessions ≤ 1)
    → ((id : ℕ) → count (session_has_id id) db.user_sessions ≤ 1)
    → req.session_token ≡ some token
    → logout s req db ≡ ok (r, db')
    → LoggedOut s db db' token
unfolding logout
logout_closes s req db db' token r hashes ids sent h =
    let (_, _, h₁) = bind_ok (require_same_origin s req) _ h in
    elim (Option-cases (truthy (some token))) [
      | inl empty ↦
          subst (λ d. LoggedOut s db d token) (returned_db _ _ _ _ (rw (sent, empty) at h₁))
            (shut_empty s db token empty)
      | inr (t, given) ↦
          let word : t ≡ token = token_is token given in
          elim (Option-cases (find (has_hash (some (s.sha256 token))) db.user_sessions)) [
            | inl nobody ↦
                subst (λ d. LoggedOut s db d token)
                  (returned_db _ _ _ _ (rw (sent, given, word, nobody) at h₁))
                  (record {
                    closed = λ later.
                        shut_out s later token db (find-none-any _ db.user_sessions nobody);
                    others = λ h apart. refl;
                  })
            | inr (session, found) ↦
                subst (λ d. LoggedOut s db d token)
                  (returned_db _ _ _ _ (rw (sent, given, word, found) at h₁))
                  (ended s db token session hashes ids found)
          ]
    ]
