-- ===== src/Reports/Daily.antt =====
-- The daily figures are the totals of the last thirty days.
use mathlib.Core.Path.{subst}
use markmonica.Base.{
  ℕ, zero, suc, ◌+◌, ◌-◌, ◌*◌, ◌≤◌, Bool, true, ◌&&◌, ◌≡◌, refl, sym, ◌∙◌, List, [], ◌∷◌, arith,
  ltb, leb, inl, inr,
}
use markmonica.Base.Tables.{count, sum_of, length}
use markmonica.Base.Membership.{In}
use markmonica.Base.Updates.{select-In}
use markmonica.Model.{Db, User, Event, Media}
use markmonica.Http.{ok, Request}
use markmonica.Http.Post.{ok_inj, bind_ok}
use markmonica.Accounts.{Settings, require_admin}
use markmonica.Reports.{
  day, day_of, every, since, on_day, DailyRow, daily_rows, days_from, Analytics, figures, analytics,
}

-- A column of the daily table, added up.
unfoldable pub column : (DailyRow → ℕ) → List DailyRow → ℕ
column f [] = 0
column f (r ∷ rs) = f r + column f rs

module _ {A : Type 0} (at : A → ℕ) (w : A → ℕ) where
  -- The value of a run of days.
  over_days : List ℕ → List A → ℕ
  over_days [] xs = 0
  over_days (d ∷ ds) xs = sum_of (on_day at d) w xs + over_days ds xs

  abbrev in_days : ℕ → ℕ → A → Bool
  in_days d n x = leb d (day_of (at x)) && ltb (day_of (at x)) (d + n)

  sum_none : (d : ℕ) (xs : List A) → sum_of (in_days d 0) w xs ≡ 0
  unfolding sum_of
  sum_none d [] = refl
  sum_none d (x ∷ xs) = ground (arith, sum_none d xs)

  sum_day :
      (d n : ℕ) (xs : List A)
      → sum_of (on_day at d) w xs + sum_of (in_days (suc d) n) w xs
        ≡ sum_of (in_days d (suc n)) w xs
  unfolding sum_of
  sum_day d n [] = refl
  sum_day d n (x ∷ xs) = ground (arith, sum_day d n xs)

  days_sum :
      (n i start : ℕ) (xs : List A)
      → over_days (days_from n i start) xs ≡ sum_of (in_days (day_of start + i) n) w xs
  unfolding over_days days_from
  days_sum zero i start xs = sym (sum_none (day_of start + i) xs)
  days_sum (suc n) i start xs =
      let next : day_of (start + i * day) ≡ day_of start + i = omega arith in
      let later : day_of start + suc i ≡ suc (day_of start + i) = omega arith in
      rw (next, days_sum n (suc i) start xs, later) (sum_day (day_of start + i) n xs)

  -- Where every row passes, the test does not matter.
  sum_all :
      (p : A → Bool) (xs : List A)
      → ((x : A) → In x xs → p x ≡ true)
      → sum_of p w xs ≡ sum_of every w xs
  unfolding sum_of
  sum_all p [] h = refl
  sum_all p (x ∷ xs) h = rw (h x (inl refl), sum_all p xs (λ y i. h y (inr i))) refl

  window :
      (now : ℕ) (xs : List A)
      → ((x : A) → In x xs → at x ≤ now)
      → over_days (days_from 30 0 (now - 29 * day)) (since at (now - 29 * day) xs)
        ≡ sum_of every w (since at (now - 29 * day) xs)
  window now xs past =
      days_sum 30 0 (now - 29 * day) (since at (now - 29 * day) xs)
      ∙ sum_all (in_days (day_of (now - 29 * day) + 0) 30) (since at (now - 29 * day) xs) λ x i.
        let (there, recent) = select-In (λ y. leb (now - 29 * day) (at y)) xs i in
        let bound = past x there in ground arith

count_sum : {A : Type 0} (p : A → Bool) (xs : List A) → count p xs ≡ sum_of p (λ x. 1) xs
unfolding count sum_of
count_sum p [] = refl
count_sum p (x ∷ xs) = ground (arith, count_sum p xs)

length_sum : {A : Type 0} (xs : List A) → length xs ≡ sum_of every (λ x. 1) xs
unfolding sum_of
length_sum [] = refl
length_sum (x ∷ xs) = omega (arith, length_sum xs)

module _ (us : List User) (es : List Event) (ms : List Media) where
  users_column :
      (ds : List ℕ)
      → column (λ r. r.users) (daily_rows us es ms ds)
        ≡ over_days (λ u. u.created_at) (λ u. 1) ds us
  unfolding column daily_rows over_days
  users_column [] = refl
  users_column (d ∷ ds) =
      omega (arith, users_column ds, count_sum (on_day (λ u. u.created_at) d) us)

  events_column :
      (ds : List ℕ)
      → column (λ r. r.events) (daily_rows us es ms ds)
        ≡ over_days (λ e. e.created_at) (λ e. 1) ds es
  unfolding column daily_rows over_days
  events_column [] = refl
  events_column (d ∷ ds) =
      omega (arith, events_column ds, count_sum (on_day (λ e. e.created_at) d) es)

  media_column :
      (ds : List ℕ)
      → column (λ r. r.media) (daily_rows us es ms ds)
        ≡ over_days (λ m. m.created_at) (λ m. 1) ds ms
  unfolding column daily_rows over_days
  media_column [] = refl
  media_column (d ∷ ds) =
      omega (arith, media_column ds, count_sum (on_day (λ m. m.created_at) d) ms)

  storage_column :
      (ds : List ℕ)
      → column (λ r. r.storage) (daily_rows us es ms ds)
        ≡ over_days (λ m. m.created_at) (λ m. m.size_bytes) ds ms
  unfolding column daily_rows over_days
  storage_column [] = refl
  storage_column (d ∷ ds) = omega (arith, storage_column ds)

-- No row is from the future.
pub record Past (now : ℕ) (db : Db) : Type 0 where
  pub users : (u : User) → In u db.users → u.created_at ≤ now
  pub events : (e : Event) → In e db.events → e.created_at ≤ now
  pub media : (m : Media) → In m db.media → m.created_at ≤ now

-- The columns of the daily table against the figures beside it.
pub record AddsUp (now : ℕ) (db : Db) (page : Analytics) : Type 0 where
  pub users : column (λ r. r.users) page.daily ≡ page.new_users
  pub events : column (λ r. r.events) page.daily ≡ page.new_events
  pub media : column (λ r. r.media) page.daily ≡ page.new_media
  pub storage :
      column (λ r. r.storage) page.daily
      ≡ sum_of every (λ m. m.size_bytes) (since (λ m. m.created_at) (now - 29 * day) db.media)

-- Where no row is from the future, the thirty days of the table account for every user, event and
-- item since the instant twenty-nine days ago, each once: the columns add up to the figures of new
-- rows, and to the size of the new items.
pub analytics-AddsUp :
    (s : Settings) (req : Request) (db : Db) (page : Analytics)
    → Past req.now db
    → analytics s req db ≡ ok page
    → AddsUp req.now db page
unfolding analytics
analytics-AddsUp s req db page past h =
    let (_, _, h₁) = bind_ok (require_admin s req db) _ h in
    let start = req.now - 29 * day in
    let us = since (λ u. u.created_at) start db.users in
    let es = since (λ e. e.created_at) start db.events in
    let ms = since (λ m. m.created_at) start db.media in
    let ds = days_from 30 0 start in
    subst (AddsUp req.now db) {x = figures req.now db} (ok_inj h₁) (record {
      users =
          users_column us es ms ds
          ∙ window (λ u. u.created_at) (λ u. 1) req.now db.users past.users
          ∙ sym (length_sum us);
      events =
          events_column us es ms ds
          ∙ window (λ e. e.created_at) (λ e. 1) req.now db.events past.events
          ∙ sym (length_sum es);
      media =
          media_column us es ms ds
          ∙ window (λ m. m.created_at) (λ m. 1) req.now db.media past.media
          ∙ sym (length_sum ms);
      storage =
          storage_column us es ms ds
          ∙ window (λ m. m.created_at) (λ m. m.size_bytes) req.now db.media past.media;
    })
