-- ===== src/Reports/Health.antt =====
-- When the status page says that all is well.
use mathlib.Core.Path.{subst}
use mathlib.Core.Logic.{◌↔◌}
use markmonica.Base.{
  ℕ, ◌-◌, ◌*◌, Bool, true, false, not, ◌&&◌, ◌||◌, ◌≡◌, inl, inr, refl, List, arith, Bool-cases,
  is_some, ltb, ◌==◌,
}
use markmonica.Base.Tables.{count}
use markmonica.Base.Membership.{In, count-In}
use markmonica.Base.Updates.{All-from-In, All-count_zero}
use markmonica.Model.{Db, Media, ProcessingStatus}
use markmonica.Http.{ok, Request}
use markmonica.Http.Post.{ok_inj, bind_ok}
use markmonica.Accounts.{Settings, require_admin}
use markmonica.Processing.{is_ready}
use markmonica.Reports.{is_failed, is_stuck, Services, System, status_page, system}

-- A processed item, or one whose processing has not failed and is at most two hours old.
abbrev pub is_healthy : ℕ → Media → Bool
is_healthy now m =
    is_ready m.processing_status
    || (not (is_failed m.processing_status) && not (ltb m.created_at (now - 2 * 3600)))

abbrev pub all_up : Services → Bool
all_up services = services.database_ok && is_some services.queue_depth && services.storage_ok

none_of :
    {A : Type 0} (p : A → Bool) (xs : List A) → count p xs ≡ 0 → (x : A) → In x xs → p x ≡ false
none_of p xs h x i = elim (Bool-cases (p x)) [
  | inr miss ↦ miss
  | inl hit ↦ absurd (omega (arith, h, count-In p xs i hit))
]

clash : false ≡ true → ⊥
clash h = cc

both : (u : Bool) (f g : ℕ) → (u && f == 0 && g == 0) ≡ true → (u ≡ true) × (f ≡ 0) × (g ≡ 0)
both u f g h = ground arith

joined : (u : Bool) (f g : ℕ) → u ≡ true → f ≡ 0 → g ≡ 0 → (u && f == 0 && g == 0) ≡ true
joined u f g h j k = ground arith

neither :
    (now : ℕ) (m : Media)
    → is_failed m.processing_status ≡ false
    → is_stuck now m ≡ false
    → is_healthy now m ≡ true
neither now m h k = ground arith

not_failed : (now : ℕ) (m : Media) → is_healthy now m ≡ true → is_failed m.processing_status ≡ false
not_failed now m h = by_status m.processing_status (ltb m.created_at (now - 2 * 3600)) h
  where
    by_status :
        (p : ProcessingStatus) (old : Bool)
        → (is_ready p || (not (is_failed p) && not old)) ≡ true
        → is_failed p ≡ false
    by_status ProcessingStatus.pending old h = refl
    by_status ProcessingStatus.processing old h = refl
    by_status ProcessingStatus.ready old h = refl
    by_status ProcessingStatus.failed old h = absurd (clash h)

not_stuck : (now : ℕ) (m : Media) → is_healthy now m ≡ true → is_stuck now m ≡ false
not_stuck now m h = ground arith

module _ (services : Services) (now : ℕ) (db : Db) where
  abbrev failed_count : ℕ
  failed_count = count (λ m. is_failed m.processing_status) db.media

  overall_iff :
      ((status_page services now db).overall_ok ≡ true)
      ↔ ((all_up services ≡ true) × ((m : Media) → In m db.media → is_healthy now m ≡ true))
  overall_iff = (
    (λ h.
        let (up, none_failed, none_stuck) =
          both (all_up services) failed_count (count (is_stuck now) db.media) h in
        (
          up,
          λ m i.
              neither now m (none_of (λ x. is_failed x.processing_status) db.media none_failed m i)
                (none_of (is_stuck now) db.media none_stuck m i),
        )),
    (λ h.
        joined (all_up services) failed_count (count (is_stuck now) db.media) h.0
          (All-count_zero (λ x. is_failed x.processing_status) db.media
            (All-from-In (λ m. is_failed m.processing_status ≡ false) db.media
              λ m i. not_failed now m (h.1 m i)))
          (All-count_zero (is_stuck now) db.media
            (All-from-In (λ m. is_stuck now m ≡ false) db.media λ m i. not_stuck now m (h.1 m i)))),
  )

-- The status page says that all is well exactly if the database, Redis and the bucket have
-- answered and every item is processed, or is still in process for at most two hours.
pub system_overall_iff :
    (s : Settings) (services : Services) (req : Request) (db : Db) (page : System)
    → system s services req db ≡ ok page
    → (page.overall_ok ≡ true)
      ↔ ((all_up services ≡ true) × ((m : Media) → In m db.media → is_healthy req.now m ≡ true))
unfolding system
system_overall_iff s services req db page h =
    let (_, _, h₁) = bind_ok (require_admin s req db) _ h in
    subst
      (λ p.
        (p.overall_ok ≡ true)
        ↔ ((all_up services ≡ true) × ((m : Media) → In m db.media → is_healthy req.now m ≡ true)))
      {x = status_page services req.now db} (ok_inj h₁) (overall_iff services req.now db)
