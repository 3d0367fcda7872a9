-- ===== src/Archives/Sweep.antt =====
-- The sweep of old jobs: what it expires, what it gives up, and what it leaves alone.
use mathlib.Core.Path.{subst₂}
use markmonica.Base.{
  not, ℕ, ◌+◌, ◌-◌, ◌≤◌, min, Bool, true, false, ◌&&◌, ◌==◌, ◌≡◌, refl, ap, ◌∙◌, some, List, arith,
  ==_refl,
}
use markmonica.Base.Tables.{find, count, select, length, take}
use markmonica.Base.Membership.{find_unique}
use markmonica.Base.Updates.{
  All, All-from-In, All-select, All-sort_by, All-take, All-map, All-count, All-count_zero, sort_by,
  put_all, put_all-count, count_ext, count-sort_by, count-take, count-select, length-sort_by,
  length-take, length-select,
}
use markmonica.Base.Texts.{Text}
use markmonica.Model.{Db, ArchiveJob}
use markmonica.Http.{ok}
use markmonica.Http.Post.{ok_inj, bind_ok}
use markmonica.Accounts.{Settings}
use markmonica.Archives.{
  is_ready_job, job_has_id, is_over, is_stranded, expired_job, stranded_job, completion, jobs_over,
  jobs_stranded, delete_archives, archive_cutoff, stale_cutoff, sweep_limit,
  cleanup_expired_archives,
}

abbrev pub UniqueJobs : List ArchiveJob → Type 0
UniqueJobs js = (id : ℕ) → count (job_has_id id) js ≤ 1

-- A ready archive that is not past its retention.
abbrev pub is_kept : ℕ → ArchiveJob → Bool
is_kept cutoff j = is_ready_job j.status && not (is_over cutoff j)

-- A page of the rows that pass a test: stored, distinct, and passing.
module _ (key : ArchiveJob → ℕ) (q : ArchiveJob → Bool) (js : List ArchiveJob)
    (u : UniqueJobs js) where
  abbrev page : List ArchiveJob
  page = take sweep_limit (sort_by key (select q js))

  page_rows : All (λ j. (find (job_has_id j.id) js ≡ some j) × (q j ≡ true)) page
  page_rows = All-take _ sweep_limit (sort_by key (select q js)) (
      All-sort_by _ key (select q js) (
        All-select (λ j. find (job_has_id j.id) js ≡ some j) q js
          (All-from-In _ js (λ j i. find_unique (job_has_id j.id) js i (==_refl j.id) (u j.id)))))

  page-Unique : UniqueJobs page
  page-Unique id = omega (
    arith,
    u id,
    count-take (job_has_id id) sweep_limit (sort_by key (select q js)),
    count-sort_by key (job_has_id id) (select q js),
    count-select (job_has_id id) q js,
  )

  page-length : length page ≡ min sweep_limit (count q js)
  page-length =
      length-take sweep_limit (sort_by key (select q js))
      ∙ ap (min sweep_limit) (length-sort_by key (select q js) ∙ length-select q js)

  -- One loop of the sweep, by a change of rows that keeps their ids.
  module _ (f : ArchiveJob → ArchiveJob) (same : (j : ArchiveJob) → (f j).id ≡ j.id) where
    loop_count :
        (p : ArchiveJob → Bool)
        → count p (put_all (λ j. j.id) f page js) + count p page
          ≡ count p js + count (λ j. p (f j)) page
    loop_count p =
        put_all-count (λ j. j.id) f same p page js page-Unique
          (All-map _ _ page (λ j h. h.0) page_rows)

    -- Where a row that is changed no longer passes, a page of the rows is gone.
    loop_takes :
        ((j : ArchiveJob) → q (f j) ≡ false)
        → count q (put_all (λ j. j.id) f page js) ≡ count q js - sweep_limit
    loop_takes gone = omega (
      arith,
      loop_count q,
      All-count q page (All-map _ _ page (λ j h. h.1) page_rows),
      All-count_zero (λ j. q (f j)) page (All-map _ _ page (λ j h. gone j) page_rows),
      page-length,
    )

    -- Rows that fail a test before and after are not concerned.
    loop_leaves :
        (p : ArchiveJob → Bool)
        → ((j : ArchiveJob) → q j ≡ true → p j ≡ false)
        → ((j : ArchiveJob) → p (f j) ≡ false)
        → count p (put_all (λ j. j.id) f page js) ≡ count p js
    loop_leaves p apart gone = omega (
      arith,
      loop_count p,
      All-count_zero p page (All-map _ _ page (λ j h. apart j h.1) page_rows),
      All-count_zero (λ j. p (f j)) page (All-map _ _ page (λ j h. gone j) page_rows),
    )

    loop-Unique : UniqueJobs (put_all (λ j. j.id) f page js)
    loop-Unique id =
        let alike =
          count_ext (λ j. job_has_id id (f j)) (job_has_id id) (λ j. ap (λ k. k == id) (same j))
            page in
        omega (arith, u id, loop_count (job_has_id id), alike)

-- What a sweep has done to the table of jobs.
pub record Swept (s : Settings) (now : ℕ) (n : ℕ) (before after : List ArchiveJob) : Type 0 where
  pub reported : n ≡ min sweep_limit (count (is_over (archive_cutoff s now)) before)
  pub over :
      count (is_over (archive_cutoff s now)) after
      ≡ count (is_over (archive_cutoff s now)) before - sweep_limit
  pub stranded :
      count (is_stranded (stale_cutoff s now)) after
      ≡ count (is_stranded (stale_cutoff s now)) before - sweep_limit
  pub fresh :
      count (is_kept (archive_cutoff s now)) after ≡ count (is_kept (archive_cutoff s now)) before
  pub unique : UniqueJobs after

over_not_stranded :
    (cutoff stale : ℕ) (j : ArchiveJob) → is_over cutoff j ≡ true → is_stranded stale j ≡ false
over_not_stranded cutoff stale j h = ground arith

stranded_not_over :
    (cutoff stale : ℕ) (j : ArchiveJob) → is_stranded stale j ≡ true → is_over cutoff j ≡ false
stranded_not_over cutoff stale j h = ground arith

over_not_kept : (cutoff : ℕ) (j : ArchiveJob) → is_over cutoff j ≡ true → is_kept cutoff j ≡ false
over_not_kept cutoff j h = ground arith

stranded_not_kept :
    (cutoff stale : ℕ) (j : ArchiveJob) → is_stranded stale j ≡ true → is_kept cutoff j ≡ false
stranded_not_kept cutoff stale j h = ground arith

-- Where ids are unique, a sweep that is not stopped by the object store takes the archives past
-- their retention off the ready ones, a hundred at most, and reports how many; it takes the jobs
-- stranded in process off those in process, a hundred at most; as many ready archives within their
-- retention are left as there were, and ids stay unique.
pub cleanup_sweeps :
    (s : Settings) (request : List Text → Bool) (now n : ℕ) (db db' : Db)
    → UniqueJobs db.archive_jobs
    → cleanup_expired_archives s request now db ≡ ok (n, db')
    → Swept s now n db.archive_jobs db'.archive_jobs
unfolding cleanup_expired_archives jobs_over jobs_stranded
cleanup_sweeps s request now n db db' u h =
    let js = db.archive_jobs in
    let old = is_over (archive_cutoff s now) in
    let stuck = is_stranded (stale_cutoff s now) in
    let by_start = λ (j : ArchiveJob). j.created_at in
    let (_, deleted, h₁) = bind_ok (delete_archives request (jobs_over s now js)) _ h in
    let kept = put_all (λ j. j.id) expired_job (jobs_over s now js) js in
    let u₁ : UniqueJobs kept = loop-Unique completion old js u expired_job (λ j. refl) in
    let jobs = put_all (λ j. j.id) stranded_job (jobs_stranded s now kept) kept in
    let pair : ◌≡◌ {A = ℕ × Db} (length (jobs_over s now js), record db { archive_jobs = jobs })
        (n, db') =
      ok_inj h₁ in
    subst₂ (λ m d. Swept s now m js d.archive_jobs) (ap (λ x. x.0) pair) (ap (λ x. x.1) pair)
      (record {
        reported = page-length completion old js u;
        over =
            loop_leaves by_start stuck kept u₁ stranded_job (λ j. refl) old
              (stranded_not_over (archive_cutoff s now) (stale_cutoff s now)) (λ j. refl)
            ∙ loop_takes completion old js u expired_job (λ j. refl) (λ j. refl);
        stranded =
            loop_takes by_start stuck kept u₁ stranded_job (λ j. refl) (λ j. refl)
            ∙ ap (λ k. k - sweep_limit)
                (loop_leaves completion old js u expired_job (λ j. refl) stuck
                  (over_not_stranded (archive_cutoff s now) (stale_cutoff s now)) (λ j. refl));
        fresh =
            loop_leaves by_start stuck kept u₁ stranded_job (λ j. refl)
              (is_kept (archive_cutoff s now))
              (stranded_not_kept (archive_cutoff s now) (stale_cutoff s now)) (λ j. refl)
            ∙ loop_leaves completion old js u expired_job (λ j. refl)
                (is_kept (archive_cutoff s now)) (over_not_kept (archive_cutoff s now)) (λ j. refl);
        unique = loop-Unique by_start stuck kept u₁ stranded_job (λ j. refl);
      })
