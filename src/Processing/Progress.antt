-- ===== src/Processing/Progress.antt =====
-- Progress of the processing: no row is left half done, and the queue of waiting rows drains.
use markmonica.Base.{
  ℕ, zero, suc, ◌+◌, ◌-◌, ◌≤◌, Bool, true, false, ◌≡◌, refl, ap, some, List, ◌==◌, arith, ==_refl,
  bit, Bool-cases, Option-cases, inl, inr,
}
use markmonica.Base.Tables.{find, put, count, earliest, count-put, find-put}
use markmonica.Base.Membership.{earliest-In, earliest-none, find_unique}
use markmonica.Base.Texts.{Text}
use markmonica.Model.{Db, Media}
use markmonica.Uploads.Handlers.{media_has_id, is_uploaded}
use markmonica.Processing.{
  Tools, Outcome, done, failed, derive, started, finished, process_row, process_media, awaits_work,
  process_next_pending, run_pending_media, is_interrupted, is_ready,
}
use markmonica.Processing.Rows.{derive_id}

-- No two rows share an id.
abbrev pub UniqueMedia : List Media → Type 0
UniqueMedia ms = (id : ℕ) → count (media_has_id id) ms ≤ 1

-- The row that processing leaves: still under its id, neither waiting nor in process.
record Settled (m f : Media) : Type 0 where
  same : f.id ≡ m.id
  idle : awaits_work f ≡ false
  settled : is_interrupted f ≡ false

finished-Settled :
    (m : Media) (o : Outcome Media)
    → ((m' : Media) → o ≡ done m' → m'.id ≡ m.id)
    → Settled m (finished m o)
finished-Settled m (done x) h = record {
  same = h x refl;
  idle = ground arith;
  settled = ground arith;
}
finished-Settled m (failed e) h = record {
  same = refl;
  idle = ground arith;
  settled = ground arith;
}

-- The counts of a table in which one waiting row was taken up and finished.
module _ (m f : Media) (ms : List Media) (found : find (media_has_id m.id) ms ≡ some m)
    (waits : awaits_work m ≡ true) (s : Settled m f) where
  abbrev two_writes : List Media
  two_writes = put (media_has_id f.id) f (put (media_has_id m.id) (started m) ms)

  two_writes-count : (p : Media → Bool) → count p two_writes + bit (p m) ≡ count p ms + bit (p f)
  two_writes-count p =
      let between : find (media_has_id m.id) (put (media_has_id m.id) (started m) ms)
          ≡ some (started m) =
        find-put (media_has_id m.id) (started m) ms found (==_refl m.id) in
      let second : find (media_has_id f.id) (put (media_has_id m.id) (started m) ms)
          ≡ some (started m) =
        rw s.same between in
      omega (
        arith,
        count-put p (media_has_id m.id) (started m) ms found,
        count-put p (media_has_id f.id) f (put (media_has_id m.id) (started m) ms) second,
      )

  two_writes-waiting : suc (count awaits_work two_writes) ≡ count awaits_work ms
  two_writes-waiting = ground (arith, two_writes-count awaits_work, s.idle)

  two_writes-interrupted : count is_interrupted two_writes ≡ count is_interrupted ms
  two_writes-interrupted =
      let calm : is_interrupted m ≡ false = ground arith in
      ground (arith, two_writes-count is_interrupted, s.settled)

  two_writes-Unique : UniqueMedia ms → UniqueMedia two_writes
  two_writes-Unique u id =
      let same_test : (f.id == id) ≡ (m.id == id) = ap (λ k. k == id) s.same in
      omega (arith, u id, two_writes-count (media_has_id id), ap bit same_test)

module _ (str_uuid : ℕ → Text) (t : Tools) where
  row-Settled : (m : Media) → Settled m (finished (started m) (derive str_uuid t (started m)))
  row-Settled m =
      let s =
        finished-Settled (started m) (derive str_uuid t (started m))
          (λ m' h. derive_id str_uuid t (started m) {m' = m'} h) in
      record { same = s.same; idle = s.idle; settled = s.settled }

  -- One round of the worker: with a row waiting, one fewer waits afterwards, and no row is left in
  -- process that was not so before; with none waiting, nothing happens.
  pub record Round (db : Db) (more : Bool) (db' : Db) : Type 0 where
    pub unique : UniqueMedia db'.media
    pub waiting : count awaits_work db'.media ≡ count awaits_work db.media - 1
    pub interrupted : count is_interrupted db'.media ≡ count is_interrupted db.media
    pub went_on : more ≡ true → 1 ≤ count awaits_work db.media
    pub stopped : more ≡ false → count awaits_work db.media ≡ 0

  process_media-row :
      (db : Db) (m : Media)
      → find (media_has_id m.id) db.media ≡ some m
      → awaits_work m ≡ true
      → process_media str_uuid t db m.id ≡ process_row str_uuid t db m
  unfolding process_media
  process_media-row db m found waits =
      let up : is_uploaded m.status ≡ true = ground arith in
      let early : is_ready m.processing_status ≡ false = ground arith in
      rw (process_media, found, up, early) refl

  process_next_pending-Round :
      (db : Db)
      → UniqueMedia db.media
      → let (more, db') = process_next_pending str_uuid t db in Round db more db'
  unfolding process_next_pending process_row
  process_next_pending-Round db u =
      elim (Option-cases (earliest (λ m. m.created_at) awaits_work db.media)) [
        | inl none_left ↦
            let zero_left = earliest-none (λ m. m.created_at) awaits_work db.media none_left in
            rw (process_next_pending, none_left)
              (record {
                unique = u;
                waiting = omega (arith, zero_left);
                interrupted = refl;
                went_on = λ h. cc;
                stopped = λ h. zero_left;
              })
        | inr (m, next) ↦
            let (there, waits) = earliest-In (λ m. m.created_at) awaits_work db.media next in
            let found = find_unique (media_has_id m.id) db.media there (==_refl m.id) (u m.id) in
            let f = finished (started m) (derive str_uuid t (started m)) in
            let fewer = two_writes-waiting m f db.media found waits (row-Settled m) in
            rw (process_next_pending, next, process_media-row db m found waits)
              (record {
                unique = two_writes-Unique m f db.media found waits (row-Settled m) u;
                waiting = omega (arith, fewer);
                interrupted = two_writes-interrupted m f db.media found waits (row-Settled m);
                went_on = λ h. omega (arith, fewer);
                stopped = λ h. cc;
              })
      ]

  -- Where ids are unique, `n` rounds of the worker take `n` rows off the queue of waiting
  -- rows, or all that are there, whatever the tools answer; and they leave as many rows in
  -- process as there were before.
  pub run_pending_media-drains :
      (n : ℕ) (db : Db)
      → UniqueMedia db.media
      → let db' = run_pending_media str_uuid t n db in
        (count awaits_work db'.media ≡ count awaits_work db.media - n)
        × (count is_interrupted db'.media ≡ count is_interrupted db.media)
  unfolding run_pending_media
  run_pending_media-drains zero db u = (omega arith, refl)
  run_pending_media-drains (suc n) db u =
      let r = process_next_pending-Round db u in
      let next = (process_next_pending str_uuid t db).1 in
      elim (Bool-cases (process_next_pending str_uuid t db).0) [
        | inl more ↦
            let ih = run_pending_media-drains n next r.unique in
            rw more (omega (arith, ih.0, r.waiting), omega (arith, ih.1, r.interrupted))
        | inr less ↦ rw less (omega (arith, r.waiting, r.stopped less), r.interrupted)
      ]
