-- ===== src/Uploads/Sweep.antt =====
-- The sweep over stale uploads: its statistics add up, it deletes only what the store reports as
-- missing, and it takes no more of a package than was reserved.
use mathlib.Core.Path.{subst}
use markmonica.Base.{
  ℕ, suc, ◌+◌, ◌≤◌, ◌≡◌, ◌≢◌, refl, Bool, true, false, ◌&&◌, List, [], ◌∷◌, bit, arith,
  if◌then◌else◌, Bool-cases, inl, inr,
}
use markmonica.Base.Tables.{length, count, sum_of}
use markmonica.Base.Membership.{In}
use markmonica.Base.Texts.{Text}
use markmonica.Model.{Media, MediaStatus}
use markmonica.Uploads.Enforcement.{counted_for, size_of, reserves}
use markmonica.Uploads.Handlers.{Head, object, client_error, other_error}
use markmonica.Uploads.Cleanup.{
  Stats, is_stale, inspect, Verdict, recover, remove, fail, error, apply_verdict, tally,
  cleanup_rows, is_missing_object, unconfirmed,
}

-- The counters add up to the rows that were checked.
abbrev pub IsBalanced : Stats → Type 0
IsBalanced s = s.checked ≡ s.recovered + s.removed + s.failed + s.errors

tally-IsBalanced : (v : Verdict) (s : Stats) → IsBalanced s → IsBalanced (tally v s)
tally-IsBalanced recover s h = omega arith
tally-IsBalanced remove s h = omega arith
tally-IsBalanced fail s h = omega arith
tally-IsBalanced error s h = omega arith

tally_checked : (v : Verdict) (s : Stats) → (tally v s).checked ≡ s.checked + 1
tally_checked recover s = refl
tally_checked remove s = refl
tally_checked fail s = refl
tally_checked error s = refl

-- 1 for a verdict that takes the row out of the table.
abbrev gone : Verdict → ℕ
gone remove = 1
gone _ = 0

tally_removed : (v : Verdict) (s : Stats) → (tally v s).removed ≡ s.removed + gone v
tally_removed recover s = omega arith
tally_removed remove s = refl
tally_removed fail s = omega arith
tally_removed error s = omega arith

rows_left :
    (v : Verdict) (m : Media) (rest : List Media)
    → length (apply_verdict v m rest) + gone v ≡ suc (length rest)
rows_left recover m rest = omega arith
rows_left remove m rest = omega arith
rows_left fail m rest = omega arith
rows_left error m rest = omega arith

-- The store reports that there is no such object.
abbrev pub is_missing : Head → Bool
is_missing (object length type) = false
is_missing (client_error code status) = is_missing_object code status
is_missing other_error = false

-- The row is still in the table, with at most its status changed.
abbrev pub Kept : Media → List Media → Type 0
Kept m rows =
    (m' : Media) × In m' rows
    × (m'.id ≡ m.id)
    × (m'.object_key ≡ m.object_key)
    × (m'.size_bytes ≡ m.size_bytes)

abbrev is_remove : Verdict → Bool
is_remove remove = true
is_remove _ = false

not_removed :
    (stale : Bool) (h : Head) (m : Media)
    → (stale && is_missing h) ≡ false
    → (stale && is_remove (inspect h m)) ≡ false
unfolding inspect
not_removed stale (object length type) m e = ground arith
not_removed stale (client_error code status) m e = ground arith
not_removed stale other_error m e = ground arith

later :
    (stale : Bool) (v : Verdict) (x : Media) (rest : List Media) (m : Media)
    → In m rest
    → In m (if stale then apply_verdict v x rest else x ∷ rest)
later false v x rest m i = inr i
later true recover x rest m i = inr i
later true remove x rest m i = i
later true fail x rest m i = inr i
later true error x rest m i = inr i

kept :
    (stale : Bool) (v : Verdict) (x : Media) (rest : List Media)
    → (stale && is_remove v) ≡ false
    → Kept x (if stale then apply_verdict v x rest else x ∷ rest)
kept false v x rest e = (x, inl refl, refl, refl, refl)
kept true recover x rest e =
    (record x { status = MediaStatus.uploaded }, inl refl, refl, refl, refl)
kept true remove x rest e = cc
kept true fail x rest e = (record x { status = MediaStatus.failed }, inl refl, refl, refl, refl)
kept true error x rest e = (x, inl refl, refl, refl, refl)

module _ (head : Text → Head) (cutoff : ℕ) where
  -- From statistics that add up, those of a sweep add up too: every stale row is counted as
  -- checked and under exactly one heading, and as many rows leave the table as are counted as
  -- removed.
  pub cleanup_rows_stats :
      (s : Stats) (ms : List Media)
      → IsBalanced s
      → let (rows, s') = cleanup_rows head cutoff s ms in
        IsBalanced s'
        × (s'.checked ≡ s.checked + count (is_stale cutoff) ms)
        × (length rows + s'.removed ≡ length ms + s.removed)
  unfolding cleanup_rows count
  cleanup_rows_stats s [] h = (h, omega arith, refl)
  cleanup_rows_stats s (m ∷ ms) h =
      let v = inspect (head m.object_key) m in
      elim (Bool-cases (is_stale cutoff m)) [
        | inl stale ↦
            let ih = cleanup_rows_stats (tally v s) ms (tally-IsBalanced v s h) in
            rw stale (
              ih.0,
              omega (arith, ih.1, tally_checked v s),
              omega (
                arith,
                ih.2,
                tally_removed v s,
                rows_left v m (cleanup_rows head cutoff (tally v s) ms).0,
              ),
            )
        | inr fresh ↦
            let ih = cleanup_rows_stats s ms h in
            rw fresh (ih.0, omega (arith, ih.1), omega (arith, ih.2))
      ]

  -- No row is lost in a sweep but a stale one whose object the store reports as missing: every
  -- other row of the table is still there, with its id, its key and its size.
  pub cleanup_keeps :
      (s : Stats) (ms : List Media) (m : Media)
      → In m ms
      → ((is_stale cutoff m && is_missing (head m.object_key)) ≡ false)
      → Kept m (cleanup_rows head cutoff s ms).0
  unfolding cleanup_rows
  cleanup_keeps s [] m held present = absurd held
  cleanup_keeps s (x ∷ ms) m (inl e) present = rw e (
      kept (is_stale cutoff x) (inspect (head x.object_key) x) x _ (
        not_removed (is_stale cutoff x) (head x.object_key) x
          (subst (λ y. (is_stale cutoff y && is_missing (head y.object_key)) ≡ false) e present)))
  cleanup_keeps s (x ∷ ms) m (inr rest) present =
      let stale = is_stale cutoff x in
      let v = inspect (head x.object_key) x in
      let ih = cleanup_keeps (if stale then tally v s else s) ms m rest present in
      (ih.0, later stale v x _ ih.0 ih.1, ih.2, ih.3, ih.4)

stale_reserves :
    (cutoff : ℕ) (m : Media)
    → is_stale cutoff m ≡ true
    → m.status ≢ MediaStatus.uploading
    → reserves m.status ≡ true
stale_reserves cutoff m stale new = unconfirmed_reserves m.status (ground arith) new
  where
    unconfirmed_reserves :
        (s : MediaStatus) → unconfirmed s ≡ true → s ≢ MediaStatus.uploading → reserves s ≡ true
    unconfirmed_reserves MediaStatus.pending h n = refl
    unconfirmed_reserves MediaStatus.uploading h n = absurd (n refl)
    unconfirmed_reserves MediaStatus.uploaded h n = refl
    unconfirmed_reserves MediaStatus.failed h n = cc

-- The usage of an event in a table.
module _ (k : ℕ) where
  abbrev pub rows_of : List Media → ℕ
  rows_of ms = count (counted_for k) ms

  abbrev pub bytes_of : List Media → ℕ
  bytes_of ms = sum_of (counted_for k) size_of ms

  verdict_usage :
      (v : Verdict) (m : Media) (rest : List Media)
      → reserves m.status ≡ true
      → (rows_of (apply_verdict v m rest) ≤ bit (counted_for k m) + rows_of rest)
        × (bytes_of (apply_verdict v m rest)
            ≤ (if counted_for k m then m.size_bytes else 0) + bytes_of rest)
  unfolding count sum_of
  verdict_usage recover m rest h = ground arith
  verdict_usage remove m rest h = ground arith
  verdict_usage fail m rest h = ground arith
  verdict_usage error m rest h = ground arith

  -- Unless a row of an older version is still uploading, a sweep does not raise the usage of any
  -- event, neither its rows nor its bytes.
  pub cleanup_rows_usage :
      (head : Text → Head) (cutoff : ℕ) (s : Stats) (ms : List Media)
      → ((m : Media) → In m ms → m.status ≢ MediaStatus.uploading)
      → (rows_of (cleanup_rows head cutoff s ms).0 ≤ rows_of ms)
        × (bytes_of (cleanup_rows head cutoff s ms).0 ≤ bytes_of ms)
  unfolding cleanup_rows count sum_of
  cleanup_rows_usage head cutoff s [] none_old = (omega arith, omega arith)
  cleanup_rows_usage head cutoff s (m ∷ ms) none_old =
      let rest_old : (x : Media) → In x ms → x.status ≢ MediaStatus.uploading =
        λ x i. none_old x (inr i) in
      let v = inspect (head m.object_key) m in
      elim (Bool-cases (is_stale cutoff m)) [
        | inl stale ↦
            let ih = cleanup_rows_usage head cutoff (tally v s) ms rest_old in
            let row =
              verdict_usage v m (cleanup_rows head cutoff (tally v s) ms).0
                (stale_reserves cutoff m stale (none_old m (inl refl))) in
            rw stale (omega (arith, ih.0, row.0), omega (arith, ih.1, row.1))
        | inr fresh ↦
            let ih = cleanup_rows_usage head cutoff s ms rest_old in
            rw fresh (omega (arith, ih.0), omega (arith, ih.1))
      ]
