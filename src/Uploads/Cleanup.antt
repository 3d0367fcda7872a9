-- ===== src/Uploads/Cleanup.antt =====
-- `cleanup_stale_uploads` (app/services/upload_cleanup.py), in the worker. The loop goes over the
-- stale rows in the order of their instants; here they are met in the order of the table, which
-- only the log would show.
use markmonica.Base.{
  ℕ, ◌+◌, ◌-◌, ◌*◌, Bool, true, false, ◌&&◌, ◌||◌, Option, none, some, List, [], ◌∷◌, ltb, ◌==◌,
  if◌then◌else◌,
}
use markmonica.Base.Texts.{Text, text, text_eq, lower, strip, one_of, is_empty}
use markmonica.Model.{Db, Media, MediaStatus}
use markmonica.Accounts.{Settings}
use markmonica.Uploads.Handlers.{Head, object, client_error, other_error}

abbrev status_is : ℕ → Option ℕ → Bool
status_is n none = false
status_is n (some m) = m == n

-- `_is_missing_object`
unfoldable pub is_missing_object : Text → Option ℕ → Bool
is_missing_object code status =
    one_of code (text "404" ∷ text "NoSuchKey" ∷ text "NotFound" ∷ []) || status_is 404 status

pub record Stats : Type 0 where
  pub checked : ℕ
  pub recovered : ℕ
  pub removed : ℕ
  pub failed : ℕ
  pub errors : ℕ

abbrev pub no_stats : Stats
no_stats = record { checked = 0; recovered = 0; removed = 0; failed = 0; errors = 0 }

-- `Media.status.in_(("pending", "uploading"))`
abbrev pub unconfirmed : MediaStatus → Bool
unconfirmed MediaStatus.pending = true
unconfirmed MediaStatus.uploading = true
unconfirmed _ = false

abbrev pub is_stale : ℕ → Media → Bool
is_stale cutoff m = unconfirmed m.status && ltb m.created_at cutoff

-- The object has the recorded length, and the recorded type if it has one.
unfoldable pub matches : ℕ → Text → Media → Bool
matches length type m =
    let actual_type = strip (lower type) in
    ltb 0 length
    && length == m.size_bytes
    && (is_empty actual_type || text_eq actual_type (strip (lower m.content_type)))

-- What the loop's body decides for one row.
pub data Verdict : Type 0 where
  recover remove fail error : Verdict

unfoldable pub inspect : Head → Media → Verdict
inspect (object length type) m = if matches length type m then recover else fail
inspect (client_error code status) m = if is_missing_object code status then remove else error
inspect other_error m = error

-- The rows that stand in the row's place.
abbrev pub apply_verdict : Verdict → Media → List Media → List Media
apply_verdict recover m rest = record m { status = MediaStatus.uploaded } ∷ rest
apply_verdict remove m rest = rest
apply_verdict fail m rest = record m { status = MediaStatus.failed } ∷ rest
apply_verdict error m rest = m ∷ rest

abbrev pub tally : Verdict → Stats → Stats
tally recover s = record s { checked = s.checked + 1; recovered = s.recovered + 1 }
tally remove s = record s { checked = s.checked + 1; removed = s.removed + 1 }
tally fail s = record s { checked = s.checked + 1; failed = s.failed + 1 }
tally error s = record s { checked = s.checked + 1; errors = s.errors + 1 }

unfoldable pub cleanup_rows : (Text → Head) → ℕ → Stats → List Media → List Media × Stats
cleanup_rows head cutoff s [] = ([], s)
cleanup_rows head cutoff s (m ∷ ms) =
    let verdict = inspect (head m.object_key) m in
    let stale = is_stale cutoff m in
    let (rest, s') = cleanup_rows head cutoff (if stale then tally verdict s else s) ms in
    (if stale then apply_verdict verdict m rest else m ∷ rest, s')

-- An hour is 3600 of the seconds in which instants are counted.
unfoldable pub cleanup_stale_uploads : Settings → (Text → Head) → ℕ → Db → Db × Stats
cleanup_stale_uploads s head now db =
    let cutoff = now - s.stale_upload_hours * 3600 in
    let (rows, stats) = cleanup_rows head cutoff no_stats db.media in
    (record db { media = rows }, stats)
