-- ===== src/Processing.antt =====
-- Media processing in the worker (app/services/media_processing.py): the derivatives of an upload,
-- the states of a row on the way, and the recovery of rows that a restart left behind. The tools
-- (object store, Pillow, ffmpeg) are a parameter.
mod Rows
pub mod Progress
pub mod Keys
use markmonica.Base.{
  ℕ, zero, suc, Bool, true, false, not, ◌&&◌, ◌||◌, Option, none, some, List, [], ◌∷◌, ◌++◌, ◌==◌,
  if◌then◌else◌,
}
use markmonica.Base.Tables.{find, put, any, count, earliest}
use markmonica.Base.Texts.{Text, text, text_eq, starts_with, take, truthy}
use markmonica.Model.{Db, Media, MediaStatus, ProcessingStatus}
use markmonica.Uploads.Handlers.{media_has_id, save_media, is_uploaded}
use mathlib.Core.List.{reverse}

-- `rsplit("/", 1)[0]`: what stands before the last slash, or all where there is none.
abbrev before_slash : Text → Option Text
before_slash [] = none
before_slash (c ∷ t) = if c == 47 then some t else before_slash t

abbrev or_whole : Text → Option Text → Text
or_whole t none = t
or_whole t (some r) = reverse r

unfoldable pub parent_of : Text → Text
parent_of key = or_whole key (before_slash (reverse key))

-- The text of a row's UUID is a parameter.
unfoldable pub legacy_prefix : Media → Text
legacy_prefix m = parent_of m.object_key ++ text "/derivatives/"

unfoldable pub unique_prefix : (ℕ → Text) → Media → Text
unique_prefix str_uuid m = legacy_prefix m ++ str_uuid m.id ++ text "/"

-- `_derivative_key`
unfoldable pub derivative_key : (ℕ → Text) → Media → Text → Text
derivative_key str_uuid m filename =
    (parent_of m.object_key ++ text "/derivatives/") ++ str_uuid m.id ++ text "/" ++ filename

abbrev pub is_legacy_key : (ℕ → Text) → Media → Option Text → Bool
is_legacy_key str_uuid m key = elim (truthy key) [
  | none ↦ false
  | some k ↦ starts_with k (legacy_prefix m) && not (starts_with k (unique_prefix str_uuid m))
]

-- `_uses_legacy_derivative_keys`
unfoldable pub uses_legacy_derivative_keys : (ℕ → Text) → Media → Bool
uses_legacy_derivative_keys str_uuid m =
    is_legacy_key str_uuid m m.preview_object_key
    || is_legacy_key str_uuid m m.poster_object_key
    || is_legacy_key str_uuid m m.processed_object_key

abbrev pub is_ready : ProcessingStatus → Bool
is_ready ProcessingStatus.ready = true
is_ready _ = false

abbrev pub is_processing : ProcessingStatus → Bool
is_processing ProcessingStatus.processing = true
is_processing _ = false

abbrev pub is_waiting : ProcessingStatus → Bool
is_waiting ProcessingStatus.pending = true
is_waiting _ = false

abbrev pub queued_again : Media → Media
queued_again m = record m { processing_status = ProcessingStatus.pending; processing_error = none }

-- `for media in …: media.processing_status = "pending"; media.processing_error = None`
unfoldable pub requeue : (Media → Bool) → List Media → List Media
requeue p [] = []
requeue p (m ∷ ms) = (if p m then queued_again m else m) ∷ requeue p ms

abbrev pub needs_repair : (ℕ → Text) → Media → Bool
needs_repair str_uuid m =
    is_uploaded m.status && is_ready m.processing_status && uses_legacy_derivative_keys str_uuid m

unfoldable pub requeue_legacy_derivatives : (ℕ → Text) → Db → Db × ℕ
requeue_legacy_derivatives str_uuid db = (
  record db { media = requeue (needs_repair str_uuid) db.media },
  count (needs_repair str_uuid) db.media,
)

abbrev pub is_interrupted : Media → Bool
is_interrupted m = is_uploaded m.status && is_processing m.processing_status

unfoldable pub requeue_interrupted_processing : Db → Db × ℕ
requeue_interrupted_processing db =
    (record db { media = requeue is_interrupted db.media }, count is_interrupted db.media)

-- What a tool does: nothing to report, or the text of an exception.
pub record Tools : Type 0 where
  pub download : Text → Option Text
  pub thumbnail : Text → Option Text
  pub transcode : Text → Option Text
  pub poster : Text → Option Text
  pub upload : Text → Text → Option Text

pub data Outcome (A : Type 0) : Type 0 where
  done : A → Outcome A
  failed : Text → Outcome A

infixr 5 ◌>>◌
abbrev pub ◌>>◌ : {A : Type 0} → Option Text → Outcome A → Outcome A
none >> k = k
some e >> k = failed e

unfoldable pub process_image : (ℕ → Text) → Tools → Media → Outcome Media
process_image str_uuid t m = do
  let key = derivative_key str_uuid m (text "preview.webp")
  t.download m.object_key
  t.thumbnail m.object_key
  t.upload key (text "image/webp")
  done (record m {
    preview_object_key = some key;
    processed_content_type = some (text "image/webp");
  })

unfoldable pub process_video : (ℕ → Text) → Tools → Media → Outcome Media
process_video str_uuid t m = do
  let processed_key = derivative_key str_uuid m (text "processed.mp4")
  let poster_key = derivative_key str_uuid m (text "poster.jpg")
  t.download m.object_key
  t.transcode m.object_key
  t.poster m.object_key
  t.upload processed_key (text "video/mp4")
  t.upload poster_key (text "image/jpeg")
  done (record m {
    processed_object_key = some processed_key;
    processed_content_type = some (text "video/mp4");
    poster_object_key = some poster_key;
  })

-- The body of the `try`.
unfoldable pub derive : (ℕ → Text) → Tools → Media → Outcome Media
derive str_uuid t m =
    if starts_with m.content_type (text "image/")
    then process_image str_uuid t m
    else if starts_with m.content_type (text "video/")
    then process_video str_uuid t m
    else failed (text "Unsupported media type: " ++ m.content_type)

-- The row as it is committed before the work, on success, and after the rollback of a failure.
abbrev pub started : Media → Media
started m = record m { processing_status = ProcessingStatus.processing; processing_error = none }

abbrev pub finished : Media → Outcome Media → Media
finished m (done m') = record m' {
  processing_status = ProcessingStatus.ready;
  processing_error = none;
}
finished m (failed e) = record m {
  processing_status = ProcessingStatus.failed;
  processing_error = some (take 2000 e);
}

abbrev pub succeeded : Outcome Media → Bool
succeeded (done m) = true
succeeded (failed e) = false

-- `process_media` on the row that it found.
unfoldable pub process_row : (ℕ → Text) → Tools → Db → Media → Bool × Db
process_row str_uuid t db m =
    let outcome = derive str_uuid t (started m) in
    (succeeded outcome, save_media (finished (started m) outcome) (save_media (started m) db))

unfoldable pub process_media : (ℕ → Text) → Tools → Db → ℕ → Bool × Db
process_media str_uuid t db id = elim (find (media_has_id id) db.media) [
  | none ↦ (false, db)
  | some m ↦
      if not (is_uploaded m.status)
      then (false, db)
      else if is_ready m.processing_status
      then (true, db)
      else process_row str_uuid t db m
]

abbrev pub awaits_work : Media → Bool
awaits_work m = is_uploaded m.status && is_waiting m.processing_status

-- `process_next_pending`
unfoldable pub process_next_pending : (ℕ → Text) → Tools → Db → Bool × Db
process_next_pending str_uuid t db = elim (earliest (λ m. m.created_at) awaits_work db.media) [
  | none ↦ (false, db)
  | some m ↦ (true, (process_media str_uuid t db m.id).1)
]

-- `for _ in range(n): if not process_next_pending(): break` (`run_pending_media`, worker/main.py)
unfoldable pub run_pending_media : (ℕ → Text) → Tools → ℕ → Db → Db
run_pending_media str_uuid t zero db = db
run_pending_media str_uuid t (suc n) db =
    let (more, db') = process_next_pending str_uuid t db in
    let rest = run_pending_media str_uuid t n db' in if more then rest else db'
