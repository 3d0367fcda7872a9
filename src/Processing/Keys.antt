-- ===== src/Processing/Keys.antt =====
-- Derivative keys: a key that the current code writes is no key of the old, event-shared kind.
use mathlib.Core.Path.{subst}
use markmonica.Base.{
  ℕ, Bool, true, false, ◌||◌, ◌≡◌, refl, some, [], ◌∷◌, arith, if◌then◌else◌, Bool-cases,
  Option-cases, inl, inr,
}
use markmonica.Base.Texts.{Text, text, starts_with, starts_with-append, non_empty}
use markmonica.Model.{Media}
use markmonica.Processing.Rows.{image_row, video_row, no_outcome}
use markmonica.Processing.{
  legacy_prefix, unique_prefix, derivative_key, is_legacy_key, uses_legacy_derivative_keys, Tools,
  done, process_image, process_video, derive,
}

non_empty-some : (t : Text) {k : Text} → non_empty t ≡ some k → k ≡ t
non_empty-some [] e = cc
non_empty-some (c ∷ t) e = ground arith

module _ (str_uuid : ℕ → Text) (m : Media) where
  -- The code's key stands under the row's own prefix.
  derivative_key_unique :
      (name : Text) → starts_with (derivative_key str_uuid m name) (unique_prefix str_uuid m) ≡ true
  unfolding derivative_key unique_prefix legacy_prefix
  derivative_key_unique name = starts_with-append (unique_prefix str_uuid m) name

  derivative_key-not_legacy :
      (name : Text) → is_legacy_key str_uuid m (some (derivative_key str_uuid m name)) ≡ false
  derivative_key-not_legacy name =
      elim (Option-cases (non_empty (derivative_key str_uuid m name))) [
        | inl empty ↦ rw (is_legacy_key, empty) refl
        | inr (k, e) ↦
            let same : k ≡ derivative_key str_uuid m name =
              non_empty-some (derivative_key str_uuid m name) e in
            rw (is_legacy_key, e, same, derivative_key_unique name) (ground arith)
      ]

-- The keys that the processing of a row leaves as they are: an image has its preview written anew,
-- a video its poster and its processed file.
abbrev pub OthersClean : (ℕ → Text) → Media → Type 0
OthersClean str_uuid m =
    if starts_with m.content_type (text "image/")
    then (is_legacy_key str_uuid m m.poster_object_key ≡ false)
      × (is_legacy_key str_uuid m m.processed_object_key ≡ false)
    else is_legacy_key str_uuid m m.preview_object_key ≡ false

either_false : {a b c : Bool} → a ≡ false → b ≡ false → c ≡ false → (a || b || c) ≡ false
either_false h k l = rw (h, k, l) refl

image_clean :
    (str_uuid : ℕ → Text) (t : Tools) (m : Media) {m' : Media}
    → process_image str_uuid t m ≡ done m'
    → is_legacy_key str_uuid m m.poster_object_key ≡ false
    → is_legacy_key str_uuid m m.processed_object_key ≡ false
    → uses_legacy_derivative_keys str_uuid m' ≡ false
unfolding uses_legacy_derivative_keys legacy_prefix unique_prefix
image_clean str_uuid t m {m'} h a b =
    subst (λ r. uses_legacy_derivative_keys str_uuid r ≡ false) (image_row str_uuid t m h)
      (either_false (derivative_key-not_legacy str_uuid m (text "preview.webp")) a b)

video_clean :
    (str_uuid : ℕ → Text) (t : Tools) (m : Media) {m' : Media}
    → process_video str_uuid t m ≡ done m'
    → is_legacy_key str_uuid m m.preview_object_key ≡ false
    → uses_legacy_derivative_keys str_uuid m' ≡ false
unfolding uses_legacy_derivative_keys legacy_prefix unique_prefix
video_clean str_uuid t m {m'} h a =
    subst (λ r. uses_legacy_derivative_keys str_uuid r ≡ false) (video_row str_uuid t m h)
      (either_false a (derivative_key-not_legacy str_uuid m (text "poster.jpg"))
        (derivative_key-not_legacy str_uuid m (text "processed.mp4")))

-- Where the processing of a row succeeds, and the keys that it does not write are of the new kind,
-- the row no longer uses keys of the old kind: the repair does not take it up again.
pub derive-not_legacy :
    (str_uuid : ℕ → Text) (t : Tools) (m : Media) {m' : Media}
    → derive str_uuid t m ≡ done m'
    → OthersClean str_uuid m
    → uses_legacy_derivative_keys str_uuid m' ≡ false
unfolding derive
derive-not_legacy str_uuid t m {m'} h clean =
    elim (Bool-cases (starts_with m.content_type (text "image/"))) [
      | inl image ↦
          let both = rw image at clean in image_clean str_uuid t m (rw image at h) both.0 both.1
      | inr other ↦ elim (Bool-cases (starts_with m.content_type (text "video/"))) [
        | inl video ↦ video_clean str_uuid t m (rw (other, video) at h) (rw other at clean)
        | inr unknown ↦ absurd (no_outcome (rw (other, unknown) at h))
      ]
    ]
