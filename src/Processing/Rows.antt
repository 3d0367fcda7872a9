-- ===== src/Processing/Rows.antt =====
-- What a successful processing writes on a row.
use markmonica.Base.{ℕ, ◌≡◌, ◌≢◌, sym, ap, Option, none, some, Bool-cases, inl, inr}
use markmonica.Base.Texts.{Text, text, starts_with}
use markmonica.Model.{Media}
use markmonica.Processing.{
  derivative_key, Tools, Outcome, done, failed, ◌>>◌, process_image, process_video, derive,
}

then_done : {A : Type 0} (e : Option Text) (k : Outcome A) {a : A} → (e >> k) ≡ done a → k ≡ done a
then_done none k h = h
then_done (some t) k h = cc

done_inj : {A : Type 0} {a b : A} → done a ≡ done b → a ≡ b
done_inj h = cc

pub no_outcome : {A : Type 0} {e : Text} {a : A} → failed e ≢ done a
no_outcome h = cc

module _ (str_uuid : ℕ → Text) (t : Tools) (m : Media) {m' : Media} where
  pub image_row :
      process_image str_uuid t m ≡ done m'
      → (record m {
        preview_object_key = some (derivative_key str_uuid m (text "preview.webp"));
        processed_content_type = some (text "image/webp");
      })
        ≡ m'
  unfolding process_image
  image_row h =
      let key = derivative_key str_uuid m (text "preview.webp") in
      let h₁ = then_done (t.download m.object_key) _ h in
      let h₂ = then_done (t.thumbnail m.object_key) _ h₁ in
      done_inj (then_done (t.upload key (text "image/webp")) _ h₂)

  pub video_row :
      process_video str_uuid t m ≡ done m'
      → (record m {
        processed_object_key = some (derivative_key str_uuid m (text "processed.mp4"));
        processed_content_type = some (text "video/mp4");
        poster_object_key = some (derivative_key str_uuid m (text "poster.jpg"));
      })
        ≡ m'
  unfolding process_video
  video_row h =
      let processed_key = derivative_key str_uuid m (text "processed.mp4") in
      let poster_key = derivative_key str_uuid m (text "poster.jpg") in
      let h₁ = then_done (t.download m.object_key) _ h in
      let h₂ = then_done (t.transcode m.object_key) _ h₁ in
      let h₃ = then_done (t.poster m.object_key) _ h₂ in
      let h₄ = then_done (t.upload processed_key (text "video/mp4")) _ h₃ in
      done_inj (then_done (t.upload poster_key (text "image/jpeg")) _ h₄)

  pub derive_id : derive str_uuid t m ≡ done m' → m'.id ≡ m.id
  unfolding derive
  derive_id h = elim (Bool-cases (starts_with m.content_type (text "image/"))) [
    | inl image ↦ sym (ap (λ r. r.id) (image_row (rw image at h)))
    | inr other ↦ elim (Bool-cases (starts_with m.content_type (text "video/"))) [
      | inl video ↦ sym (ap (λ r. r.id) (video_row (rw (other, video) at h)))
      | inr unknown ↦ absurd (no_outcome (rw (other, unknown) at h))
    ]
  ]
