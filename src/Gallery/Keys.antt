-- ===== src/Gallery/Keys.antt =====
-- The keys of the objects of an item.
use mathlib.Core.Path.{subst}
use markmonica.Base.{◌≡◌, refl, sym, ap, ◌⊎◌, inl, inr, some, some_inj, List, [], ◌∷◌}
use markmonica.Base.Membership.{In}
use markmonica.Base.Texts.{Text}
use markmonica.Model.{Media}
use markmonica.Gallery.{keys_of}

-- A key of one of the item's four objects.
abbrev pub HasKey : Media → Text → Type 0
HasKey m k =
    (m.object_key ≡ k)
    ⊎ ((m.preview_object_key ≡ some k)
        ⊎ ((m.poster_object_key ≡ some k) ⊎ (m.processed_object_key ≡ some k)))

pub HasKey-keys_of :
    (ms : List Media) (m : Media) (k : Text) → In m ms → HasKey m k → In (some k) (keys_of ms)
unfolding keys_of
HasKey-keys_of [] m k i h = absurd i
HasKey-keys_of (x ∷ xs) m k (inl same) h =
    subst (λ y. In (some k) (keys_of (y ∷ xs))) same
      (elim h [
        | inl original ↦ inl (ap some (sym original))
        | inr (inl preview) ↦ inr (inl (sym preview))
        | inr (inr (inl poster)) ↦ inr (inr (inl (sym poster)))
        | inr (inr (inr film)) ↦ inr (inr (inr (inl (sym film))))
      ])
HasKey-keys_of (x ∷ xs) m k (inr i) h = inr (inr (inr (inr (HasKey-keys_of xs m k i h))))

pub keys_of-HasKey :
    (ms : List Media) (k : Text) → In (some k) (keys_of ms) → (m : Media) × In m ms × HasKey m k
unfolding keys_of
keys_of-HasKey [] k i = absurd i
keys_of-HasKey (x ∷ xs) k (inl original) = (x, inl refl, inl (sym (some_inj original)))
keys_of-HasKey (x ∷ xs) k (inr (inl preview)) = (x, inl refl, inr (inl (sym preview)))
keys_of-HasKey (x ∷ xs) k (inr (inr (inl poster))) = (x, inl refl, inr (inr (inl (sym poster))))
keys_of-HasKey (x ∷ xs) k (inr (inr (inr (inl film)))) = (x, inl refl, inr (inr (inr (sym film))))
keys_of-HasKey (x ∷ xs) k (inr (inr (inr (inr i)))) =
    let (m, there, has) = keys_of-HasKey xs k i in (m, inr there, has)
