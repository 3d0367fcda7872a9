-- ===== src/Storage.antt =====
-- Deletions from the object store (`delete_objects`, app/services/storage.py): keys without
-- duplicates, in requests of at most a thousand.
pub mod Batches
pub mod Sent
use markmonica.Base.{
  ℕ, zero, suc, Bool, true, false, ◌||◌, Option, none, some, List, [], ◌∷◌, if◌then◌else◌,
}
use markmonica.Base.Tables.{length, take, drop}
use markmonica.Base.Texts.{Text, text_eq, truthy, one_of}
use markmonica.Http.{Result, ok, err, unhandled, ◌>>=◌, ◌>>◌}

-- `list(dict.fromkeys(key for key in object_keys if key))`: the keys in the order of their first
-- occurrences, `seen` being those before.
abbrev pub add_key : Option Text → List Text → (List Text → List Text) → List Text
add_key none seen rest = rest seen
add_key (some key) seen rest = if one_of key seen then rest seen else key ∷ rest (key ∷ seen)

unfoldable pub distinct_keys : List Text → List (Option Text) → List Text
distinct_keys seen [] = []
distinct_keys seen (k ∷ ks) = add_key (truthy k) seen (λ s. distinct_keys s ks)

-- `keys[start:start + 1000]` for start in steps of a thousand; a round of fuel is one request.
unfoldable pub batches : ℕ → ℕ → List Text → List (List Text)
batches zero size keys = []
batches (suc fuel) size [] = []
batches (suc fuel) size (k ∷ keys) = take size (k ∷ keys) ∷ batches fuel size (drop size (k ∷ keys))

abbrev pub batch : ℕ
batch = 1000

-- The requests in turn, until one reports errors; `request` says whether all went well.
unfoldable pub send_all : (List Text → Bool) → List (List Text) → Result (Unit {0})
send_all request [] = ok tt
send_all request (b ∷ bs) =
    let rest = send_all request bs in if request b then rest else err unhandled

unfoldable pub delete_objects : (List Text → Bool) → List (Option Text) → Result (Unit {0})
delete_objects request keys =
    let ks = distinct_keys [] keys in send_all request (batches (length ks) batch ks)
