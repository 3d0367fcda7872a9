-- ===== src/Names.antt =====
-- Names that are safe in links and object keys (`slugify` and `safe_filename`, app/main.py).
use markmonica.Base.{ℕ, Bool, false, not, ◌&&◌, ◌||◌, [], ◌∷◌, leb, ◌==◌, if◌then◌else◌}
use markmonica.Base.Texts.{Text, text, lower, take, or_else, is_empty, text_eq}
use mathlib.Core.List.{reverse}

abbrev is_digit : ℕ → Bool
is_digit c = leb 48 c && leb c 57

abbrev is_lower : ℕ → Bool
is_lower c = leb 97 c && leb c 122

abbrev is_upper : ℕ → Bool
is_upper c = leb 65 c && leb c 90

-- `[a-z0-9]`
abbrev pub slug_char : ℕ → Bool
slug_char c = is_lower c || is_digit c

-- `[A-Za-z0-9._-]`
abbrev pub file_char : ℕ → Bool
file_char c = is_upper c || is_lower c || is_digit c || c == 46 || c == 95 || c == 45

-- `re.sub("[^…]+", "-", t)`: each run of other characters becomes one dash. The flag says that the
-- last character was of such a run.
unfoldable pub squash : (ℕ → Bool) → Bool → Text → Text
squash keep in_run [] = []
squash keep in_run (c ∷ t) =
    let rest = squash keep (not (keep c)) t in
    if keep c then c ∷ rest else if in_run then rest else 45 ∷ rest

-- `t.lstrip(chars)`
unfoldable pub lstrip_chars : (ℕ → Bool) → Text → Text
lstrip_chars p [] = []
lstrip_chars p (c ∷ t) = let rest = lstrip_chars p t in if p c then rest else c ∷ t

unfoldable pub strip_chars : (ℕ → Bool) → Text → Text
strip_chars p t = reverse (lstrip_chars p (reverse (lstrip_chars p t)))

abbrev pub is_dash : ℕ → Bool
is_dash c = c == 45

abbrev pub is_dash_or_dot : ℕ → Bool
is_dash_or_dot c = c == 45 || c == 46

unfoldable pub slugify : Text → Text
slugify value =
    or_else (take 90 (strip_chars is_dash (squash slug_char false (lower value)))) (text "event")

-- The last component of a POSIX path that is neither empty nor a dot: `Path(value).name`.
abbrev component : Text → Text → Text
component current best = if is_empty current || text_eq current (text ".") then best else current

path_name_from : Text → Text → Text → Text
path_name_from current best [] = component (reverse current) best
path_name_from current best (c ∷ t) =
    path_name_from (if c == 47 then [] else c ∷ current)
      (if c == 47 then component (reverse current) best else best) t

unfoldable pub path_name : Text → Text
unfolding path_name_from
path_name t = path_name_from [] [] t

unfoldable pub safe_filename : Text → Text
safe_filename value =
    or_else (take 180 (strip_chars is_dash_or_dot (squash file_char false (path_name value))))
      (text "upload")
