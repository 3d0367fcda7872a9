-- ===== src/Base/Texts.antt =====
-- Texts as lists of code points, with the string methods that the program calls.
use Prim.Native.Nat.{ℕ, ◌+◌, ◌-◌}
use Prim.Native.Char.{code}
use Prim.Native.String.{String}
use mathlib.Core.Path.{◌≡◌, refl}
use mathlib.Core.Logic.{◌↔◌}
use mathlib.Core.Bool.{Bool, true, false, ◌&&◌, ◌||◌}
use mathlib.Core.Option.{Option, none, some}
use mathlib.Core.List.{List, [], ◌∷◌, ◌++◌, reverse}
use native.Mathlib.Omega.{arith}
pub use markmonica.Base.Tables.{take, drop}
use markmonica.Base.Tests.{==_refl, leb, ◌==◌, if◌then◌else◌}

abbrev pub Text : Type 0
Text = List ℕ

-- A literal of the source.
abbrev pub text : String → Text
text String.[] = []
text (String.◌∷◌ c s) = code c ∷ text s

unfoldable pub text_eq : Text → Text → Bool
text_eq [] [] = true
text_eq [] (b ∷ t) = false
text_eq (a ∷ s) [] = false
text_eq (a ∷ s) (b ∷ t) = a == b && text_eq s t

pub text_eq_iff : (s t : Text) → (text_eq s t ≡ true) ↔ (s ≡ t)
unfolding text_eq
text_eq_iff [] [] = ground arith
text_eq_iff [] (b ∷ t) = ground arith
text_eq_iff (a ∷ s) [] = ground arith
text_eq_iff (a ∷ s) (b ∷ t) = ground (arith, text_eq_iff s t)

pub text_eq_refl : (s : Text) → text_eq s s ≡ true
unfolding text_eq
text_eq_refl [] = ground arith
text_eq_refl (c ∷ s) = rw (==_refl c) (text_eq_refl s)

-- `t in {s₁, s₂, …}`
unfoldable pub one_of : Text → List Text → Bool
one_of t [] = false
one_of t (s ∷ ss) = text_eq t s || one_of t ss

-- `bool(t)`
abbrev pub is_empty : Text → Bool
is_empty [] = true
is_empty (a ∷ s) = false

unfoldable pub starts_with : Text → Text → Bool
starts_with t [] = true
starts_with [] (b ∷ p) = false
starts_with (a ∷ t) (b ∷ p) = a == b && starts_with t p

pub starts_with-append : (p t : Text) → starts_with (p ++ t) p ≡ true
unfolding starts_with
starts_with-append [] t = refl
starts_with-append (c ∷ p) t = rw (==_refl c) (starts_with-append p t)

-- `s or None`, and the value of an optional text if it is not empty.
abbrev pub non_empty : Text → Option Text
non_empty [] = none
non_empty (c ∷ t) = some (c ∷ t)

abbrev pub truthy : Option Text → Option Text
truthy none = none
truthy (some t) = non_empty t

pub truthy-some : (o : Option Text) {t : Text} → truthy o ≡ some t → o ≡ some t
truthy-some none h = cc
truthy-some (some []) h = cc
truthy-some (some (c ∷ t)) h = h

-- `o is not None`
abbrev pub is_given : Option Text → Bool
is_given none = false
is_given (some t) = true

-- `t or s`
abbrev pub or_else : Text → Text → Text
or_else [] s = s
or_else (c ∷ t) s = c ∷ t

-- The code points that `str.strip` removes.
abbrev pub is_space : ℕ → Bool
is_space c =
    (leb 9 c && leb c 13)
    || (leb 28 c && leb c 32)
    || c == 0x85
    || c == 0xa0
    || c == 0x1680
    || (leb 0x2000 c && leb c 0x200a)
    || c == 0x2028
    || c == 0x2029
    || c == 0x202f
    || c == 0x205f
    || c == 0x3000

unfoldable pub lstrip : Text → Text
lstrip [] = []
lstrip (c ∷ t) = let rest = lstrip t in if is_space c then rest else c ∷ t

unfoldable pub strip : Text → Text
unfolding lstrip
strip t = reverse (lstrip (reverse (lstrip t)))

-- `str.rstrip("/")`
abbrev lstrip_slash : Text → Text
lstrip_slash [] = []
lstrip_slash (c ∷ t) = let rest = lstrip_slash t in if c == 47 then rest else c ∷ t

unfoldable pub rstrip_slash : Text → Text
rstrip_slash t = reverse (lstrip_slash (reverse t))

-- `str.lower` on the letters A to Z; other code points stay.
unfoldable pub lower_char : ℕ → ℕ
lower_char c = if leb 65 c && leb c 90 then c + 32 else c

unfoldable pub lower : Text → Text
unfolding lower_char
lower [] = []
lower (c ∷ t) = lower_char c ∷ lower t

-- `str.upper`, with the same restriction.
unfoldable pub upper_char : ℕ → ℕ
upper_char c = if leb 97 c && leb c 122 then c - 32 else c

unfoldable pub upper : Text → Text
unfolding upper_char
upper [] = []
upper (c ∷ t) = upper_char c ∷ upper t

-- `str.title`: a letter is upper case after a character that is no letter, else lower case.
abbrev is_letter : ℕ → Bool
is_letter c = (leb 65 c && leb c 90) || (leb 97 c && leb c 122)

title_from : Bool → Text → Text
title_from inside [] = []
title_from inside (c ∷ t) =
    (if inside then lower_char c else upper_char c) ∷ title_from (is_letter c) t

unfoldable pub title : Text → Text
unfolding title_from lower_char upper_char
title = title_from false

-- `sep.join(parts)`
unfoldable pub join : Text → List Text → Text
join sep [] = []
join sep (t ∷ []) = t
join sep (t ∷ u ∷ ts) = t ++ sep ++ join sep (u ∷ ts)

-- Equality of optional texts.
abbrev pub opt_text_eq : Option Text → Option Text → Bool
opt_text_eq none none = true
opt_text_eq none (some t) = false
opt_text_eq (some s) none = false
opt_text_eq (some s) (some t) = text_eq s t
