-- ===== src/Branding/Colors.antt =====
-- What the style sheet can hold.
use markmonica.Base.{true, ◌≡◌, refl, List, [], ◌∷◌, Option, Bool-cases, inl, inr}
use markmonica.Base.Membership.{In}
use markmonica.Base.Texts.{Text, text, text_eq, strip, lower}
use markmonica.Branding.{
  Brand, default_primary, default_secondary, default_background, fonts, font_in, is_color,
  valid_hex, brand_or_default, Style, brand_style,
}

valid_hex_color :
    (value fallback : Text) → is_color fallback ≡ true → is_color (valid_hex value fallback) ≡ true
unfolding valid_hex
valid_hex_color value fallback h = elim (Bool-cases (is_color (lower (strip value)))) [
  | inl good ↦ rw (valid_hex, good, good) refl
  | inr bad ↦ rw (valid_hex, bad) h
]

-- The font is one of the table's, or the first.
font_in-In :
    (fs : List (Text × (Text × Text))) (key : Text)
    → In (text "inter", (text "Inter", text "Inter:wght@400;500;600;700")) fonts
    → ((f : Text × (Text × Text)) → In f fs → In f fonts)
    → (k : Text) × In (k, font_in fs key) fonts
unfolding font_in
font_in-In [] key first sub = (text "inter", first)
font_in-In ((k, font) ∷ fs) key first sub = elim (Bool-cases (text_eq k key)) [
  | inl hit ↦ (k, rw hit (sub (k, font) (inl refl)))
  | inr miss ↦ rw miss (font_in-In fs key first (λ f i. sub f (inr i)))
]

-- What a style sheet is made of.
pub record SafeStyle (s : Style) : Type 0 where
  pub primary : is_color s.primary ≡ true
  pub secondary : is_color s.secondary ≡ true
  pub background : is_color s.background ≡ true
  pub font : (k : Text) × In (k, s.font) fonts

-- Whatever is stored as the platform's look, its style sheet holds no text of a user: its colours
-- are six hexadecimal digits after a number sign, and its font is one of the table's.
pub brand_style_safe : (brand : Option Brand) → SafeStyle (brand_style brand)
unfolding brand_style
brand_style_safe brand =
    let b = brand_or_default brand in
    record {
      primary = valid_hex_color b.primary_color default_primary refl;
      secondary = valid_hex_color b.secondary_color default_secondary refl;
      background = valid_hex_color b.background_color default_background refl;
      font = font_in-In fonts b.font_family (inl refl) (λ f i. i);
    }
