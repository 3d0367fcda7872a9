-- ===== src/Branding.antt =====
-- The platform's look (app/branding.py, and `get_or_create_branding`, `store_brand_asset` and
-- `update_branding` of app/admin.py). The row of `branding_settings` stands alone: no other part of
-- the program reads it. The random names of new objects and the uploads' outcome are arguments.
pub mod Colors
use markmonica.Base.{
  ℕ, ◌*◌, Bool, true, false, not, ◌&&◌, ◌||◌, Option, none, some, List, [], ◌∷◌, ◌++◌, ltb, leb,
  ◌==◌, if◌then◌else◌,
}
use markmonica.Base.Tables.{any, length}
use markmonica.Base.Texts.{
  Text, text, text_eq, strip, lower, take, truthy, non_empty, is_empty, is_given, one_of,
}
use markmonica.Model.{Db}
use markmonica.Http.{
  Result, ok, err, http, unhandled, ◌>>=◌, ◌>>◌, raise_if, Request, Response, redirect, Location,
}
use markmonica.Accounts.{Settings, require_admin}
use markmonica.Packages.{mib}
use markmonica.Storage.{delete_objects}

pub record Brand : Type 0 where
  pub platform_name : Text
  pub support_email : Option Text
  pub footer_text : Option Text
  pub primary_color : Text
  pub secondary_color : Text
  pub background_color : Text
  pub font_family : Text
  pub logo_object_key : Option Text
  pub favicon_object_key : Option Text

abbrev pub default_primary : Text
default_primary = text "#a47f76"

abbrev pub default_secondary : Text
default_secondary = text "#302b2a"

abbrev pub default_background : Text
default_background = text "#f7f4f2"

-- A row of the table's defaults, which are those of `DEFAULTS`.
abbrev pub default_brand : Brand
default_brand = record {
  platform_name = text "Memories' Events";
  support_email = none;
  footer_text = none;
  primary_color = default_primary;
  secondary_color = default_secondary;
  background_color = default_background;
  font_family = text "inter";
  logo_object_key = none;
  favicon_object_key = none;
}

-- The keys of `FONT_MAP`, with the name and the address of each font.
abbrev pub fonts : List (Text × (Text × Text))
fonts =
    (text "inter", (text "Inter", text "Inter:wght@400;500;600;700"))
    ∷ (text "montserrat", (text "Montserrat", text "Montserrat:wght@400;500;600;700"))
    ∷ (text "poppins", (text "Poppins", text "Poppins:wght@400;500;600;700"))
    ∷ (text "playfair", (text "Playfair Display", text "Playfair+Display:wght@400;500;600;700"))
    ∷ (
      text "cormorant",
      (text "Cormorant Garamond", text "Cormorant+Garamond:wght@400;500;600;700"),
    )
    ∷ (text "libre-baskerville", (text "Libre Baskerville", text "Libre+Baskerville:wght@400;700"))
    ∷ []

-- `FONT_MAP.get(key, FONT_MAP["inter"])`
unfoldable pub font_in : List (Text × (Text × Text)) → Text → Text × Text
font_in [] key = (text "Inter", text "Inter:wght@400;500;600;700")
font_in ((k, font) ∷ fs) key = let rest = font_in fs key in if text_eq k key then font else rest

abbrev pub is_font : Text → Bool
is_font key = any (λ (f : Text × (Text × Text)). text_eq f.0 key) fonts

-- `#[0-9a-f]{6}`
abbrev pub is_low_hex : ℕ → Bool
is_low_hex c = (leb 48 c && leb c 57) || (leb 97 c && leb c 102)

abbrev pub is_color : Text → Bool
is_color (h ∷ a ∷ b ∷ c ∷ d ∷ e ∷ f ∷ []) =
    h == 35
    && is_low_hex a
    && is_low_hex b
    && is_low_hex c
    && is_low_hex d
    && is_low_hex e
    && is_low_hex f
is_color _ = false

unfoldable pub valid_hex : Text → Text → Text
valid_hex value fallback = let v = lower (strip value) in if is_color v then v else fallback

abbrev pub brand_or_default : Option Brand → Brand
brand_or_default none = default_brand
brand_or_default (some b) = b

-- The colours and the font of `brand_css`, which the style sheet puts into fixed text.
pub record Style : Type 0 where
  pub primary : Text
  pub secondary : Text
  pub background : Text
  pub font : Text × Text

unfoldable pub brand_style : Option Brand → Style
brand_style brand =
    let b = brand_or_default brand in
    record {
      primary = valid_hex b.primary_color default_primary;
      secondary = valid_hex b.secondary_color default_secondary;
      background = valid_hex b.background_color default_background;
      font = font_in fonts b.font_family;
    }

unfoldable pub brand_css : Option Brand → Text
brand_css brand =
    let s = brand_style brand in
    text "@import url(\"https://fonts.googleapis.com/css2?family="
    ++ s.font.1
    ++ text "&display=swap\");\n:root{--platform-primary:"
    ++ s.primary
    ++ text ";--platform-secondary:"
    ++ s.secondary
    ++ text ";--platform-background:"
    ++ s.background
    ++ text ";--platform-font:\""
    ++ s.font.0
    ++ text "\";}\n"
    ++ text "body{font-family:var(--platform-font),ui-sans-serif,system-ui,-apple-system,"
    ++ text "BlinkMacSystemFont,\"Segoe UI\",sans-serif;}\n"

-- The key that `/brand/logo` and `/brand/favicon` lead to; without one, a static file.
abbrev pub brand_logo : Option Brand → Option Text
brand_logo none = none
brand_logo (some b) = truthy b.logo_object_key

abbrev pub brand_favicon : Option Brand → Option Text
brand_favicon none = none
brand_favicon (some b) = truthy b.favicon_object_key

-- A file of the form: its name, its type (empty where it has none), and its content as far as
-- `upload.read(max_bytes + 1)` reads it; with the random name of its object, and whether the store
-- takes it.
pub record UploadFile : Type 0 where
  pub filename : Text
  pub content_type : Text
  pub size : ℕ
  pub token : Text
  pub stored : Bool

-- `allowed.get(content_type)`
unfoldable pub allowed_extension : List (Text × Text) → Text → Option Text
allowed_extension [] content_type = none
allowed_extension ((type, extension) ∷ rest) content_type =
    let later = allowed_extension rest content_type in
    if text_eq type content_type then some extension else later

abbrev pub brand_logo_types : List (Text × Text)
brand_logo_types =
    (text "image/svg+xml", text "svg")
    ∷ (text "image/png", text "png")
    ∷ (text "image/webp", text "webp")
    ∷ (text "image/jpeg", text "jpg")
    ∷ []

abbrev pub brand_favicon_types : List (Text × Text)
brand_favicon_types =
    (text "image/svg+xml", text "svg")
    ∷ (text "image/png", text "png")
    ∷ (text "image/x-icon", text "ico")
    ∷ (text "image/vnd.microsoft.icon", text "ico")
    ∷ []

abbrev with_extension : Option Text → Result Text
with_extension none = err (http 415)
with_extension (some extension) = ok extension

abbrev stored_as : Bool → Text → Result (Option Text)
stored_as true key = ok (some key)
stored_as false key = err unhandled

unfoldable pub store_file : UploadFile → List (Text × Text) → Text → ℕ → Result (Option Text)
store_file upload allowed prefix max_bytes = do
  extension ← with_extension (allowed_extension allowed (lower upload.content_type))
  raise_if (upload.size == 0) 400
  raise_if (ltb max_bytes upload.size) 413
  stored_as upload.stored
      (text "branding/" ++ prefix ++ text "/" ++ upload.token ++ text "." ++ extension)

abbrev pub store_brand_asset :
    Option UploadFile → List (Text × Text) → Text → ℕ → Result (Option Text)
store_brand_asset none allowed prefix max_bytes = ok none
store_brand_asset (some upload) allowed prefix max_bytes =
    if is_empty upload.filename then ok none else store_file upload allowed prefix max_bytes

pub record BrandForm : Type 0 where
  pub platform_name : Text
  pub support_email : Text
  pub footer_text : Text
  pub primary_color : Text
  pub secondary_color : Text
  pub background_color : Text
  pub font_family : Text
  pub logo : Option UploadFile
  pub favicon : Option UploadFile

abbrev has_at : Text → Bool
has_at t = any (λ c. c == 64) t

-- `if new_logo: …`: the key after the form, and the one that it replaces.
abbrev pub key_after : Option Text → Option Text → Option Text
key_after none old = old
key_after (some key) old = some key

abbrev pub key_replaced : Option Text → Option Text → List (Option Text)
key_replaced none old = []
key_replaced (some key) old = old ∷ []

abbrev pub edited_brand : BrandForm → Option Text → Option Text → Brand → Brand
edited_brand f logo favicon b = record {
  platform_name = take 160 (strip f.platform_name);
  support_email = non_empty (take 320 (lower (strip f.support_email)));
  footer_text = non_empty (take 320 (strip f.footer_text));
  primary_color = valid_hex f.primary_color default_primary;
  secondary_color = valid_hex f.secondary_color default_secondary;
  background_color = valid_hex f.background_color default_background;
  font_family = f.font_family;
  logo_object_key = key_after logo b.logo_object_key;
  favicon_object_key = key_after favicon b.favicon_object_key;
}

-- The answer after the commit: an error of the object store, when it deletes what was replaced,
-- comes too late to undo it.
abbrev pub answer : Result (Unit {0}) → Result Response
answer (ok u) = ok (redirect Location.admin_branding)
answer (err e) = err e

-- The answer and the row, where the form is accepted.
unfoldable pub update_branding :
    Settings
    → (List Text → Bool)
    → Request
    → Db
    → Option Brand
    → BrandForm
    → Result (Result Response × Brand)
update_branding s request req db brand f = do
  admin ← require_admin s req db
  let b = brand_or_default brand
  let email = take 320 (lower (strip f.support_email))
  raise_if (is_empty (take 160 (strip f.platform_name))) 400
  raise_if (not (is_empty email) && not (has_at email)) 400
  raise_if (not (is_font f.font_family)) 400
  logo ← store_brand_asset f.logo brand_logo_types (text "logo") (5 * mib)
  favicon ← store_brand_asset f.favicon brand_favicon_types (text "favicon") (2 * mib)
  let old_assets = key_replaced logo b.logo_object_key ++ key_replaced favicon b.favicon_object_key
  ok (answer (delete_objects request old_assets), edited_brand f logo favicon b)
