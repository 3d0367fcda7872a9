-- ===== src/Model/Rows.antt =====
-- The tables of accounts, events, media, archives and packages (app/models.py).
use markmonica.Base.{ℕ, Bool, Option}
use markmonica.Base.Texts.{Text}

pub record User : Type 0 where
  pub id : ℕ
  pub email : Text
  pub display_name : Text
  pub password_hash : Text
  pub is_active : Bool
  pub is_admin : Bool
  pub plan_code : Text
  pub created_at : ℕ

pub record UserSession : Type 0 where
  pub id : ℕ
  pub user_id : ℕ
  pub token_hash : Text
  pub expires_at : ℕ
  pub created_at : ℕ

pub data EventStatus : Type 0 where
  draft live : EventStatus

pub record Event : Type 0 where
  pub id : ℕ
  pub owner_id : ℕ
  pub slug : Text
  pub title : Text
  pub event_date : Option ℕ
  pub status : EventStatus
  pub package_code : Text
  pub package_assigned_at : ℕ
  pub gallery_visibility : Text
  pub welcome_message : Option Text
  pub thank_you_message : Option Text
  pub theme : Text
  pub accent_color : Text
  pub guest_font : Text
  pub guest_gallery_enabled : Bool
  pub cover_object_key : Option Text
  pub cover_content_type : Option Text
  pub created_at : ℕ

-- `uploading` is the word of rows that an older version wrote.
pub data MediaStatus : Type 0 where
  pending uploading uploaded failed : MediaStatus

pub data ProcessingStatus : Type 0 where
  pending processing ready failed : ProcessingStatus

pub record Media : Type 0 where
  pub id : ℕ
  pub event_id : ℕ
  pub object_key : Text
  pub original_filename : Text
  pub content_type : Text
  pub size_bytes : ℕ
  pub uploader_name : Option Text
  pub caption : Option Text
  pub status : MediaStatus
  pub processing_status : ProcessingStatus
  pub preview_object_key : Option Text
  pub poster_object_key : Option Text
  pub processed_object_key : Option Text
  pub processed_content_type : Option Text
  pub processing_error : Option Text
  pub created_at : ℕ

pub data ArchiveStatus : Type 0 where
  queued processing ready failed expired : ArchiveStatus

pub record ArchiveJob : Type 0 where
  pub id : ℕ
  pub event_id : ℕ
  pub requested_media_ids : Option Text
  pub status : ArchiveStatus
  pub object_key : Option Text
  pub filename : Text
  pub error : Option Text
  pub created_at : ℕ
  pub completed_at : Option ℕ

pub record PackageConfig : Type 0 where
  pub code : Text
  pub name : Text
  pub max_media_per_event : Option ℕ
  pub max_storage_bytes_per_event : Option ℕ
  pub max_video_bytes : Option ℕ
  pub guest_gallery : Bool
  pub archive_downloads : Bool
  pub custom_event_design : Bool
  pub is_active : Bool
  pub price_cents : ℕ
  pub currency : Text
  pub tier_rank : ℕ
  pub payment_required : Bool
  pub updated_at : ℕ
