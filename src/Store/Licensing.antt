-- ===== src/Store/Licensing.antt =====
-- The rows of pkg/db/models that the licenses read and write.
use packfinderz_backend.Prelude.{ℕ, Bool, Option}
use packfinderz_backend.Enums.{LicenseStatus, LicenseType, KycStatus, MediaStatus, MemberRole}
use packfinderz_backend.Store.Ids.{Uuid, Blob, Text}

-- pkg/db/models/store.go, as far as licenses and subscriptions decide it
pub record StoreRow : Type 0 where
  pub id : Uuid
  pub kyc_status : KycStatus
  pub subscription_active : Bool

-- pkg/db/models/store_membership.go
pub record Membership : Type 0 where
  pub user_id : Uuid
  pub store_id : Uuid
  pub role : MemberRole

-- pkg/db/models/license.go
pub record License : Type 0 where
  pub id : Uuid
  pub store_id : Uuid
  pub user_id : Uuid
  pub status : LicenseStatus
  pub media_id : Uuid
  pub gcs_key : Blob
  pub issuing_state : Text
  pub issue_date : Option ℕ
  pub expiration_date : Option ℕ
  pub type : LicenseType
  pub number : Text
  pub created_at : ℕ

-- pkg/db/models/media.go, as far as attachments and licenses read it
pub record Media : Type 0 where
  pub id : Uuid
  pub store_id : Uuid
  pub status : MediaStatus
  pub gcs_key : Blob
  pub mime_type : Text
  pub public_url : Blob

-- The entities of pkg/db/models/media_attachment.go
pub data EntityType : Type 0 where
  license ad product_gallery product_coa store_logo store_banner : EntityType

-- pkg/db/models/media_attachment.go
pub record MediaAttachment : Type 0 where
  pub media_id : Uuid
  pub entity_type : EntityType
  pub entity_id : Uuid
  pub store_id : Uuid
  pub gcs_key : Blob
