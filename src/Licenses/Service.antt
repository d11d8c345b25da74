-- ===== src/Licenses/Service.antt =====
-- internal/licenses/service.go: licenses are created, verified and deleted, and the store's KYC
-- status follows them. (`ListLicenses` is in Pages.)
use packfinderz_backend.Prelude.{
  ℕ, ◌==◌, if◌then◌else◌, Bool, true, false, not, ◌&&◌, ◌||◌, Option, some, none, List, [], ◌∷◌,
}
use packfinderz_backend.Enums.{
  LicenseStatus, LicenseType, KycStatus, MediaStatus, MemberRole, EventType, AggregateType,
  is_license, is_kyc, is_media,
}
use packfinderz_backend.Errors.{Code, Error, coded, record_not_found, driver}
use packfinderz_backend.Text.{trim_space, to_lower, has_prefix, is_empty, text_eq}
use packfinderz_backend.Store.Tables.{
  Uuid, Text, License, EntityType, ActorRef, OutboxEvent, LicenseReason, Payload,
}
use packfinderz_backend.Store.Tx.{
  Env, M, ⊤, pure, fail_if, map_error, not_found_or, wrapped, with_tx, ◌>>=◌, ◌>>◌,
}
use packfinderz_backend.Store.Repo.{emit}
use packfinderz_backend.Media.{find_media, reconcile}
use packfinderz_backend.Licenses.{
  find_license, create_license_row, update_license_status, delete_license_row, list_statuses,
  count_valid_licenses, find_store, save_store, update_store_status, user_has_role, set_status,
  set_kyc,
}

abbrev pub is_license_media_status : MediaStatus → Bool
is_license_media_status s = is_media s MediaStatus.uploaded || is_media s MediaStatus.ready

-- "application/pdf" and "image/"
abbrev pdf_type : Text
pdf_type =
    b'a' ∷ b'p' ∷ b'p' ∷ b'l' ∷ b'i' ∷ b'c' ∷ b'a' ∷ b't' ∷ b'i' ∷ b'o' ∷ b'n' ∷ b'/' ∷ b'p' ∷ b'd'
    ∷ b'f' ∷ []

abbrev image_prefix : Text
image_prefix = b'i' ∷ b'm' ∷ b'a' ∷ b'g' ∷ b'e' ∷ b'/' ∷ []

unfoldable pub is_allowed_license_mime : Text → Bool
unfolding trim_space
is_allowed_license_mime [] = false
is_allowed_license_mime (c ∷ cs) =
    let lowered = to_lower (trim_space (c ∷ cs)) in
    text_eq lowered pdf_type || has_prefix image_prefix lowered

abbrev pub is_deletable_license_status : LicenseStatus → Bool
is_deletable_license_status s =
    is_license s LicenseStatus.expired || is_license s LicenseStatus.rejected

-- `LicenseType.IsValid`
abbrev pub is_valid_type : LicenseType → Bool
is_valid_type LicenseType.other_type = false
is_valid_type LicenseType.producer = true
is_valid_type LicenseType.grower = true
is_valid_type LicenseType.dispensary = true
is_valid_type LicenseType.merchant = true

-- What the two flags say when the loop of `DetermineStoreKYCStatus` is through.
abbrev pub kyc_of_flags : Bool → Bool → KycStatus
kyc_of_flags has_expired has_rejected =
    if has_expired && not has_rejected
    then KycStatus.expired
    else if has_rejected
    then KycStatus.rejected
    else KycStatus.pending_verification

-- The loop, with its two flags.
unfoldable pub kyc_loop : Bool → Bool → List LicenseStatus → KycStatus
kyc_loop has_expired has_rejected [] = kyc_of_flags has_expired has_rejected
kyc_loop has_expired has_rejected (LicenseStatus.verified ∷ ss) = KycStatus.verified
kyc_loop has_expired has_rejected (LicenseStatus.expired ∷ ss) = kyc_loop true has_rejected ss
kyc_loop has_expired has_rejected (LicenseStatus.rejected ∷ ss) = kyc_loop has_expired true ss
kyc_loop has_expired has_rejected (LicenseStatus.pending ∷ ss) =
    kyc_loop has_expired has_rejected ss

-- `DetermineStoreKYCStatus`
unfoldable pub determine_store_kyc_status : List LicenseStatus → KycStatus
unfolding kyc_loop
determine_store_kyc_status = kyc_loop false false

pub record CreateLicenseInput : Type 0 where
  pub media_id : Uuid
  pub issuing_state : Text
  pub issue_date : Option ℕ
  pub expiration_date : Option ℕ
  pub type : LicenseType
  pub number : Text

abbrev pub allowed_roles : List MemberRole
allowed_roles =
    MemberRole.owner ∷ MemberRole.admin ∷ MemberRole.manager ∷ MemberRole.staff ∷ MemberRole.ops
    ∷ []

abbrev deleting_roles : List MemberRole
deleting_roles = MemberRole.owner ∷ MemberRole.manager ∷ []

-- `if pkgErr := pkgerrors.As(err); pkgErr != nil { return pkgErr }`, or the wrap
abbrev pub typed_or_dependency : Error → Error
typed_or_dependency (coded c) = coded c
typed_or_dependency record_not_found = coded Code.dependency
typed_or_dependency driver = coded Code.dependency

-- `if errors.Is(err, gorm.ErrRecordNotFound) { return New(CodeNotFound) }`, and the error as it is
abbrev pub not_found_only : Error → Error
not_found_only record_not_found = coded Code.not_found
not_found_only driver = driver
not_found_only (coded c) = coded c

abbrev pub license_event : ℕ → EventType → Option ActorRef → Payload → License → OutboxEvent
license_event occurred_at event_type actor payload l = record {
  event_type = event_type;
  aggregate_type = AggregateType.license;
  aggregate_id = l.id;
  actor = actor;
  occurred_at = occurred_at;
  payload = payload;
}

module _ (env : Env) where
  -- `emitLicenseStatusEvent`
  unfoldable pub emit_license_status_event : License → LicenseStatus → Text → Option ActorRef → M ⊤
  unfolding trim_space
  emit_license_status_event l status reason actor = emit env (
      license_event 0 EventType.license_status_changed actor
        (Payload.license_status_changed l.id l.store_id status
          (LicenseReason.given (trim_space reason)))
        l)

  -- `reconcileStoreKYC`
  unfoldable pub reconcile_store_kyc : Uuid → M ⊤
  unfolding determine_store_kyc_status
  reconcile_store_kyc store_id = do
    statuses ← list_statuses env store_id
    let new_status = determine_store_kyc_status statuses
    if is_kyc new_status KycStatus.pending_verification then pure tt else do
      store ← find_store env store_id
      if is_kyc store.kyc_status new_status
          then pure tt
          else update_store_status env store_id new_status

  -- The body of the transaction of `VerifyLicense`.
  unfoldable pub verify_in_tx : Uuid → LicenseStatus → Text → M License
  unfolding reconcile_store_kyc emit_license_status_event
  verify_in_tx k decision reason = do
    license ← map_error not_found_only (find_license env k)
    fail_if (not (is_license license.status LicenseStatus.pending)) Code.conflict
    update_license_status env k decision
    reconcile_store_kyc license.store_id
    emit_license_status_event (set_status decision license) decision reason none
    pure (set_status decision license)

  -- `VerifyLicense`
  unfoldable pub verify_license : Uuid → LicenseStatus → Text → M License
  unfolding verify_in_tx
  verify_license k decision reason = do
    fail_if (k == 0) Code.validation
    fail_if
        (not (is_license decision LicenseStatus.verified)
          && not (is_license decision LicenseStatus.rejected))
        Code.validation
    map_error typed_or_dependency (with_tx env (verify_in_tx k decision reason))

  -- The body of the transaction of `CreateLicense`.
  unfoldable pub create_in_tx : License → Option ActorRef → M License
  unfolding emit_license_status_event
  create_in_tx license actor = do
    stored ← create_license_row env license
    reconcile env EntityType.license stored.id stored.store_id [] (stored.media_id ∷ [])
    emit_license_status_event stored stored.status [] actor
    pure stored

  -- `CreateLicense`
  unfoldable pub create_license : Uuid → Uuid → CreateLicenseInput → M License
  unfolding create_in_tx is_allowed_license_mime trim_space
  create_license user_id store_id input = do
    fail_if (user_id == 0) Code.validation
    fail_if (store_id == 0) Code.validation
    fail_if (input.media_id == 0) Code.validation
    fail_if (is_empty (trim_space input.issuing_state)) Code.validation
    fail_if (is_empty (trim_space input.number)) Code.validation
    fail_if (not (is_valid_type input.type)) Code.validation
    allowed ← wrapped (user_has_role env user_id store_id allowed_roles)
    fail_if (not allowed) Code.forbidden
    media ← map_error (not_found_or Code.not_found) (find_media env input.media_id)
    fail_if (not (media.store_id == store_id)) Code.forbidden
    fail_if (not (is_license_media_status media.status)) Code.conflict
    fail_if (not (is_allowed_license_mime media.mime_type)) Code.validation
    wrapped (
        with_tx env (
          create_in_tx
            (record {
              id = 0;
              store_id = store_id;
              user_id = user_id;
              status = LicenseStatus.pending;
              media_id = media.id;
              gcs_key = media.gcs_key;
              issuing_state = trim_space input.issuing_state;
              issue_date = input.issue_date;
              expiration_date = input.expiration_date;
              type = input.type;
              number = trim_space input.number;
              created_at = 0;
            })
            (some (record { user_id = user_id; store_id = some store_id; role = 0 }))))

  -- The body of the transaction of `DeleteLicense`.
  unfoldable pub delete_in_tx : License → Uuid → M ⊤
  delete_in_tx license k = do
    reconcile env EntityType.license license.id license.store_id (license.media_id ∷ []) []
    delete_license_row env k

  -- What `DeleteLicense` does to the store after its transaction.
  unfoldable pub reset_store : Uuid → M ⊤
  reset_store store_id = do
    store ← map_error (not_found_or Code.not_found) (find_store env store_id)
    if is_kyc store.kyc_status KycStatus.pending_verification
        then pure tt
        else wrapped (save_store env (set_kyc KycStatus.pending_verification store))

  -- `DeleteLicense`
  unfoldable pub delete_license : Uuid → Uuid → Uuid → M ⊤
  unfolding delete_in_tx reset_store
  delete_license user_id store_id k = do
    fail_if (user_id == 0) Code.validation
    fail_if (store_id == 0) Code.validation
    fail_if (k == 0) Code.validation
    allowed ← wrapped (user_has_role env user_id store_id deleting_roles)
    fail_if (not allowed) Code.forbidden
    license ← map_error (not_found_or Code.not_found) (find_license env k)
    fail_if (not (license.store_id == store_id)) Code.forbidden
    fail_if (not (is_deletable_license_status license.status)) Code.conflict
    wrapped (with_tx env (delete_in_tx license k))
    valid ← wrapped (count_valid_licenses env store_id)
    if valid == 0 then reset_store store_id else pure tt
