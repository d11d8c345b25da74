-- ===== src/Cron/LicenseLifecycle.antt =====
-- internal/cron/license_job.go: licenses are announced fourteen days before they expire, expire,
-- and are deleted thirty days later.
use packfinderz_backend.Prelude.{
  ℕ, ◌*◌, ◌+◌, ◌==◌, leb, ltb, Bool, false, true, if◌then◌else◌, not, ◌&&◌, Option, some, none,
  List, select,
}
use packfinderz_backend.Enums.{LicenseStatus, EventType, AggregateType, is_license}
use packfinderz_backend.Store.Tables.{Uuid, License, Payload, World, Media}
use packfinderz_backend.Store.Tx.{
  Call, Env, M, ⊤, pure, call, gets, modify, for_each, with_tx, ◌>>=◌, ◌>>◌,
}
use packfinderz_backend.Store.Repo.{emit, outbox_exists}
use packfinderz_backend.Media.{list_by_media_id, delete_attachment}
use packfinderz_backend.Licenses.{
  update_license_status, delete_license_row, list_statuses, update_store_status,
}
use packfinderz_backend.Licenses.Service.{determine_store_kyc_status, license_event}
use packfinderz_backend.Licenses.Scheduler.{
  day, expiry_warning_days, start_of_day, date_or_zero, find_dated,
}
use packfinderz_backend.Cron.OrderTtl.{combine}

-- `expirationWindowDays`
abbrev pub expiration_window_days : ℕ
expiration_window_days = 30

-- `deletionAgeDays`
abbrev pub deletion_age_days : ℕ
deletion_age_days = 30

-- `lic.Status != verified || lic.ExpirationDate == nil`, negated
abbrev pub is_dated_and_verified : License → Bool
is_dated_and_verified l =
    is_license l.status LicenseStatus.verified
    && (elim l.expiration_date [ some d ↦ true | none ↦ false ])

-- The date is in [now - age, now); the age is added to the date here.
abbrev pub expired_within : ℕ → ℕ → Option ℕ → Bool
expired_within age now none = false
expired_within age now (some d) = leb now (d + age) && ltb d now

abbrev pub expired_for : ℕ → ℕ → Option ℕ → Bool
expired_for age now none = false
expired_for age now (some d) = leb (d + age) now

abbrev pub set_media : (List Media → List Media) → World → World
set_media f w = record w { tables = record (w.tables) { media = f w.tables.media } }

module _ (env : Env) where
  -- `FindExpiredInRange`
  unfoldable pub find_expired_in_range : ℕ → M (List License)
  find_expired_in_range age = call env Call.list_licenses (
      gets λ w.
        select
          (λ l.
            expired_within age env.now l.expiration_date
            && not (is_license l.status LicenseStatus.expired))
          w.tables.licenses)

  -- `FindExpiredBefore`
  unfoldable pub find_expired_before : ℕ → M (List License)
  find_expired_before age = call env Call.list_licenses (
      gets λ w.
        select
          (λ l.
            expired_for age env.now l.expiration_date && is_license l.status LicenseStatus.expired)
          w.tables.licenses)

  -- One round of the loop of `warnExpiring`.
  unfoldable pub warn_license : License → M ⊤
  warn_license l = if not (is_dated_and_verified l) then pure tt else do
    exists ← outbox_exists env EventType.license_expiring_soon AggregateType.license l.id
    if exists
        then pure tt
        else with_tx env (
            emit env (
              license_event env.now EventType.license_expiring_soon none
                (Payload.license_expiring_soon l.id l.store_id (date_or_zero l.expiration_date)
                  expiry_warning_days)
                l))

  -- `warnExpiring`
  unfoldable pub warn_expiring : M ⊤
  unfolding warn_license find_dated
  warn_expiring = do
    let start = start_of_day (env.now + expiry_warning_days * day)
    licenses ← find_dated env start (start + day)
    for_each licenses (warn_license)

  -- The statuses that a store's licenses have make its KYC status.
  unfoldable pub recompute_store : Uuid → M ⊤
  unfolding determine_store_kyc_status
  recompute_store store_id = do
    statuses ← list_statuses env store_id
    update_store_status env store_id (determine_store_kyc_status statuses)

  -- The body of the transaction of `expireLicense`.
  unfoldable pub expire_in_tx : License → M ⊤
  unfolding recompute_store
  expire_in_tx l = do
    update_license_status env l.id LicenseStatus.expired
    recompute_store l.store_id
    emit env (
        license_event env.now EventType.license_expired none
          (Payload.license_expired l.id l.store_id (date_or_zero l.expiration_date) env.now) l)

  -- `expireLicense`
  unfoldable pub expire_license : License → M ⊤
  unfolding expire_in_tx
  expire_license l = with_tx env (expire_in_tx l)

  -- One round of the loop of `expireLicenses`.
  unfoldable pub expire_round : License → M ⊤
  unfolding expire_license
  expire_round l = if not (is_dated_and_verified l) then pure tt else expire_license l

  -- `expireLicenses`
  unfoldable pub expire_licenses : M ⊤
  unfolding find_expired_in_range expire_round
  expire_licenses = do
    licenses ← find_expired_in_range (expiration_window_days * day)
    for_each licenses (expire_round)

  unfoldable pub delete_media : Uuid → M ⊤
  delete_media k = call env (Call.delete_media k) (modify (set_media (select λ m. not (m.id == k))))

  -- The object store is another service: what it holds is no part of the tables.
  unfoldable pub delete_object : Uuid → M ⊤
  delete_object key = call env (Call.delete_object key) (pure tt)

  -- The body of the transaction of `deleteLicense`; a key of 0 is an empty one.
  unfoldable pub delete_in_tx : License → M ⊤
  unfolding recompute_store delete_media delete_object
  delete_in_tx l = do
    attachments ← list_by_media_id env l.media_id
    for_each attachments (λ a. delete_attachment env a.entity_type a.entity_id a.media_id)
    if l.gcs_key == 0 then pure tt else delete_object l.gcs_key
    delete_license_row env l.id
    delete_media l.media_id
    recompute_store l.store_id

  -- `deleteLicense`
  unfoldable pub delete_license : License → M ⊤
  unfolding delete_in_tx
  delete_license l = with_tx env (delete_in_tx l)

  -- `deleteExpired`
  unfoldable pub delete_expired : M ⊤
  unfolding find_expired_before delete_license
  delete_expired = do
    licenses ← find_expired_before (deletion_age_days * day)
    for_each licenses (delete_license)

  -- `Run`: each step is made whatever the ones before did.
  unfoldable pub run_license_lifecycle : M ⊤
  unfolding warn_expiring expire_licenses delete_expired
  run_license_lifecycle w =
      let (r, w1) = warn_expiring w in
      let (r', w2) = expire_licenses w1 in
      let (r'', w3) = delete_expired w2 in (combine (combine r r') r'', w3)
