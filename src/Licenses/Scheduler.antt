-- ===== src/Licenses/Scheduler.antt =====
-- internal/schedulers/licenses/service.go: one round of the older scheduler of licenses.
use packfinderz_backend.Prelude.{
  ℕ, ◌*◌, ◌+◌, ◌-◌, ◌%◌, if◌then◌else◌, not, ◌&&◌, Option, some, none, List, select,
}
use packfinderz_backend.Enums.{LicenseStatus, KycStatus, EventType, is_license, is_kyc}
use packfinderz_backend.Errors.{driver, Result, ok, err}
use packfinderz_backend.Store.Tables.{Uuid, License, LicenseReason, Payload}
use packfinderz_backend.Store.Tx.{Call, Env, M, ⊤, pure, call, gets, for_each, with_tx, ◌>>=◌, ◌>>◌}
use packfinderz_backend.Store.Repo.{emit}
use packfinderz_backend.Licenses.{
  date_in, find_license, update_license_status, list_statuses, find_store, save_store, set_kyc,
}
use packfinderz_backend.Licenses.Service.{determine_store_kyc_status, license_event}

abbrev pub day : ℕ
day = 86400

-- `expiryWarningDays`
abbrev pub expiry_warning_days : ℕ
expiry_warning_days = 14

-- The midnight before a time, in UTC.
abbrev pub start_of_day : ℕ → ℕ
start_of_day t = t - t % day

-- A date that is given, as the emitted text names it.
abbrev pub date_or_zero : Option ℕ → ℕ
date_or_zero none = 0
date_or_zero (some d) = d

-- `process` goes on after an error, and reports one if there was any.
abbrev pub both : Result ⊤ → Result ⊤ → Result ⊤
both (ok u) (ok v) = ok tt
both (ok u) (err e) = err driver
both (err e) r = err driver

module _ (env : Env) where
  -- `FindExpiringBetween`, and what `FindExpiredByDate` and `FindExpiredInRange` come to.
  unfoldable pub find_dated : ℕ → ℕ → M (List License)
  find_dated from to = call env Call.list_licenses (
      gets λ w.
        select
          (λ l.
            date_in from to l.expiration_date && not (is_license l.status LicenseStatus.expired))
          w.tables.licenses)

  -- `emitWarning`
  unfoldable pub emit_warning : License → M ⊤
  emit_warning l = with_tx env (
      emit env (
        license_event env.now EventType.license_status_changed none
          (Payload.license_status_changed l.id l.store_id l.status
            (LicenseReason.expires_on (date_or_zero l.expiration_date)))
          l))

  -- `warnExpiring`
  unfoldable pub warn_expiring : M ⊤
  unfolding find_dated emit_warning
  warn_expiring = do
    let start = start_of_day (env.now + expiry_warning_days * day)
    licenses ← find_dated start (start + day)
    for_each licenses (emit_warning)

  -- `reconcileKYC`
  unfoldable pub reconcile_kyc : Uuid → M ⊤
  unfolding determine_store_kyc_status
  reconcile_kyc store_id = do
    statuses ← list_statuses env store_id
    let new_status = determine_store_kyc_status statuses
    if is_kyc new_status KycStatus.pending_verification then pure tt else do
      store ← find_store env store_id
      if is_kyc store.kyc_status new_status
          then pure tt
          else save_store env (set_kyc new_status store)

  -- The body of the transaction of `expireLicense`.
  unfoldable pub expire_in_tx : License → M ⊤
  unfolding reconcile_kyc
  expire_in_tx l = do
    current ← find_license env l.id
    if is_license current.status LicenseStatus.expired then pure tt else do
      update_license_status env l.id LicenseStatus.expired
      reconcile_kyc current.store_id
      emit env (
          license_event env.now EventType.license_status_changed none
            (Payload.license_status_changed l.id l.store_id LicenseStatus.expired
              LicenseReason.expired_by_scheduler)
            l)

  -- `expireLicense`
  unfoldable pub expire_license : License → M ⊤
  unfolding expire_in_tx
  expire_license l = with_tx env (expire_in_tx l)

  -- `expireLicenses`
  unfoldable pub expire_licenses : M ⊤
  unfolding find_dated expire_license
  expire_licenses = do
    let start = start_of_day env.now
    licenses ← find_dated start (start + day)
    for_each licenses (expire_license)

  -- `process`: the second step is made whatever the first one did.
  unfoldable pub process : M ⊤
  unfolding warn_expiring expire_licenses
  process w =
      let (r, w') = warn_expiring w in let (r', w'') = expire_licenses w' in (both r r', w'')
