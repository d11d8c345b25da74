-- ===== src/Licenses/Scheduled.antt =====
-- The scheduler keeps stores and licenses in agreement, whatever fails.
use packfinderz_backend.Prelude.{◌==◌, false, List, ◌≡◌, refl, eq_of_holds}
use packfinderz_backend.Enums.{
  LicenseStatus, LicenseStatus-discrete, KycStatus, KycStatus-discrete, is_license, is_kyc,
}
use packfinderz_backend.Store.Tables.{Uuid, License, Tables, World}
use packfinderz_backend.Store.Rows.{update, find_key}
use packfinderz_backend.Store.Tx.{Env}
use packfinderz_backend.Store.Post.{
  Post, bind-Post, call-Post, gets-Post, pure-Post, or_raise-Post, modify-Post, if-Post,
  weaken-Post,
}
use packfinderz_backend.Store.Outcome.{
  Outcome, bind-Outcome, call-Outcome, gets-Outcome, with_tx-Outcome, for_each-Outcome,
  Outcome-tables,
}
use packfinderz_backend.Licenses.{
  set_licenses, set_status, set_kyc, statuses_of, find_license, update_license_status,
  list_statuses, find_store, save_store,
}
use packfinderz_backend.Licenses.Service.{determine_store_kyc_status}
use packfinderz_backend.Licenses.Verified.{
  has_verified, determine-verified, determine-settled, has_verified-update,
}
use packfinderz_backend.Licenses.Unique.{Unique, update-Unique, found-SameStore}
use packfinderz_backend.Licenses.Agrees.{Agrees, Good, settled-Agrees, saved-Agrees}
use packfinderz_backend.Licenses.Keeps.{emit-Good, false-ne-true}
use packfinderz_backend.Licenses.Scheduler

abbrev Fine : Tables → Type 0
Fine = Good

expired-settled : is_license LicenseStatus.expired LicenseStatus.pending ≡ false
unfolding LicenseStatus-discrete
expired-settled = refl

module _ (env : Env) where
  -- The scheduler's version, which saves the row that it read.
  reconcile_kyc-Good :
      (s : Uuid) (ls : List License) (v : World)
      → Agrees v.tables.stores ls
      → ((j : Uuid) → (s == j) ≡ false → has_verified j v.tables.licenses ≡ has_verified j ls)
      → Unique v.tables.licenses
      → is_kyc
          (determine_store_kyc_status (statuses_of s v.tables.licenses))
          KycStatus.pending_verification
        ≡ false
      → Post (λ _ u. Good u.tables) (Scheduler.reconcile_kyc env s v)
  unfolding Scheduler.reconcile_kyc list_statuses find_store save_store
  reconcile_kyc-Good s ls v before others unique settled =
      let new = determine_store_kyc_status (statuses_of s v.tables.licenses) in
      let right = determine-verified s v.tables.licenses in
      bind-Post _ _ v (
        call-Post env _ _ v (
          gets-Post _ v (
            if-Post (is_kyc new KycStatus.pending_verification) _ _ v
              (λ pending. absurd (false-ne-true settled pending))
              λ _. bind-Post _ _ v (
                call-Post env _ _ v (
                  or_raise-Post _ _ v λ row found.
                    if-Post _ _ _ v
                      (λ same. pure-Post tt v (record {
                        agrees =
                            settled-Agrees s v.tables.stores ls v.tables.licenses new before others
                              right found
                              (eq_of_holds (KycStatus-discrete row.kyc_status new) same);
                        unique = unique;
                      }))
                      (λ _. call-Post env _ _ v (
                        modify-Post _ v (record {
                          agrees =
                              saved-Agrees s v.tables.stores ls v.tables.licenses (set_kyc new row)
                                row before others right
                                (find_key (λ r. r.id) s v.tables.stores found) found;
                          unique = unique;
                        }))))))))

  scheduler_expire-Good :
      (l : License) (w : World)
      → Good w.tables
      → Post (λ _ v. Good v.tables) (Scheduler.expire_in_tx env l w)
  unfolding Scheduler.expire_in_tx find_license update_license_status
  scheduler_expire-Good l w g = bind-Post _ _ w (
      call-Post env _ _ w (
        or_raise-Post _ _ w λ current found.
          if-Post (is_license current.status LicenseStatus.expired) _ _ w (λ _. pure-Post tt w g)
            λ _. bind-Post _ _ w (
              call-Post env _ _ w (
                modify-Post _ w (
                  let same = found-SameStore l.id w.tables.licenses g.unique found in
                  let v =
                    set_licenses (update (λ x. x.id) l.id (set_status LicenseStatus.expired)) w in
                  bind-Post _ _ v (
                    weaken-Post _ (λ _ u h. emit-Good env _ u h)
                      (reconcile_kyc-Good current.store_id w.tables.licenses v g.agrees
                        (λ j n.
                          has_verified-update l.id current.store_id j LicenseStatus.expired
                            w.tables.licenses same n)
                        (update-Unique l.id LicenseStatus.expired w.tables.licenses g.unique)
                        (determine-settled l.id LicenseStatus.expired w.tables.licenses found
                          expired-settled))))))))

  pub scheduler_warn-Good :
      (w : World)
      → Good w.tables
      → Outcome (λ _ v. Good v.tables) Fine (Scheduler.warn_expiring env w)
  unfolding Scheduler.warn_expiring Scheduler.find_dated Scheduler.emit_warning
  scheduler_warn-Good w g = bind-Outcome Fine _ _ w (
      call-Outcome Fine env _ _ w g (
        gets-Outcome Fine _ w (
          for_each-Outcome Fine (λ _ v. Good v.tables) _
            (λ l rest v h. with_tx-Outcome Fine env _ v h (emit-Good env _ v h)) _ w g)))

  pub scheduler_expire_all-Good :
      (w : World)
      → Good w.tables
      → Outcome (λ _ v. Good v.tables) Fine (Scheduler.expire_licenses env w)
  unfolding Scheduler.expire_licenses Scheduler.find_dated Scheduler.expire_license
  scheduler_expire_all-Good w g = bind-Outcome Fine _ _ w (
      call-Outcome Fine env _ _ w g (
        gets-Outcome Fine _ w (
          for_each-Outcome Fine (λ _ v. Good v.tables) _
            (λ l rest v h. with_tx-Outcome Fine env _ v h (scheduler_expire-Good l v h)) _ w g)))

  -- One round of the scheduler.
  pub process-Good : (w : World) → Good w.tables → Good (Scheduler.process env w).1.tables
  unfolding Scheduler.process
  process-Good w g =
      let h = Outcome-tables Fine (Scheduler.warn_expiring env w) (scheduler_warn-Good w g) in
      Outcome-tables Fine (Scheduler.expire_licenses env (Scheduler.warn_expiring env w).1)
        (scheduler_expire_all-Good (Scheduler.warn_expiring env w).1 h)
