-- ===== src/Licenses/Operations.antt =====
-- Whether an operation of the license service returns or fails, stores and licenses agree after it
-- if they did before.
use packfinderz_backend.Prelude.{
  ◌==◌, if◌then◌else◌, Bool, true, false, not, ◌&&◌, List, [], ◌∷◌, ◌≡◌, refl, ◌∙◌, sym, arith,
  count_if,
}
use packfinderz_backend.Enums.{
  LicenseStatus, LicenseStatus-discrete, KycStatus, KycStatus-discrete, is_license, is_kyc,
}
use packfinderz_backend.Store.Tables.{Uuid, Text, License, Tables, World}
use packfinderz_backend.Store.Rows.{find_key}
use packfinderz_backend.Store.Tx.{Env, pure, wrapped, ◌>>=◌}
use packfinderz_backend.Store.Post.{weaken-Post}
use packfinderz_backend.Store.Outcome.{
  Outcome, bind-Outcome, call-Outcome, gets-Outcome, pure-Outcome, or_raise-Outcome, modify-Outcome,
  if-Outcome, fail_if-Outcome, map_error-Outcome, with_tx-Outcome,
}
use packfinderz_backend.Media.{find_media}
use packfinderz_backend.Licenses.{
  find_license, find_store, save_store, set_kyc, user_has_role, count_valid_licenses,
}
use packfinderz_backend.Licenses.Service.{
  CreateLicenseInput, create_license, verify_license, delete_license, reset_store,
}
use packfinderz_backend.Licenses.Verified.{has_verified}
use packfinderz_backend.Licenses.Agrees.{Good, saved-Agrees}
use packfinderz_backend.Licenses.Keeps.{verify_in_tx-Good, create_in_tx-Good, delete_in_tx-Good}

abbrev Fine : Tables → Type 0
Fine = Good

pub decision-settled :
    (d : LicenseStatus)
    → (not (is_license d LicenseStatus.verified) && not (is_license d LicenseStatus.rejected))
      ≡ false
    → is_license d LicenseStatus.pending ≡ false
unfolding LicenseStatus-discrete
decision-settled LicenseStatus.pending h = cc
decision-settled LicenseStatus.verified h = refl
decision-settled LicenseStatus.rejected h = refl
decision-settled LicenseStatus.expired h = refl

none_valid :
    (s : Uuid) (ls : List License)
    → (count_if (λ l. l.store_id == s && is_license l.status LicenseStatus.verified) ls == 0) ≡ true
    → has_verified s ls ≡ false
none_valid s [] h = refl
none_valid s (l ∷ ls) h = ground (arith, none_valid s ls)

pending-unverified : is_kyc KycStatus.pending_verification KycStatus.verified ≡ false
unfolding KycStatus-discrete
pending-unverified = refl

new-unverified : is_license LicenseStatus.pending LicenseStatus.verified ≡ false
unfolding LicenseStatus-discrete
new-unverified = refl

pub unnegated : {b : Bool} → not b ≡ false → b ≡ true
unnegated {b = true} h = refl
unnegated {b = false} h = cc

module _ (env : Env) where
  pub verify_license-Good :
      (k : Uuid) (decision : LicenseStatus) (reason : Text) (w : World)
      → Good w.tables
      → Outcome (λ _ v. Good v.tables) Fine (verify_license env k decision reason w)
  unfolding verify_license
  verify_license-Good k decision reason w g = bind-Outcome Fine _ _ w (
      fail_if-Outcome Fine _ _ w g λ _. bind-Outcome Fine _ _ w (
        fail_if-Outcome Fine _ _ w g λ decided. map_error-Outcome Fine _ _ w (
          with_tx-Outcome Fine env _ w g
            (verify_in_tx-Good env k decision reason w (decision-settled decision decided) g))))

  pub create_license-Good :
      (user_id store_id : Uuid) (input : CreateLicenseInput) (w : World)
      → Good w.tables
      → Outcome (λ _ v. Good v.tables) Fine (create_license env user_id store_id input w)
  unfolding create_license user_has_role find_media
  create_license-Good user_id store_id input w g = bind-Outcome Fine _ _ w (
      fail_if-Outcome Fine _ _ w g λ _. bind-Outcome Fine _ _ w (
        fail_if-Outcome Fine _ _ w g λ _. bind-Outcome Fine _ _ w (
          fail_if-Outcome Fine _ _ w g λ _. bind-Outcome Fine _ _ w (
            fail_if-Outcome Fine _ _ w g λ _. bind-Outcome Fine _ _ w (
              fail_if-Outcome Fine _ _ w g λ _. bind-Outcome Fine _ _ w (
                fail_if-Outcome Fine _ _ w g λ _. bind-Outcome Fine _ _ w (
                  map_error-Outcome Fine _ _ w (
                    call-Outcome Fine env _ _ w g (
                      gets-Outcome Fine _ w (
                        bind-Outcome Fine _ _ w (
                          fail_if-Outcome Fine _ _ w g λ _. bind-Outcome Fine _ _ w (
                            map_error-Outcome Fine _ _ w (
                              call-Outcome Fine env _ _ w g (
                                or_raise-Outcome Fine _ _ w g λ media _. bind-Outcome Fine _ _ w (
                                  fail_if-Outcome Fine _ _ w g λ _. bind-Outcome Fine _ _ w (
                                    fail_if-Outcome Fine _ _ w g λ _. bind-Outcome Fine _ _ w (
                                      fail_if-Outcome Fine _ _ w g λ _.
                                        map_error-Outcome Fine _ _ w (
                                          with_tx-Outcome Fine env _ w g (
                                            create_in_tx-Good env _ _ w new-unverified
                                              g)))))))))))))))))))

  reset_store-Good :
      (s : Uuid) (w : World)
      → has_verified s w.tables.licenses ≡ false
      → Good w.tables
      → Outcome (λ _ v. Good v.tables) Fine (reset_store env s w)
  unfolding reset_store find_store save_store
  reset_store-Good s w bare g = bind-Outcome Fine _ _ w (
      map_error-Outcome Fine _ _ w (
        call-Outcome Fine env _ _ w g (
          or_raise-Outcome Fine _ _ w g λ row found.
            if-Outcome Fine (is_kyc row.kyc_status KycStatus.pending_verification) (pure tt)
              (wrapped (save_store env (set_kyc KycStatus.pending_verification row))) w
              (λ _. pure-Outcome Fine tt w g)
              λ _. map_error-Outcome Fine _ _ w (
                call-Outcome Fine env _ _ w g (
                  modify-Outcome Fine _ w (record {
                    agrees =
                        saved-Agrees s w.tables.stores w.tables.licenses w.tables.licenses
                          (set_kyc KycStatus.pending_verification row) row g.agrees (λ j n. refl)
                          (pending-unverified ∙ sym bare)
                          (find_key (λ r. r.id) s w.tables.stores found) found;
                    unique = g.unique;
                  }))))))

  -- The count of the verified licenses, and what follows from it.
  recount :
      (s : Uuid) (v : World)
      → Good v.tables
      → Outcome
          (λ _ u. Good u.tables)
          Fine
          ((wrapped (count_valid_licenses env s) >>= λ valid.
              if valid == 0 then reset_store env s else pure tt)
            v)
  unfolding count_valid_licenses
  recount s v g = bind-Outcome Fine _ _ v (
      map_error-Outcome Fine _ _ v (
        call-Outcome Fine env _ _ v g (
          gets-Outcome Fine _ v (
            if-Outcome Fine _ _ _ v
              (λ zero_. reset_store-Good s v (none_valid s v.tables.licenses zero_) g)
              (λ _. pure-Outcome Fine tt v g)))))

  pub delete_license-Good :
      (user_id store_id k : Uuid) (w : World)
      → Good w.tables
      → Outcome (λ _ v. Good v.tables) Fine (delete_license env user_id store_id k w)
  unfolding delete_license user_has_role find_license count_valid_licenses
  delete_license-Good user_id store_id k w g = bind-Outcome Fine _ _ w (
      fail_if-Outcome Fine _ _ w g λ _. bind-Outcome Fine _ _ w (
        fail_if-Outcome Fine _ _ w g λ _. bind-Outcome Fine _ _ w (
          fail_if-Outcome Fine _ _ w g λ _. bind-Outcome Fine _ _ w (
            map_error-Outcome Fine _ _ w (
              call-Outcome Fine env _ _ w g (
                gets-Outcome Fine _ w (
                  bind-Outcome Fine _ _ w (
                    fail_if-Outcome Fine _ _ w g λ _. bind-Outcome Fine _ _ w (
                      map_error-Outcome Fine _ _ w (
                        call-Outcome Fine env _ _ w g (
                          or_raise-Outcome Fine _ _ w g λ l found. bind-Outcome Fine _ _ w (
                            fail_if-Outcome Fine _ _ w g λ _. bind-Outcome Fine _ _ w (
                              fail_if-Outcome Fine _ _ w g λ old. bind-Outcome Fine _ _ w (
                                map_error-Outcome Fine _ _ w (
                                  with_tx-Outcome Fine env _ w g (
                                    weaken-Post _ (λ _ v h. recount store_id v h)
                                      (delete_in_tx-Good env l k w found (unnegated old)
                                        g)))))))))))))))))
