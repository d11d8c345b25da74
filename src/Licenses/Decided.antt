-- ===== src/Licenses/Decided.antt =====
-- What `DetermineStoreKYCStatus` and `VerifyLicense` come to.
use packfinderz_backend.Prelude.{
  if◌then◌else◌, Bool, true, false, ◌||◌, some, none, List, [], ◌∷◌, ◌++◌, ◌≡◌, refl, ◌∙◌, sym, ap,
  arith, eq_of_holds,
}
use packfinderz_backend.Enums.{
  LicenseStatus, LicenseStatus-discrete, KycStatus, KycStatus-discrete, is_license, is_kyc,
  EventType,
}
use packfinderz_backend.Errors.{ok}
use packfinderz_backend.Text.{trim_space}
use packfinderz_backend.Store.Tables.{
  OutboxEvent, Uuid, Text, License, StoreRow, World, LicenseReason, Payload,
}
use packfinderz_backend.Store.Rows.{update, find-update}
use packfinderz_backend.Store.Tx.{Env}
use packfinderz_backend.Store.Repo.{emit, stamped}
use packfinderz_backend.Store.Post.{
  Post, Post-ok, bind-Post, call-Post, gets-Post, pure-Post, or_raise-Post, modify-Post, if-Post,
  fail_if-Post, map_error-Post, weaken-Post, with_tx-Post,
}
use packfinderz_backend.Licenses.{
  license_row, set_status, set_kyc, statuses_of, find_license, update_license_status, list_statuses,
  find_store, update_store_status, set_licenses,
}
use packfinderz_backend.Licenses.Service.{
  kyc_loop, kyc_of_flags, determine_store_kyc_status, reconcile_store_kyc, verify_in_tx,
  verify_license, emit_license_status_event, license_event,
}
use packfinderz_backend.Licenses.Verified.{determine-settled}
use packfinderz_backend.Licenses.Agrees.{store_row}
use packfinderz_backend.Licenses.Keeps.{false-ne-true}
use packfinderz_backend.Licenses.Operations.{decision-settled, unnegated}

abbrev pub has : LicenseStatus → List LicenseStatus → Bool
has st [] = false
has st (s ∷ ss) = is_license s st || has st ss

-- The status of a store by the statuses of its licenses, in any order.
abbrev pub kyc_by_sets : List LicenseStatus → KycStatus
kyc_by_sets ss =
    if has LicenseStatus.verified ss
    then KycStatus.verified
    else kyc_of_flags (has LicenseStatus.expired ss) (has LicenseStatus.rejected ss)

loop_by_sets :
    (a b : Bool) (ss : List LicenseStatus)
    → kyc_loop a b ss ≡ (
        if has LicenseStatus.verified ss
        then KycStatus.verified
        else kyc_of_flags (a || has LicenseStatus.expired ss) (b || has LicenseStatus.rejected ss))
unfolding kyc_loop LicenseStatus-discrete
loop_by_sets a b [] = ground arith
loop_by_sets a b (LicenseStatus.verified ∷ ss) = refl
loop_by_sets a b (LicenseStatus.pending ∷ ss) = loop_by_sets a b ss
loop_by_sets a b (LicenseStatus.expired ∷ ss) = ground (arith, loop_by_sets true b ss)
loop_by_sets a b (LicenseStatus.rejected ∷ ss) = ground (arith, loop_by_sets a true ss)

-- The loop over the statuses of a store's licenses comes to `verified` if one of them is verified,
-- else to `rejected` if one is rejected, else to `expired` if one is expired, and else to
-- `pending_verification`.
pub determine_store_kyc_status_lem :
    (ss : List LicenseStatus)
    → determine_store_kyc_status ss ≡ (
        if has LicenseStatus.verified ss
        then KycStatus.verified
        else if has LicenseStatus.rejected ss
        then KycStatus.rejected
        else if has LicenseStatus.expired ss
        then KycStatus.expired
        else KycStatus.pending_verification)
unfolding determine_store_kyc_status
determine_store_kyc_status_lem ss = ground (arith, loop_by_sets false false ss)

-- The store has the status that its licenses determine.
abbrev pub Follows : Uuid → World → Type 0
Follows s v =
    (r : StoreRow)
    → store_row s v.tables.stores ≡ some r
    → r.kyc_status ≡ determine_store_kyc_status (statuses_of s v.tables.licenses)

module _ (env : Env) where
  reconcile_store_kyc-Post :
      (s : Uuid) (v : World)
      → is_kyc
          (determine_store_kyc_status (statuses_of s v.tables.licenses))
          KycStatus.pending_verification
        ≡ false
      → Post
          (λ _ u.
            (u.tables.licenses ≡ v.tables.licenses)
            × (u.tables.outbox ≡ v.tables.outbox)
            × Follows s u)
          (reconcile_store_kyc env s v)
  unfolding reconcile_store_kyc list_statuses find_store update_store_status
  reconcile_store_kyc-Post s v settled =
      let new = determine_store_kyc_status (statuses_of s v.tables.licenses) in
      bind-Post _ _ v (
        call-Post env _ _ v (
          gets-Post _ v (
            if-Post (is_kyc new KycStatus.pending_verification) _ _ v
              (λ pending. absurd (false-ne-true settled pending))
              λ _. bind-Post _ _ v (
                call-Post env _ _ v (
                  or_raise-Post _ _ v λ row found.
                    if-Post _ _ _ v
                      (λ same. pure-Post tt v (
                        refl,
                        refl,
                        λ r f.
                            let eq : row ≡ r = ground arith in
                            ap (λ (x : StoreRow). x.kyc_status) (sym eq)
                            ∙ eq_of_holds (KycStatus-discrete row.kyc_status new) same,
                      ))
                      (λ _. call-Post env _ _ v (
                        modify-Post _ v (
                          refl,
                          refl,
                          λ r f.
                              let moved =
                                find-update (λ x. x.id) (set_kyc new) (λ x. refl) s s
                                  v.tables.stores in
                              let eq : set_kyc new row ≡ r = ground arith in
                              ap (λ (x : StoreRow). x.kyc_status) (sym eq),
                        ))))))))

  -- The row that the event of a verification is stored as.
  abbrev pub decided_event : License → LicenseStatus → Text → OutboxEvent
  decided_event l decision reason = stamped env.now (
      license_event 0 EventType.license_status_changed none
        (Payload.license_status_changed l.id l.store_id decision
          (LicenseReason.given (trim_space reason)))
        l)

  -- What a verification has found and done.
  abbrev pub IsVerified : Uuid → LicenseStatus → Text → World → License → World → Type 0
  IsVerified k decision reason w l v =
      (old : License) × (license_row k w.tables.licenses ≡ some old)
      × (is_license old.status LicenseStatus.pending ≡ true)
      × (l ≡ set_status decision old)
      × (v.tables.licenses ≡ update (λ x. x.id) k (set_status decision) w.tables.licenses)
      × (v.tables.outbox ≡ w.tables.outbox ++ decided_event l decision reason ∷ [])
      × Follows l.store_id v

  verify_in_tx-Post :
      (k : Uuid) (decision : LicenseStatus) (reason : Text) (w : World)
      → is_license decision LicenseStatus.pending ≡ false
      → Post (λ l v. IsVerified k decision reason w l v) (verify_in_tx env k decision reason w)
  unfolding verify_in_tx find_license update_license_status emit_license_status_event emit
  verify_in_tx-Post k decision reason w decided = bind-Post _ _ w (
      map_error-Post _ _ w (
        call-Post env _ _ w (
          or_raise-Post _ _ w λ l found. bind-Post _ _ w (
            fail_if-Post _ _ w λ pending. bind-Post _ _ w (
              call-Post env _ _ w (
                modify-Post _ w (
                  let v = set_licenses (update (λ x. x.id) k (set_status decision)) w in
                  bind-Post _ _ v (
                    weaken-Post _
                      (λ _ u h. bind-Post _ _ u (
                        call-Post env _ _ u (
                          modify-Post _ u (
                            pure-Post _ _ (
                              l,
                              found,
                              unnegated pending,
                              refl,
                              h.0,
                              ap
                                  (λ es.
                                    es
                                    ++ decided_event (set_status decision l) decision reason ∷ [])
                                  h.1,
                              h.2,
                            )))))
                      (reconcile_store_kyc-Post l.store_id v
                        (determine-settled k decision w.tables.licenses found decided))))))))))

  verify_license-Post :
      (k : Uuid) (decision : LicenseStatus) (reason : Text) (w : World)
      → Post
          (λ l v.
            ((is_license decision LicenseStatus.verified
                || is_license decision LicenseStatus.rejected)
              ≡ true)
            × IsVerified k decision reason w l v)
          (verify_license env k decision reason w)
  unfolding verify_license
  verify_license-Post k decision reason w = bind-Post _ _ w (
      fail_if-Post _ _ w λ _. bind-Post _ _ w (
        fail_if-Post _ _ w λ decided. map_error-Post _ _ w (
          with_tx-Post env _ w (
            weaken-Post _ (λ l v h. (ground arith, h))
              (verify_in_tx-Post k decision reason w (decision-settled decision decided))))))

  -- A verification that reports success was of a license that was pending, with a decision that is
  -- `verified` or `rejected`: it gives the license that status and changes no other, appends one
  -- event that says so with the trimmed reason, and leaves the license's store with the KYC status
  -- that the statuses of all its licenses determine.
  pub verify_license_ok :
      (k : Uuid) (decision : LicenseStatus) (reason : Text) (w : World) {l : License}
      → (verify_license env k decision reason w).0 ≡ ok l
      → ((is_license decision LicenseStatus.verified || is_license decision LicenseStatus.rejected)
          ≡ true)
        × IsVerified k decision reason w l (verify_license env k decision reason w).1
  verify_license_ok k decision reason w h =
      Post-ok (verify_license env k decision reason w) (verify_license-Post k decision reason w) h
