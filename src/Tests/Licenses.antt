-- ===== src/Tests/Licenses.antt =====
-- Runs of the license service and its jobs, of the reconciler of attachments, and of lists by page.
use packfinderz_backend.Prelude.{
  inl, inr, Bool-cases, ℕ, ◌==◌, ◌+◌, ◌<◌, true, Bool, ◌||◌, if◌then◌else◌, none, some, List, [],
  ◌∷◌, ◌≡◌, refl, arith, pos, length, count_if,
}
use packfinderz_backend.Enums.{
  LicenseStatus, LicenseType, KycStatus, MediaStatus, LicenseStatus-discrete, KycStatus-discrete,
  is_license,
}
use packfinderz_backend.Errors.{ok}
use packfinderz_backend.Store.Tables.{License, World, EntityType}
use packfinderz_backend.Store.Tx.{with_tx, call, for_each, ◌>>=◌}
use packfinderz_backend.Store.Repo.{emit}
use packfinderz_backend.Media.{
  reconcile, attach, find_media, create_attachment, delete_attachment, dedupe, difference, sort_ids,
}
use packfinderz_backend.Media.Reconciled.{reconcile_ok, Reconciled}
use packfinderz_backend.Licenses.{
  find_license, update_license_status, list_statuses, find_store, update_store_status,
}
use packfinderz_backend.Licenses.Service.{
  verify_license, verify_in_tx, determine_store_kyc_status, reconcile_store_kyc,
}
use packfinderz_backend.Licenses.Decided.{
  determine_store_kyc_status_lem, verify_license_ok, IsVerified, has,
}
use packfinderz_backend.Licenses.Agrees.{Good}
use packfinderz_backend.Licenses.Run.{LicenseOp, LicenseReach, step}
use packfinderz_backend.Licenses.Kyc.{Reach-Good}
use packfinderz_backend.Licenses.Listing.{license_key}
use packfinderz_backend.Pages.{
  normalize_limit, limit_with_buffer, list_rows, order_desc, license_page, cut_license_page,
}
use packfinderz_backend.Pages.Order.{Descends}
use packfinderz_backend.Pages.Walk.{walk, walk_lem, concat}
use packfinderz_backend.Pages.Skips.{license_walk, license_walk_lem}
use packfinderz_backend.Tests.Data.{quiet, pending_world, a_store}

-- A license of store 6, which expires on a day long before.
abbrev a_license : ℕ → LicenseStatus → License
a_license k s = record {
  id = k;
  store_id = 6;
  user_id = 9;
  status = s;
  media_id = 70;
  gcs_key = 1;
  issuing_state = b'C' ∷ b'A' ∷ [];
  issue_date = none;
  expiration_date = some 1000;
  type = LicenseType.grower;
  number = b'1' ∷ [];
  created_at = 10 + k;
}

abbrev licensed_world : World
licensed_world = record pending_world {
  tables = record (pending_world.tables) {
    stores = a_store 6 KycStatus.pending_verification ∷ [];
    licenses = a_license 1 LicenseStatus.pending ∷ a_license 2 LicenseStatus.rejected ∷ [];
    media =
        record {
          id = 70;
          store_id = 6;
          status = MediaStatus.ready;
          gcs_key = 1;
          mime_type = [];
          public_url = 0;
        }
        ∷ [];
  };
}

licensed-Good : Good licensed_world.tables
unfolding KycStatus-discrete LicenseStatus-discrete
licensed-Good = record {
  agrees = λ k r f. elim (Bool-cases (6 == k)) [
    | inl hit ↦
        let same : a_store 6 KycStatus.pending_verification ≡ r = ground arith in
        rw (← same) (rw hit refl)
    | inr miss ↦ cc (rw miss at f)
  ];
  unique = (refl, (refl, tt));
}

-- The license is verified, and with it the store.
verified_store :
    (verify_license quiet 1 LicenseStatus.verified [] licensed_world).1.tables.stores
    ≡ a_store 6 KycStatus.verified ∷ []
unfolding verify_license verify_in_tx with_tx call find_license update_license_status
    reconcile_store_kyc list_statuses determine_store_kyc_status find_store update_store_status emit
    ◌>>=◌ LicenseStatus-discrete KycStatus-discrete
verified_store = refl

verify_returns :
    (verify_license quiet 1 LicenseStatus.verified [] licensed_world).0
    ≡ ok (a_license 1 LicenseStatus.verified)
unfolding verify_license verify_in_tx with_tx call find_license update_license_status
    reconcile_store_kyc list_statuses determine_store_kyc_status find_store update_store_status emit
    ◌>>=◌ LicenseStatus-discrete KycStatus-discrete
verify_returns = refl

verify_license_ok_example :
    ((is_license LicenseStatus.verified LicenseStatus.verified
        || is_license LicenseStatus.verified LicenseStatus.rejected)
      ≡ true)
    × IsVerified quiet 1 LicenseStatus.verified [] licensed_world
        (a_license 1 LicenseStatus.verified)
        (verify_license quiet 1 LicenseStatus.verified [] licensed_world).1
verify_license_ok_example =
    verify_license_ok quiet 1 LicenseStatus.verified [] licensed_world verify_returns

-- The license is verified, and then the job of the cron worker expires and deletes it.
abbrev two_steps : LicenseReach licensed_world (
    step quiet LicenseOp.lifecycle
      (step quiet (LicenseOp.verify 1 LicenseStatus.verified []) licensed_world))
two_steps =
    LicenseReach.next
      (LicenseReach.next LicenseReach.here quiet (LicenseOp.verify 1 LicenseStatus.verified []))
      quiet LicenseOp.lifecycle

Reach-Good_example :
    Good
      (step quiet LicenseOp.lifecycle
        (step quiet (LicenseOp.verify 1 LicenseStatus.verified []) licensed_world)).tables
Reach-Good_example = Reach-Good licensed_world two_steps licensed-Good

determine_store_kyc_status_lem_example :
    determine_store_kyc_status (LicenseStatus.expired ∷ LicenseStatus.rejected ∷ []) ≡ (
      if has LicenseStatus.verified (LicenseStatus.expired ∷ LicenseStatus.rejected ∷ [])
      then KycStatus.verified
      else if has LicenseStatus.rejected (LicenseStatus.expired ∷ LicenseStatus.rejected ∷ [])
      then KycStatus.rejected
      else if has LicenseStatus.expired (LicenseStatus.expired ∷ LicenseStatus.rejected ∷ [])
      then KycStatus.expired
      else KycStatus.pending_verification)
determine_store_kyc_status_lem_example =
    determine_store_kyc_status_lem (LicenseStatus.expired ∷ LicenseStatus.rejected ∷ [])

-- A new license gets its medium.
reconciled : (reconcile quiet EntityType.license 2 6 [] (70 ∷ 70 ∷ 0 ∷ []) licensed_world).0 ≡ ok tt
unfolding reconcile dedupe difference sort_ids attach find_media create_attachment delete_attachment
    for_each call ◌>>=◌
reconciled = refl

reconcile_ok_example :
    Reconciled quiet EntityType.license 2 6 []
      (70 ∷ 70 ∷ 0 ∷ [])
      licensed_world
      (reconcile quiet EntityType.license 2 6 [] (70 ∷ 70 ∷ 0 ∷ []) licensed_world).1
reconcile_ok_example =
    reconcile_ok quiet EntityType.license 2 6 [] (70 ∷ 70 ∷ 0 ∷ []) licensed_world reconciled

-- Three licenses, one to a page.
abbrev three_licenses : List License
three_licenses =
    a_license 1 LicenseStatus.pending
    ∷ a_license 3 LicenseStatus.pending
    ∷ a_license 2 LicenseStatus.pending
    ∷ []

-- The second of them is on no page.
second_is_skipped :
    license_walk license_key 4 (pos 1) none three_licenses
    ≡ (a_license 3 LicenseStatus.pending ∷ []) ∷ (a_license 1 LicenseStatus.pending ∷ []) ∷ []
unfolding license_walk license_page cut_license_page list_rows order_desc limit_with_buffer
    normalize_limit
second_is_skipped = refl

walk_lem_example :
    Descends license_key (concat (walk license_key 4 (pos 1) none three_licenses))
    × ((p : License → Bool)
        → count_if p (concat (walk license_key 4 (pos 1) none three_licenses))
          ≡ count_if p three_licenses)
walk_lem_example =
    walk_lem license_key (pos 1) three_licenses ((refl, (refl, tt)), ((refl, tt), (tt, tt)))

license_walk_lem_example :
    (length (concat (license_walk license_key 4 (pos 1) none three_licenses))
        + length (license_walk license_key 4 (pos 1) none three_licenses)
      ≡ 4)
    × (0 < length (license_walk license_key 4 (pos 1) none three_licenses))
license_walk_lem_example =
    license_walk_lem license_key (pos 1) three_licenses ((refl, (refl, tt)), ((refl, tt), (tt, tt)))
