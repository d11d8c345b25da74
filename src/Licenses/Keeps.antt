-- ===== src/Licenses/Keeps.antt =====
-- The license service keeps stores and licenses in agreement, operation by operation.
use packfinderz_backend.Prelude.{
  ◌==◌, Bool, true, false, Option, some, none, List, [], ◌∷◌, ◌++◌, ◌≡◌, refl, ◌∙◌, sym, ap,
  Option-cases, inl, inr, eq_of_holds, Option-cases,
}
use mathlib.Core.Path.{subst}
use packfinderz_backend.Enums.{
  LicenseStatus, LicenseStatus-discrete, KycStatus, KycStatus-discrete, is_license, is_kyc,
}
use packfinderz_backend.Store.Tables.{Uuid, Text, License, Tables, World, OutboxEvent, ActorRef}
use packfinderz_backend.Store.Rows.{update}
use packfinderz_backend.Store.Tx.{Env}
use packfinderz_backend.Store.Repo.{emit}
use packfinderz_backend.Store.Post.{
  Post, bind-Post, call-Post, gets-Post, pure-Post, or_raise-Post, modify-Post, if-Post,
  fail_if-Post, map_error-Post, weaken-Post,
}
use packfinderz_backend.Media.Reconciled.{reconcile-Post, Elsewhere}
use packfinderz_backend.Licenses.{
  license_row, set_status, statuses_of, find_license, create_license_row, update_license_status,
  delete_license_row, list_statuses, find_store, update_store_status, set_licenses,
}
use packfinderz_backend.Licenses.Service.{
  determine_store_kyc_status, reconcile_store_kyc, verify_in_tx, create_in_tx, delete_in_tx,
  emit_license_status_event, is_deletable_license_status,
}
use packfinderz_backend.Licenses.Verified.{
  has_verified, determine-verified, determine-settled, has_verified-update, has_verified-append,
}
use packfinderz_backend.Licenses.Unique.{
  Unique, update-Unique, remove-Unique, append-Unique, found-SameStore, remove_unverified,
}
use packfinderz_backend.Licenses.Agrees.{Agrees, Good, recomputed-Agrees, settled-Agrees}

-- Two tables with the same stores and licenses.
pub Good-same : (t t' : Tables) → t'.stores ≡ t.stores → t'.licenses ≡ t.licenses → Good t → Good t'
Good-same t t' s l g = record {
  agrees =
      subst (λ x. Agrees x t'.licenses) (sym s) (subst (λ x. Agrees t.stores x) (sym l) g.agrees);
  unique = subst (λ x. Unique x) (sym l) g.unique;
}

pub Good-Elsewhere : (t : Tables) (v : World) → Elsewhere t v → Good t → Good v.tables
Good-Elsewhere t v e g =
    Good-same t v.tables (ap (λ (x : Tables). x.stores) e) (ap (λ (x : Tables). x.licenses) e) g

pub emit-Good :
    (env : Env) (e : OutboxEvent) (v : World)
    → Good v.tables
    → Post (λ _ u. Good u.tables) (emit env e v)
unfolding emit
emit-Good env e v g =
    call-Post env _ _ v (modify-Post _ v (record { agrees = g.agrees; unique = g.unique }))

pub false-ne-true : {b : Bool} → b ≡ false → b ≡ true → ⊥
false-ne-true e f = cc

deletable_unverified :
    (st : LicenseStatus)
    → is_deletable_license_status st ≡ true
    → is_license st LicenseStatus.verified ≡ false
unfolding LicenseStatus-discrete
deletable_unverified LicenseStatus.pending h = refl
deletable_unverified LicenseStatus.verified h = cc
deletable_unverified LicenseStatus.rejected h = refl
deletable_unverified LicenseStatus.expired h = refl

module _ (env : Env) where
  -- The new row stands last, under an identifier that no license had.
  pub create_license_row-Post :
      {Q : License → World → Type 0} (l : License) (w : World)
      → let row = record l { id = env.fresh 1; created_at = env.now } in
        (license_row row.id w.tables.licenses ≡ none
          → Q row (set_licenses (λ ls. ls ++ row ∷ []) w))
        → Post Q (create_license_row env l w)
  unfolding create_license_row
  create_license_row-Post l w q =
      call-Post env _ _ w (elim (Option-cases (license_row (env.fresh 1) w.tables.licenses)) [
        | inl new ↦ rw new (record { on = q new })
        | inr (old, taken) ↦ rw taken (record { on = tt })
      ])

  -- A license of the store was given a status that is not pending; the others' standing is as
  -- it was.
  reconcile_store_kyc-Good :
      (s : Uuid) (ls : List License) (v : World)
      → Agrees v.tables.stores ls
      → ((j : Uuid) → (s == j) ≡ false → has_verified j v.tables.licenses ≡ has_verified j ls)
      → Unique v.tables.licenses
      → is_kyc
          (determine_store_kyc_status (statuses_of s v.tables.licenses))
          KycStatus.pending_verification
        ≡ false
      → Post (λ _ u. Good u.tables) (reconcile_store_kyc env s v)
  unfolding reconcile_store_kyc list_statuses find_store update_store_status
  reconcile_store_kyc-Good s ls v before others unique settled =
      let new = determine_store_kyc_status (statuses_of s v.tables.licenses) in
      let right = determine-verified s v.tables.licenses in
      bind-Post _ _ v (
        call-Post env _ _ v (
          gets-Post _ v (
            if-Post (is_kyc new KycStatus.pending_verification) _ _ v
              (λ pending. absurd (false-ne-true settled pending))
              λ _. bind-Post _ _ v (
                call-Post env _ _ v (
                  or_raise-Post _ _ v λ row found.
                    if-Post _ _ _ v
                      (λ same. pure-Post tt v (record {
                        agrees =
                            settled-Agrees s v.tables.stores ls v.tables.licenses new before others
                              right found
                              (eq_of_holds (KycStatus-discrete row.kyc_status new) same);
                        unique = unique;
                      }))
                      (λ _. call-Post env _ _ v (
                        modify-Post _ v (record {
                          agrees =
                              recomputed-Agrees s v.tables.stores ls v.tables.licenses new before
                                others right;
                          unique = unique;
                        }))))))))

  pub verify_in_tx-Good :
      (k : Uuid) (decision : LicenseStatus) (reason : Text) (w : World)
      → is_license decision LicenseStatus.pending ≡ false
      → Good w.tables
      → Post (λ _ v. Good v.tables) (verify_in_tx env k decision reason w)
  unfolding verify_in_tx find_license update_license_status emit_license_status_event
  verify_in_tx-Good k decision reason w decided g = bind-Post _ _ w (
      map_error-Post _ _ w (
        call-Post env _ _ w (
          or_raise-Post _ _ w λ l found. bind-Post _ _ w (
            fail_if-Post _ _ w λ _. bind-Post _ _ w (
              call-Post env _ _ w (
                modify-Post _ w (
                  let same = found-SameStore k w.tables.licenses g.unique found in
                  let v = set_licenses (update (λ x. x.id) k (set_status decision)) w in
                  bind-Post _ _ v (
                    weaken-Post _
                      (λ _ u h.
                        bind-Post _ _ u
                          (weaken-Post _ (λ _ u' h'. pure-Post _ u' h') (emit-Good env _ u h)))
                      (reconcile_store_kyc-Good l.store_id w.tables.licenses v g.agrees
                        (λ j n.
                          has_verified-update k l.store_id j decision w.tables.licenses same n)
                        (update-Unique k decision w.tables.licenses g.unique)
                        (determine-settled k decision w.tables.licenses found decided))))))))))

  pub create_in_tx-Good :
      (l : License) (actor : Option ActorRef) (w : World)
      → is_license l.status LicenseStatus.verified ≡ false
      → Good w.tables
      → Post (λ _ v. Good v.tables) (create_in_tx env l actor w)
  unfolding create_in_tx emit_license_status_event
  create_in_tx-Good l actor w fresh g = bind-Post _ _ w (
      create_license_row-Post l w λ absent.
        let row = record l { id = env.fresh 1; created_at = env.now } in
        let v = set_licenses (λ ls. ls ++ row ∷ []) w in
        let g' : Good v.tables = record {
          agrees =
              λ j r f. g.agrees j r f ∙ sym (has_verified-append j w.tables.licenses row fresh);
          unique = append-Unique row w.tables.licenses g.unique absent;
        } in
        bind-Post _ _ v (
          reconcile-Post env _ _ _ _ _ v λ u e. bind-Post _ _ u (
            weaken-Post _ (λ _ u' h'. pure-Post _ u' h')
              (emit-Good env _ u (Good-Elsewhere v.tables u e g')))))

  pub delete_in_tx-Good :
      (l : License) (k : Uuid) (w : World)
      → license_row k w.tables.licenses ≡ some l
      → is_deletable_license_status l.status ≡ true
      → Good w.tables
      → Post (λ _ v. Good v.tables) (delete_in_tx env l k w)
  unfolding delete_in_tx delete_license_row
  delete_in_tx-Good l k w found old g = bind-Post _ _ w (
      reconcile-Post env _ _ _ _ _ w λ v e.
        let same = Good-Elsewhere w.tables v e g in
        let rows : v.tables.licenses ≡ w.tables.licenses = ap (λ (x : Tables). x.licenses) e in
        call-Post env _ _ v (
          modify-Post _ v (record {
            agrees = λ j r f.
                same.agrees j r f
                ∙ sym (
                    remove_unverified j k v.tables.licenses {l = l} same.unique (rw rows found)
                      (deletable_unverified l.status old));
            unique = remove-Unique k v.tables.licenses same.unique;
          })))
