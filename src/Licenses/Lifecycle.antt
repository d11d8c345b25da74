-- ===== src/Licenses/Lifecycle.antt =====
-- The license job of the cron worker keeps stores and licenses in agreement, whatever fails.
use packfinderz_backend.Prelude.{◌==◌, Bool, false, not, List, ◌∷◌, ◌≡◌, refl, sym, select}
use mathlib.Core.Path.{subst}
use packfinderz_backend.Enums.{EventType, AggregateType, LicenseStatus}
use packfinderz_backend.Store.Tables.{OutboxEvent, Uuid, License, Tables, World, MediaAttachment}
use packfinderz_backend.Store.Rows.{update}
use packfinderz_backend.Store.Tx.{◌>>◌, Env}
use packfinderz_backend.Store.Repo.{any_event, emit, outbox_exists}
use packfinderz_backend.Store.Post.{
  Post, bind-Post, call-Post, gets-Post, pure-Post, modify-Post, if-Post, for_each-Post,
  weaken-Post,
}
use packfinderz_backend.Store.Outcome.{
  Outcome, bind-Outcome, call-Outcome, gets-Outcome, pure-Outcome, if-Outcome, with_tx-Outcome,
  weaken-Outcome, for_each-Outcome, Outcome-tables,
}
use packfinderz_backend.Media.{list_by_media_id, delete_attachment}
use packfinderz_backend.Licenses.{
  set_licenses, set_status, remove, statuses_of, update_license_status, delete_license_row,
  list_statuses, update_store_status,
}
use packfinderz_backend.Licenses.Service.{determine_store_kyc_status}
use packfinderz_backend.Licenses.Verified.{
  has_verified, determine-verified, has_verified-update, has_verified-remove,
}
use packfinderz_backend.Licenses.Unique.{
  Unique, Listed, update-Unique, remove-Unique, Unique-Listed, select-Listed, update-Listed,
  remove-Listed,
}
use packfinderz_backend.Licenses.Agrees.{Agrees, Good, recomputed-Agrees}
use packfinderz_backend.Licenses.Keeps.{emit-Good, Good-same}
use packfinderz_backend.Licenses.Scheduler.{find_dated}
use packfinderz_backend.Cron.LicenseLifecycle

abbrev Fine : Tables → Type 0
Fine = Good

-- Only the attachments and the media may differ.
abbrev SameLicenses : Tables → World → Type 0
SameLicenses t v = (v.tables.stores ≡ t.stores) × (v.tables.licenses ≡ t.licenses)

module _ (env : Env) where
  -- The statuses of a store's licenses are written to it, whatever they are.
  recompute_store-Good :
      (s : Uuid) (ls : List License) (v : World)
      → Agrees v.tables.stores ls
      → ((j : Uuid) → (s == j) ≡ false → has_verified j v.tables.licenses ≡ has_verified j ls)
      → Unique v.tables.licenses
      → Post
          (λ _ u. Good u.tables × (u.tables.licenses ≡ v.tables.licenses))
          (LicenseLifecycle.recompute_store env s v)
  unfolding LicenseLifecycle.recompute_store list_statuses update_store_status
  recompute_store-Good s ls v before others unique =
      let new = determine_store_kyc_status (statuses_of s v.tables.licenses) in
      bind-Post _ _ v (
        call-Post env _ _ v (
          gets-Post _ v (
            call-Post env _ _ v (
              modify-Post _ v (
                record {
                  agrees =
                      recomputed-Agrees s v.tables.stores ls v.tables.licenses new before others
                        (determine-verified s v.tables.licenses);
                  unique = unique;
                },
                refl,
              )))))

  -- The licenses that are left are still the only ones with their identifiers.
  abbrev Left : List License → World → Type 0
  Left rest v = Good v.tables × Listed v.tables.licenses rest

  emit-Left :
      (e : OutboxEvent) (rest : List License) (v : World)
      → Left rest v
      → Post (λ _ u. Left rest u) (emit env e v)
  unfolding emit
  emit-Left e rest v (g, k) =
      call-Post env _ _ v (modify-Post _ v (record { agrees = g.agrees; unique = g.unique }, k))

  expire_in_tx-Left :
      (l : License) (rest : List License) (w : World)
      → Left (l ∷ rest) w
      → Post (λ _ v. Left rest v) (LicenseLifecycle.expire_in_tx env l w)
  unfolding LicenseLifecycle.expire_in_tx update_license_status
  expire_in_tx-Left l rest w (g, (only, listed)) =
      let ls' = update (λ x. x.id) l.id (set_status LicenseStatus.expired) w.tables.licenses in
      let v = set_licenses (λ ls. ls') w in
      bind-Post _ _ w (
        call-Post env _ _ w (
          modify-Post _ w (
            bind-Post _ _ v (
              weaken-Post _
                (λ _ u h. emit-Left _ rest u (
                  h.0,
                  subst (λ x. Listed x rest) (sym h.1)
                      (update-Listed l.id LicenseStatus.expired rest w.tables.licenses listed),
                ))
                (recompute_store-Good l.store_id w.tables.licenses v g.agrees
                  (λ j n.
                    has_verified-update l.id l.store_id j LicenseStatus.expired w.tables.licenses
                      only n)
                  (update-Unique l.id LicenseStatus.expired w.tables.licenses g.unique))))))

  -- The two loops start from what the database lists.
  listed_rows :
      (p : License → Bool) (w : World) → Good w.tables → Left (select p w.tables.licenses) w
  listed_rows p w g = (
    g,
    select-Listed p w.tables.licenses w.tables.licenses (Unique-Listed w.tables.licenses g.unique),
  )

  pub expire_licenses-Good :
      (w : World)
      → Good w.tables
      → Outcome (λ _ v. Good v.tables) Fine (LicenseLifecycle.expire_licenses env w)
  unfolding LicenseLifecycle.expire_licenses LicenseLifecycle.find_expired_in_range
      LicenseLifecycle.expire_round LicenseLifecycle.expire_license
  expire_licenses-Good w g = bind-Outcome Fine _ _ w (
      call-Outcome Fine env _ _ w g (
        gets-Outcome Fine _ w (
          weaken-Outcome Fine _ (λ _ u h. h.0)
            (for_each-Outcome Fine (λ rest v. Left rest v) _
              (λ l rest v h.
                if-Outcome Fine (not (LicenseLifecycle.is_dated_and_verified l)) _ _ v
                  (λ _. pure-Outcome Fine tt v (h.0, h.1.1))
                  (λ _. with_tx-Outcome Fine env _ v h.0 (expire_in_tx-Left l rest v h)))
              _ w (listed_rows _ w g)))))

  -- The attachments of the medium go first.
  detach_round :
      (t : Tables) (a : MediaAttachment) (rest : List MediaAttachment) (v : World)
      → SameLicenses t v
      → Post
          (λ _ u. SameLicenses t u)
          (delete_attachment env a.entity_type a.entity_id a.media_id v)
  unfolding delete_attachment
  detach_round t a rest v h = call-Post env _ _ v (modify-Post _ v h)

  Left-same :
      (l : License) (rest : List License) (w v : World)
      → Left (l ∷ rest) w
      → SameLicenses w.tables v
      → Left (l ∷ rest) v
  Left-same l rest w v (g, k) (s, e) =
      (Good-same w.tables v.tables s e g, subst (λ x. Listed x (l ∷ rest)) (sym e) k)

  -- The license, its medium, and the status of its store.
  remove_rest-Left :
      (l : License) (rest : List License) (v : World)
      → Left (l ∷ rest) v
      → Post
          (λ _ u. Left rest u)
          ((delete_license_row env l.id
              >> (LicenseLifecycle.delete_media env l.media_id
                  >> LicenseLifecycle.recompute_store env l.store_id))
            v)
  unfolding delete_license_row LicenseLifecycle.delete_media
  remove_rest-Left l rest v (g, (only, listed)) =
      let v1 = set_licenses (remove l.id) v in
      let v2 = LicenseLifecycle.set_media (select λ m. not (m.id == l.media_id)) v1 in
      bind-Post _ _ v (
        call-Post env _ _ v (
          modify-Post _ v (
            bind-Post _ _ v1 (
              call-Post env _ _ v1 (
                modify-Post _ v1 (
                  weaken-Post _
                    (λ _ u h. (
                      h.0,
                      subst (λ x. Listed x rest) (sym h.1)
                          (remove-Listed l.id rest v.tables.licenses listed),
                    ))
                    (recompute_store-Good l.store_id v.tables.licenses v2 g.agrees
                      (λ j n. has_verified-remove l.id l.store_id j v.tables.licenses only n)
                      (remove-Unique l.id v.tables.licenses g.unique))))))))

  delete_in_tx-Left :
      (l : License) (rest : List License) (w : World)
      → Left (l ∷ rest) w
      → Post (λ _ v. Left rest v) (LicenseLifecycle.delete_in_tx env l w)
  unfolding LicenseLifecycle.delete_in_tx list_by_media_id LicenseLifecycle.delete_object
  delete_in_tx-Left l rest w h = bind-Post _ _ w (
      call-Post env _ _ w (
        gets-Post _ w (
          bind-Post _ _ w (
            for_each-Post (λ _ v. SameLicenses w.tables v) _ (detach_round w.tables) _ w
              (refl, refl)
              λ v same. bind-Post _ _ v (
                if-Post (l.gcs_key == 0) _ _ v
                  (λ _. pure-Post tt v (remove_rest-Left l rest v (Left-same l rest w v h same)))
                  (λ _.
                    call-Post env _ _ v (
                      pure-Post tt v
                        (remove_rest-Left l rest v (Left-same l rest w v h same)))))))))

  pub delete_expired-Good :
      (w : World)
      → Good w.tables
      → Outcome (λ _ v. Good v.tables) Fine (LicenseLifecycle.delete_expired env w)
  unfolding LicenseLifecycle.delete_expired LicenseLifecycle.find_expired_before
      LicenseLifecycle.delete_license
  delete_expired-Good w g = bind-Outcome Fine _ _ w (
      call-Outcome Fine env _ _ w g (
        gets-Outcome Fine _ w (
          weaken-Outcome Fine _ (λ _ u h. h.0)
            (for_each-Outcome Fine (λ rest v. Left rest v) _
              (λ l rest v h. with_tx-Outcome Fine env _ v h.0 (delete_in_tx-Left l rest v h)) _ w
              (listed_rows _ w g)))))

  warn_round :
      (l : License) (rest : List License) (v : World)
      → Good v.tables
      → Outcome (λ _ u. Good u.tables) Fine (LicenseLifecycle.warn_license env l v)
  unfolding LicenseLifecycle.warn_license outbox_exists
  warn_round l rest v g =
      if-Outcome Fine (not (LicenseLifecycle.is_dated_and_verified l)) _ _ v
        (λ _. pure-Outcome Fine tt v g)
        (λ _. bind-Outcome Fine _ _ v (
          call-Outcome Fine env _ _ v g (
            gets-Outcome Fine _ v (
              if-Outcome Fine
                (any_event EventType.license_expiring_soon AggregateType.license l.id
                  v.tables.outbox)
                _ _ v (λ _. pure-Outcome Fine tt v g)
                (λ _. with_tx-Outcome Fine env _ v g (emit-Good env _ v g))))))

  pub warn_expiring-Good :
      (w : World)
      → Good w.tables
      → Outcome (λ _ v. Good v.tables) Fine (LicenseLifecycle.warn_expiring env w)
  unfolding LicenseLifecycle.warn_expiring find_dated
  warn_expiring-Good w g = bind-Outcome Fine _ _ w (
      call-Outcome Fine env _ _ w g
        (gets-Outcome Fine _ w (for_each-Outcome Fine (λ _ v. Good v.tables) _ warn_round _ w g)))

  -- One run of the job.
  pub run_license_lifecycle-Good :
      (w : World) → Good w.tables → Good (LicenseLifecycle.run_license_lifecycle env w).1.tables
  unfolding LicenseLifecycle.run_license_lifecycle
  run_license_lifecycle-Good w g =
      let w1 = (LicenseLifecycle.warn_expiring env w).1 in
      let w2 = (LicenseLifecycle.expire_licenses env w1).1 in
      let h1 =
        Outcome-tables Fine (LicenseLifecycle.warn_expiring env w) (warn_expiring-Good w g) in
      let h2 =
        Outcome-tables Fine (LicenseLifecycle.expire_licenses env w1)
          (expire_licenses-Good w1 h1) in
      Outcome-tables Fine (LicenseLifecycle.delete_expired env w2) (delete_expired-Good w2 h2)
