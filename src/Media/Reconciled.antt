-- ===== src/Media/Reconciled.antt =====
-- What `Reconcile` does to the attachments of an entity, as sets of media.
use packfinderz_backend.Store.Tx.{⊤}
use packfinderz_backend.Errors.{ok}
use packfinderz_backend.Media.Sets.{contains-sorted}
use packfinderz_backend.Store.Post.{
  Post, Post-ok, bind-Post, call-Post, fail_if-Post, modify-Post, or_raise-Post, map_error-Post,
  for_each-Post, weaken-Post,
}
use packfinderz_backend.Prelude.{
  if◌then◌else◌, inr, inl, eq_of_holds, Bool-cases, ◌==◌, Bool, true, false, not, ◌&&◌, ◌||◌, List,
  [], ◌∷◌, ◌++◌, ◌≡◌, refl, arith, select,
}
use packfinderz_backend.Store.Tables.{Blob, Tables, World, Uuid, MediaAttachment, EntityType}
use packfinderz_backend.Media.{
  dedupe, difference, sort_ids, reconcile, create_attachment, find_media, delete_attachment,
  contains, attach, Env, EntityType-discrete, is_entity, is_attachment,
}

-- The entity has the medium.
abbrev pub attached : EntityType → Uuid → Uuid → List MediaAttachment → Bool
attached t k m [] = false
attached t k m (a ∷ as_) = is_attachment t k m a || attached t k m as_

attached-append :
    (t : EntityType) (k m : Uuid) (xs ys : List MediaAttachment)
    → attached t k m (xs ++ ys) ≡ (attached t k m xs || attached t k m ys)
attached-append t k m [] ys = refl
attached-append t k m (x ∷ xs) ys = ground (arith, attached-append t k m xs ys)

abbrev pub same_entity : EntityType → Uuid → EntityType → Uuid → Bool
same_entity t k t' k' = is_entity t t' && k == k'

-- Two descriptions of one attachment name the same entity and medium.
module _ (t t' : EntityType) (k k' m m' : Uuid) (a : MediaAttachment) where
  both_match :
      is_attachment t k m a ≡ true → is_attachment t' k' m' a ≡ (same_entity t k t' k' && m == m')
  both_match h =
      let e : is_entity a.entity_type t ≡ true = ground arith in
      let e' : a.entity_type ≡ t = eq_of_holds (EntityType-discrete a.entity_type t) e in
      rw e' (ground arith)

  same_match :
      (same_entity t k t' k' && m == m') ≡ true → is_attachment t' k' m' a ≡ is_attachment t k m a
  same_match h =
      let e : is_entity t t' ≡ true = ground arith in
      let e' : t ≡ t' = eq_of_holds (EntityType-discrete t t') e in rw (← e') (ground arith)

attached-delete :
    (t t' : EntityType) (k k' m m' : Uuid) (xs : List MediaAttachment)
    → attached t' k' m' (select (λ a. not (is_attachment t k m a)) xs)
      ≡ (attached t' k' m' xs && not (same_entity t k t' k' && m == m'))
attached-delete t t' k k' m m' [] = refl
attached-delete t t' k k' m m' (x ∷ xs) = elim (Bool-cases (is_attachment t k m x)) [
  | inl hit ↦
      let both = both_match t t' k k' m m' x hit in
      rw hit (ground (arith, attached-delete t t' k k' m m' xs))
  | inr miss ↦
      rw miss (ground (arith, attached-delete t t' k k' m m' xs, same_match t t' k k' m m' x))
]

-- Only the attachments may differ.
abbrev pub Elsewhere : Tables → World → Type 0
Elsewhere t v = v.tables ≡ record t { attachments = v.tables.attachments }

module _ (env : Env) (t0 : Tables) (t : EntityType) (k store_id : Uuid) where
  module _ (t' : EntityType) (k' m' : Uuid) (goal : Bool) where
    -- With the rest of the loop's media, the attachments are those of the goal.
    abbrev ToAttach : List Uuid → World → Type 0
    ToAttach rest v =
        Elsewhere t0 v
        × (goal ≡ (
            attached t' k' m' v.tables.attachments || (same_entity t k t' k' && contains m' rest)))

    abbrev ToDelete : List Uuid → World → Type 0
    ToDelete rest v =
        Elsewhere t0 v
        × (goal ≡ (
            attached t' k' m' v.tables.attachments
            && not (same_entity t k t' k' && contains m' rest)))

    attached_row :
        (x : Uuid) (rest : List Uuid) (as_ : List MediaAttachment) (key : Blob)
        → goal ≡ (attached t' k' m' as_ || (same_entity t k t' k' && contains m' (x ∷ rest)))
        → goal ≡ (
            attached t' k' m' (
              as_
              ++ record {
                media_id = x;
                entity_type = t;
                entity_id = k;
                store_id = store_id;
                gcs_key = key;
              }
                ∷ [])
            || (same_entity t k t' k' && contains m' rest))
    attached_row x rest as_ key h = ground (
      arith,
      attached-append t' k' m' as_ (
          record {
            media_id = x;
            entity_type = t;
            entity_id = k;
            store_id = store_id;
            gcs_key = key;
          }
          ∷ []),
    )

    attach_round :
        (x : Uuid) (rest : List Uuid) (v : World)
        → ToAttach (x ∷ rest) v
        → Post (λ _ u. ToAttach rest u) (attach env t k store_id x v)
    unfolding attach find_media create_attachment
    attach_round x rest v i = bind-Post _ _ v (
        map_error-Post _ _ v (
          call-Post env _ _ v (
            or_raise-Post _ _ v λ row found. bind-Post _ _ v (
              fail_if-Post _ _ v λ ours. call-Post env _ _ v (
                modify-Post _ v
                  (ground arith, attached_row x rest v.tables.attachments row.gcs_key i.1))))))

    delete_round :
        (x : Uuid) (rest : List Uuid) (v : World)
        → ToDelete (x ∷ rest) v
        → Post (λ _ u. ToDelete rest u) (delete_attachment env t k x v)
    unfolding delete_attachment
    delete_round x rest v i = call-Post env _ _ v (
        modify-Post _ v
          (ground arith, ground (arith, attached-delete t t' k k' x m' v.tables.attachments)))

-- The attachments of an entity after a reconciliation: of the media in the new list it keeps those
-- that it had and gets those that are not in the old list, and of the others it loses the old ones.
abbrev pub after_reconcile : List Uuid → List Uuid → Uuid → Bool → Bool
after_reconcile old_ids new_ids m had =
    if m == 0
    then had
    else if contains m new_ids
    then had || not (contains m old_ids)
    else had && not (contains m old_ids)

module _ (env : Env) (t : EntityType) (k store_id : Uuid) (old_ids new_ids : List Uuid)
    (w : World) where
  abbrev pub Reconciled : World → Type 0
  Reconciled v =
      Elsewhere w.tables v
      × ((t' : EntityType) (k' m' : Uuid)
          → attached t' k' m' v.tables.attachments ≡ (
              if same_entity t k t' k'
              then after_reconcile old_ids new_ids m' (attached t' k' m' w.tables.attachments)
              else attached t' k' m' w.tables.attachments))

  one_attachment :
      (t' : EntityType) (k' m' : Uuid)
      → Post
          (λ _ v.
            Elsewhere w.tables v
            × (attached t' k' m' v.tables.attachments ≡ (
                if same_entity t k t' k'
                then after_reconcile old_ids new_ids m' (attached t' k' m' w.tables.attachments)
                else attached t' k' m' w.tables.attachments)))
          (reconcile env t k store_id old_ids new_ids w)
  unfolding reconcile
  one_attachment t' k' m' =
      let had = attached t' k' m' w.tables.attachments in
      let same = same_entity t k t' k' in
      let added = sort_ids (difference (dedupe new_ids) (dedupe old_ids)) in
      let dropped = sort_ids (difference (dedupe old_ids) (dedupe new_ids)) in
      let middle = had || (same && contains m' added) in
      bind-Post _ _ w (
        fail_if-Post _ _ w λ _. bind-Post _ _ w (
          fail_if-Post _ _ w λ _. bind-Post _ _ w (
            for_each-Post (ToAttach env w.tables t k store_id t' k' m' middle) _
              (attach_round env w.tables t k store_id t' k' m' middle) added w (refl, refl)
              λ v i.
                for_each-Post
                  (ToDelete env w.tables t k store_id t' k' m'
                    (middle && not (same && contains m' dropped)))
                  _
                  (delete_round env w.tables t k store_id t' k' m'
                    (middle && not (same && contains m' dropped)))
                  dropped v (i.0, ground arith)
                  λ u j. (
                    j.0,
                    ground (
                      arith,
                      contains-sorted m' new_ids old_ids,
                      contains-sorted m' old_ids new_ids,
                    ),
                  ))))

  -- A reconciliation that reports success writes no table but the attachments; the entity keeps
  -- the new media that it had, gets those that were not in the old list, loses the old ones that
  -- are not in the new list, and no other entity's media change. A nil identifier is in no list.
  pub reconcile_ok :
      (reconcile env t k store_id old_ids new_ids w).0 ≡ ok tt
      → Reconciled (reconcile env t k store_id old_ids new_ids w).1
  reconcile_ok h =
      let p = reconcile env t k store_id old_ids new_ids w in
      (
        (Post-ok p (one_attachment EntityType.ad 0 0) h).0,
        λ t' k' m'. (Post-ok p (one_attachment t' k' m') h).1,
      )

  -- The same as a postcondition.
  pub reconcile-Post :
      {Q : ⊤ → World → Type 0}
      → ((v : World) → Elsewhere w.tables v → Q tt v)
      → Post Q (reconcile env t k store_id old_ids new_ids w)
  reconcile-Post q = weaken-Post _ (λ u v h. q v h.0) (one_attachment EntityType.ad 0 0)
