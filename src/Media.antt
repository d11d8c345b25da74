-- ===== src/Media.antt =====
-- The attachments of internal/media: attachment_repository.go, and the reconciler of
-- attachment_reconciler.go that licenses, ads, products and stores keep their media by.
pub mod Sets
pub mod Reconciled
use packfinderz_backend.Prelude.{
  ℕ, ◌==◌, leb, if◌then◌else◌, Bool, true, false, not, ◌&&◌, ◌||◌, Option, List, [], ◌∷◌, ◌++◌,
  select, holds,
}
use packfinderz_backend.Errors.{Code, record_not_found}
use packfinderz_backend.Store.Tables.{World, Uuid, Media, MediaAttachment, EntityType}
use packfinderz_backend.Store.Rows.{find}
use packfinderz_backend.Store.Tx.{
  Call, Env, M, ⊤, call, fail_if, gets, modify, or_raise, wrapped, for_each, ◌>>=◌, ◌>>◌,
}

unfoldable pub EntityType-discrete : Discrete EntityType
EntityType-discrete = hlevel

abbrev pub is_entity : EntityType → EntityType → Bool
is_entity s t = holds (EntityType-discrete s t)

abbrev pub contains : Uuid → List Uuid → Bool
contains k [] = false
contains k (x ∷ xs) = x == k || contains k xs

-- The keys of the map that `dedupe` builds, which are no nil identifiers.
unfoldable pub dedupe : List Uuid → List Uuid
dedupe [] = []
dedupe (x ∷ xs) = let rest = dedupe xs in if x == 0 || contains x rest then rest else x ∷ rest

-- The keys of `a` that are none of `b`.
unfoldable pub difference : List Uuid → List Uuid → List Uuid
difference a b = select (λ x. not (contains x b)) a

-- `sort.Slice` by the texts of the identifiers, which are ordered as the numbers are.
unfoldable pub insert_id : Uuid → List Uuid → List Uuid
insert_id x [] = x ∷ []
insert_id x (y ∷ ys) = let rest = insert_id x ys in if leb x y then x ∷ y ∷ ys else y ∷ rest

unfoldable pub sort_ids : List Uuid → List Uuid
unfolding insert_id
sort_ids [] = []
sort_ids (x ∷ xs) = insert_id x (sort_ids xs)

abbrev pub is_attachment : EntityType → Uuid → Uuid → MediaAttachment → Bool
is_attachment t k m a = is_entity a.entity_type t && a.entity_id == k && a.media_id == m

abbrev pub set_attachments : (List MediaAttachment → List MediaAttachment) → World → World
set_attachments f w = record w {
  tables = record (w.tables) { attachments = f w.tables.attachments };
}

module _ (env : Env) where
  -- `FindByID` of internal/media/repo.go
  unfoldable pub find_media : Uuid → M Media
  find_media k =
      call env (Call.find_media k)
        (λ w. or_raise (find (λ m. m.id) k w.tables.media) record_not_found w)

  unfoldable pub create_attachment : MediaAttachment → M ⊤
  create_attachment a =
      call env (Call.create_attachment a.media_id) (modify (set_attachments λ as_. as_ ++ a ∷ []))

  unfoldable pub delete_attachment : EntityType → Uuid → Uuid → M ⊤
  delete_attachment t k m =
      call env (Call.delete_attachment m)
        (modify (set_attachments (select λ a. not (is_attachment t k m a))))

  unfoldable pub list_by_media_id : Uuid → M (List MediaAttachment)
  list_by_media_id m =
      call env (Call.list_attachments m)
        (gets λ w. select (λ a. a.media_id == m) w.tables.attachments)

  -- One round of the first loop of `Reconcile`.
  unfoldable pub attach : EntityType → Uuid → Uuid → Uuid → M ⊤
  attach t k store_id media_id = do
    row ← wrapped (find_media media_id)
    fail_if (not (row.store_id == store_id)) Code.validation
    create_attachment (record {
      media_id = media_id;
      entity_type = t;
      entity_id = k;
      store_id = store_id;
      gcs_key = row.gcs_key;
    })

  -- `Reconcile`. A call of it names one of the entities, so its type is never empty, and it is
  -- given a transaction.
  unfoldable pub reconcile : EntityType → Uuid → Uuid → List Uuid → List Uuid → M ⊤
  unfolding dedupe difference sort_ids attach
  reconcile t k store_id old_ids new_ids = do
    fail_if (k == 0) Code.validation
    fail_if (store_id == 0) Code.validation
    for_each (sort_ids (difference (dedupe new_ids) (dedupe old_ids))) (attach t k store_id)
    for_each (sort_ids (difference (dedupe old_ids) (dedupe new_ids))) (delete_attachment t k)
