-- ===== src/Media/Sets.antt =====
-- The sets of identifiers that the reconciler computes with, by their members.
use packfinderz_backend.Prelude.{◌==◌, not, ◌&&◌, ◌||◌, List, [], ◌∷◌, ◌≡◌, refl, arith}
use packfinderz_backend.Store.Tables.{Uuid}
use packfinderz_backend.Media.{contains, dedupe, difference, insert_id, sort_ids}

pub contains-dedupe :
    (k : Uuid) (xs : List Uuid) → contains k (dedupe xs) ≡ (not (k == 0) && contains k xs)
unfolding dedupe
contains-dedupe k [] = ground arith
contains-dedupe k (x ∷ xs) = ground (arith, contains-dedupe k xs, contains-dedupe x xs)

contains-insert_id :
    (k x : Uuid) (ys : List Uuid) → contains k (insert_id x ys) ≡ (x == k || contains k ys)
unfolding insert_id
contains-insert_id k x [] = refl
contains-insert_id k x (y ∷ ys) = ground (arith, contains-insert_id k x ys)

contains-sort_ids : (k : Uuid) (xs : List Uuid) → contains k (sort_ids xs) ≡ contains k xs
unfolding sort_ids
contains-sort_ids k [] = refl
contains-sort_ids k (x ∷ xs) =
    ground (arith, contains-insert_id k x (sort_ids xs), contains-sort_ids k xs)

contains-difference :
    (k : Uuid) (xs ys : List Uuid)
    → contains k (difference xs ys) ≡ (contains k xs && not (contains k ys))
unfolding difference
contains-difference k [] ys = refl
contains-difference k (x ∷ xs) ys = ground (arith, contains-difference k xs ys)

-- What a loop of the reconciler runs over.
pub contains-sorted :
    (k : Uuid) (xs ys : List Uuid)
    → contains k (sort_ids (difference (dedupe xs) (dedupe ys)))
      ≡ (not (k == 0) && (contains k xs && not (contains k ys)))
contains-sorted k xs ys = ground (
  arith,
  contains-sort_ids k (difference (dedupe xs) (dedupe ys)),
  contains-difference k (dedupe xs) (dedupe ys),
  contains-dedupe k xs,
  contains-dedupe k ys,
)
