-- ===== src/Publisher/Fetch.antt =====
-- The rows that a batch works on: they are rows of the table, none twice.
use packfinderz_backend.Prelude.{
  zero, suc, suc, ℕ, ◌==◌, Bool, false, ◌||◌, Option, some, List, [], ◌∷◌, ◌≡◌, refl, arith, All,
  select, Bool-cases, inl, inr,
}
use packfinderz_backend.Store.Tables.{Uuid}
use packfinderz_backend.Store.Rows.{find}
use packfinderz_backend.Publisher.{
  Row, Broker, insert_row, sort_rows, limit_rows, before, fetch_unpublished, is_due,
}

abbrev pub row_at : Uuid → List Row → Option Row
row_at = find (λ r. r.id)

abbrev pub has_id : Uuid → List Row → Bool
has_id k [] = false
has_id k (r ∷ rs) = r.id == k || has_id k rs

abbrev pub Distinct : List Row → Type 0
Distinct [] = Unit {0}
Distinct (r ∷ rs) = (has_id r.id rs ≡ false) × Distinct rs

has_id-insert :
    (k : Uuid) (x : Row) (xs : List Row) → has_id k (insert_row x xs) ≡ (x.id == k || has_id k xs)
has_id-insert k x [] = refl
has_id-insert k x (y ∷ ys) = ground (arith, has_id-insert k x ys)

has_id-sort : (k : Uuid) (xs : List Row) → has_id k (sort_rows xs) ≡ has_id k xs
has_id-sort k [] = refl
has_id-sort k (x ∷ xs) = ground (arith, has_id-sort k xs, has_id-insert k x (sort_rows xs))

has_id-select :
    (p : Row → Bool) (k : Uuid) (xs : List Row)
    → has_id k xs ≡ false
    → has_id k (select p xs) ≡ false
has_id-select p k [] e = refl
has_id-select p k (x ∷ xs) e = ground (arith, has_id-select p k xs)

has_id-limit :
    (n : ℕ) (k : Uuid) (xs : List Row) → has_id k xs ≡ false → has_id k (limit_rows n xs) ≡ false
has_id-limit zero k xs e = refl
has_id-limit (suc n) k [] e = refl
has_id-limit (suc n) k (x ∷ xs) e = ground (arith, has_id-limit n k xs)

Distinct-insert :
    (x : Row) (xs : List Row) → has_id x.id xs ≡ false → Distinct xs → Distinct (insert_row x xs)
Distinct-insert x [] new d = (refl, tt)
Distinct-insert x (y ∷ ys) new d = ground (arith, Distinct-insert x ys, has_id-insert y.id x ys)

Distinct-sort : (xs : List Row) → Distinct xs → Distinct (sort_rows xs)
Distinct-sort [] d = tt
Distinct-sort (x ∷ xs) d =
    Distinct-insert x (sort_rows xs) (ground (arith, has_id-sort x.id xs, d.0))
      (Distinct-sort xs d.1)

Distinct-select : (p : Row → Bool) (xs : List Row) → Distinct xs → Distinct (select p xs)
Distinct-select p [] d = tt
Distinct-select p (x ∷ xs) d = elim (Bool-cases (p x)) [
  | inl yes_ ↦ rw yes_ (has_id-select p x.id xs d.0, Distinct-select p xs d.1)
  | inr no_ ↦ rw no_ (Distinct-select p xs d.1)
]

Distinct-limit : (n : ℕ) (xs : List Row) → Distinct xs → Distinct (limit_rows n xs)
Distinct-limit zero xs d = tt
Distinct-limit (suc n) [] d = tt
Distinct-limit (suc n) (x ∷ xs) d = (has_id-limit n x.id xs d.0, Distinct-limit n xs d.1)

pub fetch-Distinct :
    (b : Broker) (rows : List Row) → Distinct rows → Distinct (fetch_unpublished b rows)
fetch-Distinct b rows d = Distinct-limit _ _ (Distinct-sort _ (Distinct-select (is_due b) rows d))

module _ (P : Row → Type 0) where
  All-insert : (x : Row) (xs : List Row) → P x → All P xs → All P (insert_row x xs)
  All-insert x [] h hs = (h, tt)
  All-insert x (y ∷ ys) h hs = elim (Bool-cases (before x y)) [
    | inl first ↦ rw first (h, (hs.0, hs.1))
    | inr later ↦ rw later (hs.0, All-insert x ys h hs.1)
  ]

  All-sort : (xs : List Row) → All P xs → All P (sort_rows xs)
  All-sort [] hs = tt
  All-sort (x ∷ xs) hs = All-insert x (sort_rows xs) hs.0 (All-sort xs hs.1)

  All-select : (p : Row → Bool) (xs : List Row) → All P xs → All P (select p xs)
  All-select p [] hs = tt
  All-select p (x ∷ xs) hs = elim (Bool-cases (p x)) [
    | inl yes_ ↦ rw yes_ (hs.0, All-select p xs hs.1)
    | inr no_ ↦ rw no_ (All-select p xs hs.1)
  ]

  All-limit : (n : ℕ) (xs : List Row) → All P xs → All P (limit_rows n xs)
  All-limit zero xs hs = tt
  All-limit (suc n) [] hs = tt
  All-limit (suc n) (x ∷ xs) hs = (hs.0, All-limit n xs hs.1)

  pub All-fetch : (b : Broker) (rows : List Row) → All P rows → All P (fetch_unpublished b rows)
  All-fetch b rows hs = All-limit _ _ (All-sort _ (All-select (is_due b) rows hs))

module _ (xs : List Row) where
  All-behind :
      (x : Row) (ys : List Row)
      → has_id x.id ys ≡ false
      → All (λ r. row_at r.id xs ≡ some r) ys
      → All (λ r. row_at r.id (x ∷ xs) ≡ some r) ys
  All-behind x [] new hs = tt
  All-behind x (y ∷ ys) new hs = (ground (arith, hs.0), All-behind x ys (ground arith) hs.1)

pub rows_found : (rows : List Row) → Distinct rows → All (λ r. row_at r.id rows ≡ some r) rows
rows_found [] d = tt
rows_found (r ∷ rs) d = (ground arith, All-behind rs r rs d.0 (rows_found rs d.1))
