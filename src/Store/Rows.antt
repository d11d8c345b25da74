-- ===== src/Store/Rows.antt =====
-- A table as the list of its rows: `First` and `Updates` of a query on one column.
use packfinderz_backend.Prelude.{
  ℕ, ◌==◌, ◌≡◌, refl, if◌then◌else◌, Option, none, some, List, [], ◌∷◌, ◌++◌, All, arith, inl, inr,
  Bool-cases,
}
use mathlib.Core.Option
use mathlib.Core.Path.{subst}

module _ {ℓ} {A : Type ℓ} (key : A → ℕ) where
  -- `Where("key = ?", k).First(&row)`
  abbrev pub find : ℕ → List A → Option A
  find k [] = none
  find k (x ∷ xs) = if key x == k then some x else find k xs

  -- `Where("key = ?", k).Updates(f)`, on every row that matches
  abbrev pub update : ℕ → (A → A) → List A → List A
  update k f [] = []
  update k f (x ∷ xs) = (if key x == k then f x else x) ∷ update k f xs

  -- `Where("key = ?", k).Find(&rows)`
  abbrev pub find_all : ℕ → List A → List A
  find_all k [] = []
  find_all k (x ∷ xs) = if key x == k then x ∷ find_all k xs else find_all k xs

  module _ (f : A → A) (keep : (x : A) → key (f x) ≡ key x) where
    -- An update moves no row to another key.
    pub find-update :
        (k j : ℕ) (xs : List A)
        → find k (update j f xs) ≡ (if k == j then Option.map f (find k xs) else find k xs)
    find-update k j [] = ground arith
    find-update k j (x ∷ xs) = ground (arith, find-update k j xs, keep x)

  pub find_key : (k : ℕ) (xs : List A) {x : A} → find k xs ≡ some x → key x ≡ k
  find_key k [] e = cc
  find_key k (y ∷ xs) {x} e = ground (arith, find_key k xs {x = x})

  -- Rows at the end are reached only by a key that no row before them has.
  pub find-append :
      (k : ℕ) (xs ys : List A)
      → find k (xs ++ ys) ≡ (elim (find k xs) [ some x ↦ some x | none ↦ find k ys ])
  find-append k [] ys = refl
  find-append k (x ∷ xs) ys = ground (arith, find-append k xs ys)

  module _ {κ} (P : A → Type κ) where
    -- A property of every row is one of the row that is found.
    pub All-find : (k : ℕ) (xs : List A) {x : A} → All P xs → find k xs ≡ some x → P x
    All-find k [] h e = cc
    All-find k (y ∷ xs) {x} h e = elim (Bool-cases (key y == k)) [
      | inl hit ↦ let same : y ≡ x = ground arith in subst P same h.0
      | inr miss ↦ All-find k xs h.1 (rw miss at e)
    ]

    -- An update that keeps the property of each row keeps it of the table.
    pub All-update :
        (k : ℕ) (f : A → A) (xs : List A)
        → ((x : A) → P x → P (f x))
        → All P xs
        → All P (update k f xs)
    All-update k f [] keep h = tt
    All-update k f (y ∷ xs) keep h = elim (Bool-cases (key y == k)) [
      | inl hit ↦ rw hit (keep y h.0, All-update k f xs keep h.1)
      | inr miss ↦ rw miss (h.0, All-update k f xs keep h.1)
    ]
