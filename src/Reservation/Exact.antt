-- ===== src/Reservation/Exact.antt =====
-- A run of reservations takes from each product exactly what it reports, and never more than there
-- is.
use mathlib.Core.Path.{subst}
use packfinderz_backend.Prelude.{
  inr, inl, Bool-cases, ℕ, ◌+◌, ◌-◌, ◌≤◌, ◌==◌, leb, if◌then◌else◌, false, ◌&&◌, Option, none, some,
  List, [], ◌∷◌, ◌≡◌, refl, pos_part, arith,
}
use mathlib.Core.Option
use packfinderz_backend.Store.Tables.{InventoryItem, World, Uuid}
use packfinderz_backend.Store.Rows.{find, update, find-update}
use packfinderz_backend.Store.Tx.{Env}
use packfinderz_backend.Store.Post.{Post-ok, Post, pure-Post, bind-Post, weaken-Post}
use packfinderz_backend.Reservation.{
  ok, Request, Reservation, reserve_row, is_in_stock, reserve_inventory,
}
use packfinderz_backend.Reservation.Returns.{reserve_one-Post}

abbrev pub row_at : Uuid → List InventoryItem → Option InventoryItem
row_at = find (λ r. r.product_id)

-- The primary key of the inventory.
abbrev pub UniqueRows : List InventoryItem → Type 0
UniqueRows [] = Unit {0}
UniqueRows (r ∷ rs) = (row_at r.product_id rs ≡ none) × UniqueRows rs

-- What the results report as taken from a product.
abbrev pub taken : Uuid → List Reservation → ℕ
taken p [] = 0
taken p (r ∷ rs) = (if r.reserved && r.product_id == p then pos_part r.qty else 0) + taken p rs

abbrev pub take_from : ℕ → InventoryItem → InventoryItem
take_from n r = record r { available_qty = r.available_qty - n; reserved_qty = r.reserved_qty + n }

-- Each product's row has lost what was taken from it, which it had.
pub record Exact (before : List InventoryItem) (results : List Reservation)
    (after : List InventoryItem) : Type 0 where
  pub rows :
      (p : Uuid) (r : InventoryItem)
      → row_at p before ≡ some r
      → (row_at p after ≡ some (take_from (taken p results) r))
        × (taken p results ≤ r.available_qty)

module _ (p : Uuid) (q : ℕ) where
  reserve_row-product : (r : InventoryItem) → (reserve_row q r).product_id ≡ r.product_id
  reserve_row-product r = ground arith

  row_at-reserve :
      (k : Uuid) (rs : List InventoryItem)
      → row_at k (update (λ r. r.product_id) p (reserve_row q) rs)
        ≡ (if k == p then Option.map (reserve_row q) (row_at k rs) else row_at k rs)
  row_at-reserve k rs = find-update (λ r. r.product_id) (reserve_row q) reserve_row-product k p rs

  UniqueRows-reserve :
      (rs : List InventoryItem)
      → UniqueRows rs
      → UniqueRows (update (λ r. r.product_id) p (reserve_row q) rs)
  UniqueRows-reserve [] u = tt
  UniqueRows-reserve (r ∷ rs) u =
      ground
        (arith, UniqueRows-reserve rs u.1, row_at-reserve r.product_id rs, reserve_row-product r)

  is_in_stock-none : (rs : List InventoryItem) → row_at p rs ≡ none → is_in_stock p q rs ≡ false
  is_in_stock-none [] e = refl
  is_in_stock-none (r ∷ rs) e = ground (arith, is_in_stock-none rs)

  is_in_stock-row :
      (rs : List InventoryItem) {r : InventoryItem}
      → UniqueRows rs
      → row_at p rs ≡ some r
      → is_in_stock p q rs ≡ leb q r.available_qty
  is_in_stock-row [] u e = cc
  is_in_stock-row (x ∷ rs) {r} u e = elim (Bool-cases (x.product_id == p)) [
    | inl hit ↦
        let at_p : x.product_id ≡ p = ground arith in
        let none_left : row_at p rs ≡ none = subst (λ k. row_at k rs ≡ none) at_p u.0 in
        ground (arith, is_in_stock-none rs none_left)
    | inr miss ↦ ground (arith, is_in_stock-row rs {r = r} u.1)
  ]

-- One reservation before the others.
Exact-cons :
    (before after : List InventoryItem) (req : Request) (results : List Reservation)
    → UniqueRows before
    → Exact
        (update (λ r. r.product_id) req.product_id (reserve_row (pos_part req.qty)) before)
        results
        after
    → Exact before
        (record {
          cart_item_id = req.cart_item_id;
          product_id = req.product_id;
          qty = req.qty;
          reserved = is_in_stock req.product_id (pos_part req.qty) before;
        }
          ∷ results)
        after
Exact-cons before after req results u h = record {
  rows = λ p r e. elim (Bool-cases (p == req.product_id)) [
    | inl hit ↦
        let same : p ≡ req.product_id = ground arith in
        let at_req : row_at req.product_id before ≡ some r =
          subst (λ k. row_at k before ≡ some r) same e in
        let stock = is_in_stock-row req.product_id (pos_part req.qty) before u at_req in
        let mid : row_at p
              (update (λ x. x.product_id) req.product_id (reserve_row (pos_part req.qty)) before)
            ≡ some (reserve_row (pos_part req.qty) r) =
          ground (arith, row_at-reserve req.product_id (pos_part req.qty) p before) in
        let rest = h.rows p (reserve_row (pos_part req.qty) r) mid in ground (arith, rest, stock)
    | inr miss ↦
        let mid : row_at p
              (update (λ x. x.product_id) req.product_id (reserve_row (pos_part req.qty)) before)
            ≡ some r =
          ground (arith, row_at-reserve req.product_id (pos_part req.qty) p before) in
        let rest = h.rows p r mid in ground (arith, rest)
  ];
}

Exact-nil : (rs : List InventoryItem) → Exact rs [] rs
Exact-nil rs = record { rows = λ p r e. (ground arith, omega arith) }

module _ (env : Env) where
  reserve_inventory-Exact :
      (reqs : List Request) (w : World)
      → UniqueRows w.tables.inventory
      → Post
          (λ results v. Exact w.tables.inventory results v.tables.inventory)
          (reserve_inventory env reqs w)
  unfolding reserve_inventory
  reserve_inventory-Exact [] w u = pure-Post [] w (Exact-nil w.tables.inventory)
  reserve_inventory-Exact (req ∷ reqs) w u = bind-Post _ _ w (
      reserve_one-Post env w req λ more. bind-Post _ _ _ (
        weaken-Post _
          (λ results v h.
            pure-Post _ v (Exact-cons w.tables.inventory v.tables.inventory req results u h))
          (reserve_inventory-Exact reqs _
            (UniqueRows-reserve req.product_id (pos_part req.qty) w.tables.inventory u))))

  -- With one row for each product, a run of reservations that returns has moved from available to
  -- reserved, in each product's row, exactly the quantities that its results report as reserved, and
  -- these are no more in all than what was available.
  pub reserve_inventory_ok :
      (reqs : List Request) (w : World) (results : List Reservation)
      → UniqueRows w.tables.inventory
      → (reserve_inventory env reqs w).0 ≡ ok results
      → Exact w.tables.inventory results (reserve_inventory env reqs w).1.tables.inventory
  reserve_inventory_ok reqs w results u e = Post-ok _ (reserve_inventory-Exact reqs w u) e
