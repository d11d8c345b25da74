-- ===== src/Orders/Void/Items.antt =====
-- The line items' table: a change of status, and new rows.
use packfinderz_backend.Prelude.{
  ℕ, ◌+◌, ◌==◌, if◌then◌else◌, true, false, Option, Option-cases, none, some, List, [], ◌∷◌, ◌++◌,
  ◌≡◌, refl, inl, inr, arith, All,
}
use mathlib.Core.Option
use mathlib.Core.Path.{subst}
use packfinderz_backend.Enums.{ItemStatus}
use packfinderz_backend.Store.Tables.{VendorOrder, LineItem, Uuid, Blob}
use packfinderz_backend.Store.Rows.{update, find-update, find-append}
use packfinderz_backend.Store.Columns.{set_item, set_item-id}
use packfinderz_backend.Store.Repo.{insert_items}
use packfinderz_backend.Orders.Void.{
  is_void, is_final_item, order_at, item_at, Settled, Unique, SameItems,
}

module _ (s : ItemStatus) (notes : Option Blob) (j : Uuid) where
  pub set_item-status : (i : LineItem) → (set_item s notes i).status ≡ s
  set_item-status i = ground arith

  pub set_item-order_id : (i : LineItem) → (set_item s notes i).order_id ≡ i.order_id
  set_item-order_id i = ground arith

  pub item_at-update :
      (k : Uuid) (is : List LineItem)
      → item_at k (update (λ i. i.id) j (set_item s notes) is)
        ≡ (if k == j then Option.map (set_item s notes) (item_at k is) else item_at k is)
  item_at-update k is = find-update (λ i. i.id) (set_item s notes) (set_item-id s notes) k j is

  pub Unique-update :
      (is : List LineItem) → Unique is → Unique (update (λ i. i.id) j (set_item s notes) is)
  Unique-update [] u = tt
  Unique-update (x ∷ is) u =
      ground (arith, Unique-update is u.1, item_at-update x.id is, set_item-id s notes x)

  -- An item that a decision resolves is final.
  pub Settled-set_item :
      (os : List VendorOrder) (is : List LineItem)
      → is_final_item s ≡ true
      → Settled os is
      → Settled os (update (λ i. i.id) j (set_item s notes) is)
  Settled-set_item os is final h = record {
    at = λ k i o e e' v. elim (Option-cases (item_at k is)) [
      | inl gone ↦ ground (arith, item_at-update k is)
      | inr (x, here) ↦
          ground (arith, item_at-update k is, set_item-status x, set_item-order_id x, h.at k i o)
    ];
  }

  -- The item of an order that is not void is none that must stay.
  pub SameItems-update :
      (os : List VendorOrder) (before is : List LineItem) {line : LineItem} {order : VendorOrder}
      → item_at j before ≡ some line
      → order_at line.order_id os ≡ some order
      → is_void order.status ≡ false
      → SameItems os before is
      → SameItems os before (update (λ i. i.id) j (set_item s notes) is)
  SameItems-update os before is found owner live h = record {
    at = λ k i o e e' v. ground (arith, item_at-update k is, h.at k i o e e' v);
  }

Unique-append :
    (x : LineItem) (rows : List LineItem)
    → item_at x.id rows ≡ none
    → Unique rows
    → Unique (rows ++ x ∷ [])
Unique-append x [] new u = (refl, tt)
Unique-append x (r ∷ rows) new u =
    ground (arith, Unique-append x rows, find-append (λ (i : LineItem). i.id) r.id rows (x ∷ []))

-- What a batch of new rows does, by one of them at a time.
module _ (fresh : ℕ → Uuid) where
  insert_items-step :
      (k : ℕ) (x : LineItem) (new rows : List LineItem) {rows' : List LineItem}
      → insert_items fresh k (x ∷ new) rows ≡ some rows'
      → (item_at (fresh k) rows ≡ none)
        × (insert_items fresh (k + 1) new (rows ++ record x { id = fresh k } ∷ []) ≡ some rows')
  unfolding insert_items
  insert_items-step k x new rows e = ground arith

  insert_items-nil :
      (k : ℕ) (rows : List LineItem) {rows' : List LineItem}
      → insert_items fresh k [] rows ≡ some rows'
      → rows ≡ rows'
  unfolding insert_items
  insert_items-nil k rows e = cc

  pub insert_items-Unique :
      (k : ℕ) (new rows : List LineItem) {rows' : List LineItem}
      → insert_items fresh k new rows ≡ some rows'
      → Unique rows
      → Unique rows'
  insert_items-Unique k [] rows e u = subst Unique (insert_items-nil k rows e) u
  insert_items-Unique k (x ∷ new) rows e u =
      let (gone, rest) = insert_items-step k x new rows e in
      insert_items-Unique (k + 1) new _ rest (Unique-append (record x { id = fresh k }) rows gone u)

  pub insert_items-SameItems :
      (os : List VendorOrder) (k : ℕ) (new before rows : List LineItem) {rows' : List LineItem}
      → insert_items fresh k new rows ≡ some rows'
      → SameItems os before rows
      → SameItems os before rows'
  insert_items-SameItems os k [] before rows e h =
      subst (SameItems os before) (insert_items-nil k rows e) h
  insert_items-SameItems os k (x ∷ new) before rows e h =
      let (gone, rest) = insert_items-step k x new rows e in
      insert_items-SameItems os (k + 1) new before _ rest (record {
        at = λ j i o a b v. ground (
          arith,
          find-append (λ (r : LineItem). r.id) j rows (record x { id = fresh k } ∷ []),
          h.at j i o a b v,
        );
      })

  pub insert_items-Settled :
      (os : List VendorOrder) (order : VendorOrder) (k : ℕ) (new rows : List LineItem)
      {rows' : List LineItem}
      → order_at order.id os ≡ some order
      → is_void order.status ≡ false
      → All (λ (i : LineItem). i.order_id ≡ order.id) new
      → insert_items fresh k new rows ≡ some rows'
      → Settled os rows
      → Settled os rows'
  insert_items-Settled os order k [] rows found live own e h =
      subst (Settled os) (insert_items-nil k rows e) h
  insert_items-Settled os order k (x ∷ new) rows found live own e h =
      let (gone, rest) = insert_items-step k x new rows e in
      insert_items-Settled os order (k + 1) new _ found live own.1 rest (record {
        at = λ j i o a b v. ground (
          arith,
          find-append (λ (r : LineItem). r.id) j rows (record x { id = fresh k } ∷ []),
          h.at j i o,
          own.0,
        );
      })
