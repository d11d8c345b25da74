-- ===== src/Orders/Void/Closing.antt =====
-- The loops that close an order: what holds after some of its items, and what at the end.
use packfinderz_backend.Prelude.{
  ◌==◌, Bool, true, false, ◌||◌, Option, none, some, List, [], ◌∷◌, ◌≡◌, arith, All, Option-cases,
  Bool-cases, inl, inr,
}
use packfinderz_backend.Enums.{ItemStatus}
use packfinderz_backend.Store.Tables.{VendorOrder, LineItem, Uuid, Blob}
use packfinderz_backend.Store.Rows.{find_all, update}
use packfinderz_backend.Store.Columns.{OrderColumn, set_order, set_item}
use packfinderz_backend.Orders.Void.{is_void, is_final_item, order_at, item_at, Unique, Frozen}
use packfinderz_backend.Orders.Void.Orders.{Settled-update, SameOrders-update}
use packfinderz_backend.Orders.Void.Items.{
  item_at-update, Unique-update, Settled-set_item, SameItems-update, set_item-status,
  set_item-order_id,
}

abbrev pub in_ids : Uuid → List LineItem → Bool
in_ids k [] = false
in_ids k (x ∷ xs) = x.id == k || in_ids k xs

-- The items of the order that are not yet final are as they were, and among those to come.
pub record Closing (order : VendorOrder) (os : List VendorOrder) (is : List LineItem)
    (rest : List LineItem) (os' : List VendorOrder) (is' : List LineItem) : Type 0 where
  pub frozen : Frozen os is os' is'
  pub first : order_at order.id os ≡ some order
  pub found : order_at order.id os' ≡ some order
  pub live : is_void order.status ≡ false
  pub own : All (λ x. (item_at x.id is ≡ some x) × (x.order_id ≡ order.id)) rest
  pub left :
      (k : Uuid) (i : LineItem)
      → item_at k is' ≡ some i
      → i.order_id ≡ order.id
      → (is_final_item i.status || in_ids k rest) ≡ true
  pub old :
      (k : Uuid) (i : LineItem)
      → item_at k is' ≡ some i
      → is_final_item i.status ≡ false
      → item_at k is ≡ some i

find_all-in_ids :
    (j k : Uuid) (is : List LineItem) {i : LineItem}
    → item_at k is ≡ some i
    → i.order_id ≡ j
    → in_ids k (find_all (λ x. x.order_id) j is) ≡ true
find_all-in_ids j k [] e own = cc
find_all-in_ids j k (x ∷ is) {i} e own = ground (arith, find_all-in_ids j k is {i = i})

module _ (j : Uuid) where
  find_all-own :
      (is all : List LineItem)
      → All (λ x. item_at x.id all ≡ some x) is
      → All (λ x. (item_at x.id all ≡ some x) × (x.order_id ≡ j)) (find_all (λ x. x.order_id) j is)
  find_all-own [] all h = tt
  find_all-own (x ∷ is) all h = elim (Bool-cases (x.order_id == j)) [
    | inl hit ↦ rw hit ((h.0, ground arith), find_all-own is all h.1)
    | inr miss ↦ rw miss (find_all-own is all h.1)
  ]

All-behind :
    (x : LineItem) (is xs : List LineItem)
    → item_at x.id is ≡ none
    → All (λ y. item_at y.id is ≡ some y) xs
    → All (λ y. item_at y.id (x ∷ is) ≡ some y) xs
All-behind x is [] new h = tt
All-behind x is (y ∷ xs) new h = (
  (elim (Bool-cases (x.id == y.id)) [
    | inl hit ↦ let same : x.id ≡ y.id = ground arith in ground (arith, h.0)
    | inr miss ↦ rw miss h.0
  ]),
  All-behind x is xs new h.1,
)

Unique-All : (is : List LineItem) → Unique is → All (λ x. item_at x.id is ≡ some x) is
Unique-All [] u = tt
Unique-All (x ∷ is) u = (ground arith, All-behind x is is u.0 (Unique-All is u.1))

module _ (order : VendorOrder) (os : List VendorOrder) (is : List LineItem) where
  pub start-Closing :
      Frozen os is os is
      → order_at order.id os ≡ some order
      → is_void order.status ≡ false
      → Closing order os is (find_all (λ x. x.order_id) order.id is) os is
  start-Closing h found live = record {
    frozen = h;
    first = found;
    found = found;
    live = live;
    own = find_all-own order.id is is (Unique-All is h.unique);
    left = λ k i e own. ground (arith, find_all-in_ids order.id k is e own);
    old = λ k i e f. e;
  }

  module _ (i : LineItem) (rest : List LineItem) (os' : List VendorOrder)
      (is' : List LineItem) where
    pub pass_final :
        is_final_item i.status ≡ true
        → Closing order os is (i ∷ rest) os' is'
        → Closing order os is rest os' is'
    pass_final final h = record {
      frozen = h.frozen;
      first = h.first;
      found = h.found;
      live = h.live;
      own = h.own.1;
      left = λ k x e own. ground (arith, h.left k x e own, h.old k x e, h.own.0);
      old = h.old;
    }

    pub make_final :
        (s : ItemStatus) (notes : Option Blob)
        → is_final_item s ≡ true
        → Closing order os is (i ∷ rest) os' is'
        → Closing order os is rest os' (update (λ x. x.id) i.id (set_item s notes) is')
    make_final s notes final h = record {
      frozen = record {
        settled = Settled-set_item s notes i.id os' is' final h.frozen.settled;
        unique = Unique-update s notes i.id is' h.frozen.unique;
        same_orders = h.frozen.same_orders;
        same_items =
            SameItems-update s notes i.id os is is' {line = i} {order = order} h.own.0.0
              (rw h.own.0.1 h.first) h.live h.frozen.same_items;
      };
      first = h.first;
      found = h.found;
      live = h.live;
      own = h.own.1;
      left = λ k x e own. elim (Option-cases (item_at k is')) [
        | inl gone ↦ ground (arith, item_at-update s notes i.id k is')
        | inr (y, here) ↦ ground (
          arith,
          item_at-update s notes i.id k is',
          set_item-status s notes i.id y,
          set_item-order_id s notes i.id y,
          h.left k y here,
        )
      ];
      old = λ k x e f. elim (Option-cases (item_at k is')) [
        | inl gone ↦ ground (arith, item_at-update s notes i.id k is')
        | inr (y, here) ↦ ground (
          arith,
          item_at-update s notes i.id k is',
          set_item-status s notes i.id y,
          h.old k y here,
        )
      ];
    }

  pub end-Closing :
      (cs : List OrderColumn) (os' : List VendorOrder) (is' : List LineItem)
      → Closing order os is [] os' is'
      → Frozen os is (update (λ o. o.id) order.id (set_order cs) os') is'
  end-Closing cs os' is' h = record {
    settled =
        Settled-update cs order.id os' h.found is' h.frozen.settled
          λ _ k i e own. ground (arith, h.left k i e own);
    unique = h.frozen.unique;
    same_orders = SameOrders-update cs order.id os' h.found os h.live h.frozen.same_orders;
    same_items = h.frozen.same_items;
  }
