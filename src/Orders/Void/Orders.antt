-- ===== src/Orders/Void/Orders.antt =====
-- The orders' table: an update of an order that is not void, and a new order.
use packfinderz_backend.Prelude.{
  ◌==◌, if◌then◌else◌, true, false, some, List, [], ◌∷◌, ◌++◌, ◌≡◌, arith,
}
use packfinderz_backend.Store.Tables.{VendorOrder, LineItem, Uuid}
use packfinderz_backend.Store.Rows.{update, find-update, find-append}
use packfinderz_backend.Store.Columns.{OrderColumn, set_order, set_order-id}
use packfinderz_backend.Orders.Void.{is_void, is_final_item, order_at, item_at, Settled, SameOrders}

module _ (cs : List OrderColumn) (j : Uuid) (os : List VendorOrder) where
  pub order_at-update :
      (k : Uuid)
      → order_at k (update (λ o. o.id) j (set_order cs) os)
        ≡ (if k == j then mathlib.Core.Option.map (set_order cs) (order_at k os) else order_at k os)
  order_at-update k = find-update (λ o. o.id) (set_order cs) (set_order-id cs) k j os

  module _ {old : VendorOrder} (found : order_at j os ≡ some old) where
    -- An order that becomes void must have no open item.
    pub Settled-update :
        (is : List LineItem)
        → Settled os is
        → (is_void (set_order cs old).status ≡ true
            → (k : Uuid) (i : LineItem) → item_at k is ≡ some i
            → i.order_id ≡ j
            → is_final_item i.status ≡ true)
        → Settled (update (λ o. o.id) j (set_order cs) os) is
    Settled-update is h closing = record {
      at =
          λ k i o e e' v. ground (arith, order_at-update i.order_id, h.at k i o e, closing _ k i e);
    }

    pub SameOrders-update :
        (before : List VendorOrder)
        → is_void old.status ≡ false
        → SameOrders before os
        → SameOrders before (update (λ o. o.id) j (set_order cs) os)
    SameOrders-update before live h = record {
      at = λ k o e v. ground (arith, order_at-update k, h.at k o e v);
    }

module _ (os : List VendorOrder) (row : VendorOrder) (live : is_void row.status ≡ false) where
  pub Settled-append : (is : List LineItem) → Settled os is → Settled (os ++ row ∷ []) is
  Settled-append is h = record {
    at = λ k i o e e' v.
        ground
          (arith, find-append (λ (x : VendorOrder). x.id) i.order_id os (row ∷ []), h.at k i o e);
  }

  pub SameOrders-append :
      (before : List VendorOrder) → SameOrders before os → SameOrders before (os ++ row ∷ [])
  SameOrders-append before h = record {
    at = λ k o e v.
        ground (arith, find-append (λ (x : VendorOrder). x.id) k os (row ∷ []), h.at k o e v);
  }
