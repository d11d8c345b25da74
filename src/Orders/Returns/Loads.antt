-- ===== src/Orders/Returns/Loads.antt =====
-- The loads that the operations begin with, and the release of a line item's stock.
use packfinderz_backend.Prelude.{
  Option, none, some, ◌≡◌, refl, List, ℤ, pos, pos_part, leb_ℤ, false,
}
use packfinderz_backend.Store.Tables.{VendorOrder, LineItem, InventoryItem, World, Uuid}
use packfinderz_backend.Store.Rows.{update}
use packfinderz_backend.Store.Tx.{Env, ⊤}
use packfinderz_backend.Store.Post.{Post, pure-Post, if-Post, map_error-Post}
use packfinderz_backend.Store.Repo.{
  order_row, intent_row, active_row, release_row, set_inventory, OrderDetail,
}
use packfinderz_backend.Store.Queries.{find_vendor_order-Post, find_order_detail-Post, release-Post}
use packfinderz_backend.Orders.Input.{load_vendor_order, release_stock, release_line_item}
use packfinderz_backend.Orders.Agent.{load_order_detail}

-- The stock after a release: a product and a positive quantity move a row, anything else none.
pub data Released (p : Option Uuid) (qty : ℤ) (rs : List InventoryItem)
    : List InventoryItem → Type 0 where
  kept : Released p qty rs rs
  moved :
      (k : Uuid)
      → p ≡ some k
      → leb_ℤ qty (pos 0) ≡ false
      → Released p qty rs (update (λ r. r.product_id) k (release_row (pos_part qty)) rs)

module _ (env : Env) (w : World) where
  module _ {Q : VendorOrder → World → Type 0} where
    pub load_vendor_order-Post :
        (k : Uuid)
        → ((o : VendorOrder) → order_row k w ≡ some o → Q o w)
        → Post Q (load_vendor_order env k w)
    unfolding load_vendor_order
    load_vendor_order-Post k q = map_error-Post _ _ w (find_vendor_order-Post env w k q)

  module _ {Q : OrderDetail → World → Type 0} where
    pub load_order_detail-Post :
        (k : Uuid)
        → ((d : OrderDetail)
            → order_row k w ≡ some d.order
            → intent_row k w ≡ d.intent
            → active_row k w.tables.assignments ≡ d.active_assignment
            → Q d w)
        → Post Q (load_order_detail env k w)
    unfolding load_order_detail
    load_order_detail-Post k q = map_error-Post _ _ w (find_order_detail-Post env w k q)

  module _ {Q : ⊤ → World → Type 0} where
    pub release_stock-Post :
        (p : Option Uuid) (qty : ℤ)
        → ((rs : List InventoryItem)
            → Released p qty w.tables.inventory rs
            → Q tt (set_inventory (λ _. rs) w))
        → Post Q (release_stock env p qty w)
    release_stock-Post none qty q = pure-Post tt w (q _ Released.kept)
    release_stock-Post (some p) qty q =
        if-Post (leb_ℤ qty (pos 0)) _ _ w (λ _. pure-Post tt w (q _ Released.kept))
          (λ more.
            release-Post env w p qty (λ _. q _ Released.kept) (q _ (Released.moved p refl more)))

    pub release_line_item-Post :
        (i : LineItem)
        → ((rs : List InventoryItem)
            → Released i.product_id i.qty w.tables.inventory rs
            → Q tt (set_inventory (λ _. rs) w))
        → Post Q (release_line_item env i w)
    unfolding release_line_item
    release_line_item-Post i q = map_error-Post _ _ w (release_stock-Post i.product_id i.qty q)
