-- ===== src/Orders/Returns/Expiry.antt =====
-- The expiry of an order by the scheduled job.
use packfinderz_backend.Prelude.{some, not, true, false, none, List, [], ◌∷◌, ◌++◌, ◌≡◌, ◌≢◌, arith}
use packfinderz_backend.Enums.{OrderStatus, ItemStatus, is_status, is_item}
use packfinderz_backend.Store.Tables.{VendorOrder, LineItem, InventoryItem, World}
use packfinderz_backend.Store.Rows.{find_all}
use packfinderz_backend.Store.Tx.{Env, ⊤}
use packfinderz_backend.Store.Post.{Post, pure-Post, if-Post, bind-Post, for_each-Post}
use packfinderz_backend.Store.Repo.{order_row, set_outbox, set_inventory, stamped}
use packfinderz_backend.Store.Queries.{
  find_vendor_order-Post, find_order_line_items_by_order-Post, update_order_line_item_status-Post,
  update_vendor_order-Post, emit-Post,
}
use packfinderz_backend.Cron.OrderTtl.{
  is_resolved, expire_item, expire_in_tx, expire_columns, expired_event,
}
use packfinderz_backend.Orders.Returns.Loads.{Released, release_line_item-Post}
use packfinderz_backend.Orders.Returns.Decisions.{with_columns, with_item}

module _ (env : Env) {Q : ⊤ → World → Type 0} where
  -- An item that is resolved is passed over.
  pub expire_item-Post :
      (w : World) (i : LineItem)
      → (is_resolved i.status ≡ true → Q tt w)
      → (is_resolved i.status ≡ false
          → (rs : List InventoryItem) → Released i.product_id i.qty w.tables.inventory rs
          → Q tt (with_item i.id ItemStatus.rejected none (set_inventory (λ _. rs) w)))
      → Post Q (expire_item env i w)
  unfolding expire_item
  expire_item-Post w i done now_ =
      if-Post (is_resolved i.status) _ _ w (λ e. pure-Post tt w (done e))
        (λ e. bind-Post _ _ w (
          release_line_item-Post env w i λ rs r.
            if-Post (not (is_item i.status ItemStatus.rejected)) _ _ _
              (λ f.
                update_order_line_item_status-Post env _ i.id ItemStatus.rejected none
                  (now_ e rs r))
              (λ f. ground arith)))

  pub expire_in_tx-Post :
      (w : World) (order : VendorOrder) (I : VendorOrder → List LineItem → World → Type 0)
      → ((o : VendorOrder)
          → order_row order.id w ≡ some o
          → o.status ≢ OrderStatus.created_pending
          → Q tt w)
      → ((o : VendorOrder)
          → order_row order.id w ≡ some o
          → o.status ≡ OrderStatus.created_pending
          → I o (find_all (λ i. i.order_id) order.id w.tables.items) w)
      → ((o : VendorOrder) (i : LineItem) (rest : List LineItem) (v : World)
          → I o (i ∷ rest) v
          → Post (λ _ u. I o rest u) (expire_item env i v))
      → ((o : VendorOrder) (v : World)
          → I o [] v
          → Q tt (
              set_outbox
                (λ es. es ++ stamped env.now (expired_event env.now order) ∷ [])
                (with_columns order.id (expire_columns env.now) v)))
      → Post Q (expire_in_tx env order w)
  unfolding expire_in_tx
  expire_in_tx-Post w order I skip start round end = bind-Post _ _ w (
      find_vendor_order-Post env w order.id λ o found.
        if-Post (not (is_status o.status OrderStatus.created_pending)) _ _ w
          (λ e. pure-Post tt w (skip o found (ground arith)))
          (λ e. bind-Post _ _ w (
            find_order_line_items_by_order-Post env w order.id (
              bind-Post _ _ w (
                for_each-Post (I o) (expire_item env) (round o) _ w (start o found (ground arith))
                  λ v h. bind-Post _ _ v (
                    update_vendor_order-Post env v order.id (expire_columns env.now) (λ e. cc)
                      (emit-Post env _ _ (end o v h))))))))
