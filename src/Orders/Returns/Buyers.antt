-- ===== src/Orders/Returns/Buyers.antt =====
-- A cancelation and a nudge. The loop over the items goes by an invariant that the user of the
-- rule chooses.
use packfinderz_backend.Prelude.{some, false, none, List, [], ◌∷◌, ◌++◌, ◌≡◌, ◌≢◌, arith}
use packfinderz_backend.Enums.{ItemStatus, is_item}
use packfinderz_backend.Store.Tables.{VendorOrder, LineItem, InventoryItem, World}
use packfinderz_backend.Store.Rows.{find_all}
use packfinderz_backend.Store.Tx.{Env, ⊤}
use packfinderz_backend.Store.Post.{
  Post, pure-Post, if-Post, bind-Post, map_error-Post, fail_if-Post, for_each-Post,
}
use packfinderz_backend.Store.Repo.{order_row, set_outbox, set_inventory, stamped}
use packfinderz_backend.Store.Queries.{
  find_order_line_items_by_order-Post, update_order_line_item_status-Post, update_vendor_order-Post,
  emit-Post,
}
use packfinderz_backend.Orders.Input.{ActorInput, is_final_order_status}
use packfinderz_backend.Orders.Buyer.{
  cancel_item, cancel_in_tx, cancel_columns, canceled_event, nudge_in_tx, nudge_event,
}
use packfinderz_backend.Orders.Returns.Loads.{
  Released, load_vendor_order-Post, release_line_item-Post,
}
use packfinderz_backend.Orders.Returns.Decisions.{with_columns, with_item}

module _ (env : Env) {Q : ⊤ → World → Type 0} where
  -- A fulfilled item is passed over; any other gives its stock back, also one that is rejected.
  pub cancel_item-Post :
      (w : World) (i : LineItem)
      → (i.status ≡ ItemStatus.fulfilled → Q tt w)
      → (i.status ≡ ItemStatus.rejected
          → (rs : List InventoryItem) → Released i.product_id i.qty w.tables.inventory rs
          → Q tt (set_inventory (λ _. rs) w))
      → (i.status ≢ ItemStatus.fulfilled
          → i.status ≢ ItemStatus.rejected
          → (rs : List InventoryItem) → Released i.product_id i.qty w.tables.inventory rs
          → Q tt (with_item i.id ItemStatus.rejected none (set_inventory (λ _. rs) w)))
      → Post Q (cancel_item env i w)
  unfolding cancel_item
  cancel_item-Post w i done was now_ =
      if-Post (is_item i.status ItemStatus.fulfilled) _ _ w
        (λ e. pure-Post tt w (done (ground arith)))
        (λ e. bind-Post _ _ w (
          release_line_item-Post env w i λ rs r.
            if-Post (is_item i.status ItemStatus.rejected) _ _ _
              (λ f. pure-Post tt _ (was (ground arith) rs r))
              (λ f. map_error-Post _ _ _ (
                update_order_line_item_status-Post env _ i.id ItemStatus.rejected none
                  (now_ (ground arith) (ground arith) rs r)))))

  pub cancel_in_tx-Post :
      (w : World) (input : ActorInput) (I : VendorOrder → List LineItem → World → Type 0)
      → ((o : VendorOrder)
          → order_row input.order_id w ≡ some o
          → o.buyer_store_id ≡ input.actor_store_id
          → is_final_order_status o.status ≡ false
          → I o (find_all (λ i. i.order_id) o.id w.tables.items) w)
      → ((o : VendorOrder) (i : LineItem) (rest : List LineItem) (v : World)
          → I o (i ∷ rest) v
          → Post (λ _ u. I o rest u) (cancel_item env i v))
      → ((o : VendorOrder) (v : World)
          → I o [] v
          → Q tt (
              set_outbox
                (λ es. es ++ stamped env.now (canceled_event env.now input o) ∷ [])
                (with_columns o.id (cancel_columns env.now) v)))
      → Post Q (cancel_in_tx env input w)
  unfolding cancel_in_tx
  cancel_in_tx-Post w input I start round end = bind-Post _ _ w (
      load_vendor_order-Post env w input.order_id λ o found. bind-Post _ _ w (
        fail_if-Post _ _ w λ own. bind-Post _ _ w (
          fail_if-Post _ _ w λ open_. bind-Post _ _ w (
            map_error-Post _ _ w (
              find_order_line_items_by_order-Post env w o.id (
                bind-Post _ _ w (
                  for_each-Post (I o) (cancel_item env) (round o) _ w
                    (start o found (ground arith) (ground arith))
                    λ v h. bind-Post _ _ v (
                      map_error-Post _ _ v (
                        update_vendor_order-Post env v o.id (cancel_columns env.now) (λ e. cc)
                          (emit-Post env _ _ (end o v h)))))))))))

  pub nudge_in_tx-Post :
      (w : World) (input : ActorInput)
      → ((o : VendorOrder)
          → order_row input.order_id w ≡ some o
          → is_final_order_status o.status ≡ false
          → Q tt (set_outbox (λ es. es ++ stamped env.now (nudge_event input o) ∷ []) w))
      → Post Q (nudge_in_tx env input w)
  unfolding nudge_in_tx
  nudge_in_tx-Post w input q = bind-Post _ _ w (
      load_vendor_order-Post env w input.order_id λ o found. bind-Post _ _ w (
        fail_if-Post _ _ w
          λ own. bind-Post _ _ w (fail_if-Post _ _ w λ open_. emit-Post env w _ (q o found open_))))
