-- ===== src/Orders/Returns/Decisions.antt =====
-- The vendor's decisions, on an order and on a line item.
use packfinderz_backend.Prelude.{◌==◌, true, Option, some, List, [], ◌∷◌, ◌++◌, ◌≡◌, arith, ◌≢◌}
use packfinderz_backend.Enums.{OrderStatus, ItemStatus, is_status, is_item}
use packfinderz_backend.Store.Tables.{Blob, VendorOrder, LineItem, InventoryItem, World, Uuid}
use packfinderz_backend.Store.Rows.{update, find_all}
use packfinderz_backend.Store.Columns.{OrderColumn, set_order, set_item}
use packfinderz_backend.Store.Tx.{Env, ⊤}
use packfinderz_backend.Store.Post.{
  Post, pure-Post, if-Post, bind-Post, map_error-Post, fail_if-Post,
}
use packfinderz_backend.Store.Repo.{
  order_row, item_row, set_orders, set_outbox, set_items, set_inventory, stamped,
}
use packfinderz_backend.Store.Queries.{
  find_order_line_item-Post, find_order_line_items_by_order-Post, update_vendor_order_status-Post,
  update_order_line_item_status-Post, update_vendor_order-Post, emit-Post,
}
use packfinderz_backend.Orders.Input.{
  VendorDecisionInput, LineItemDecisionInput, can_transition_line_item_status,
}
use packfinderz_backend.Orders.Decision.{
  decide_order, decided_event, decide_line_item, write_item, resolve_item, recompute_order,
  ready_event, Tally, tally, new_total, fulfillment_of, money_columns, ready_columns,
}
use packfinderz_backend.Orders.Returns.Loads.{Released, load_vendor_order-Post, release_stock-Post}

module _ (env : Env) (w : World) {Q : ⊤ → World → Type 0} where
  -- An order that is already so is left alone; a pending one takes the decision.
  pub decide_order-Post :
      (input : VendorDecisionInput) (target : OrderStatus)
      → ((o : VendorOrder)
          → order_row input.order_id w ≡ some o
          → o.vendor_store_id ≡ input.actor_store_id
          → o.status ≡ target
          → Q tt w)
      → ((o : VendorOrder)
          → order_row input.order_id w ≡ some o
          → o.vendor_store_id ≡ input.actor_store_id
          → o.status ≡ OrderStatus.created_pending
          → Q tt (
              set_outbox
                (λ es. es ++ stamped env.now (decided_event input o target) ∷ [])
                (set_orders
                  (update (λ o. o.id) o.id (set_order (OrderColumn.status target ∷ [])))
                  w)))
      → Post Q (decide_order env input target w)
  unfolding decide_order
  decide_order-Post input target same taken = bind-Post _ _ w (
      load_vendor_order-Post env w input.order_id λ o found. bind-Post _ _ w (
        fail_if-Post _ _ w λ own.
          if-Post (is_status o.status target) _ _ w
            (λ e. pure-Post tt w (same o found (ground arith) (ground arith)))
            (λ differs. bind-Post _ _ w (
              fail_if-Post _ _ w λ pending. bind-Post _ _ w (
                map_error-Post _ _ w (
                  update_vendor_order_status-Post env w o.id target
                    (emit-Post env _ _ (taken o found (ground arith) (ground arith)))))))))

-- The order after a line item's decision: with items pending only its money is new.
abbrev pub open_columns : VendorOrder → Tally → List OrderColumn
open_columns o t = money_columns t.subtotal (new_total o t.subtotal)

abbrev pub closed_columns : VendorOrder → Tally → List OrderColumn
closed_columns o t = ready_columns t.subtotal (new_total o t.subtotal) (fulfillment_of t.rejected)

abbrev pub with_columns : Uuid → List OrderColumn → World → World
with_columns k cs = set_orders (update (λ o. o.id) k (set_order cs))

abbrev pub with_item : Uuid → ItemStatus → Option Blob → World → World
with_item k s notes = set_items (update (λ i. i.id) k (set_item s notes))

module _ (env : Env) {Q : ⊤ → World → Type 0} where
  pub recompute_order-Post :
      (w : World) (input : LineItemDecisionInput) (o : VendorOrder) (i : LineItem) (t : Tally)
      → (t.pending ≡ 0
          → Q tt (
              set_outbox
                (λ es. es ++ stamped env.now (ready_event input o i t) ∷ [])
                (with_columns o.id (closed_columns o t) w)))
      → (t.pending ≢ 0 → Q tt (with_columns o.id (open_columns o t) w))
      → Post Q (recompute_order env input o i t w)
  unfolding recompute_order
  recompute_order-Post w input o i t last more =
      if-Post (t.pending == 0) _ _ w
        (λ none_left. bind-Post _ _ w (
          map_error-Post _ _ w (
            update_vendor_order-Post env w o.id (closed_columns o t) (λ e. cc)
              (emit-Post env _ _ (last (ground arith))))))
        (λ some_left.
          map_error-Post _ _ w (
            update_vendor_order-Post env w o.id (open_columns o t) (λ e. cc) (more (ground arith))))

  -- The order's items after the decision on one of them, added up.
  pub write_item-Post :
      (w : World) (input : LineItemDecisionInput) (o : VendorOrder) (i : LineItem)
      (target : ItemStatus)
      → (let v = with_item i.id target input.notes w in
          let t = tally (find_all (λ x. x.order_id) o.id v.tables.items) in
          (t.pending ≡ 0
            → Q tt (
                set_outbox
                  (λ es. es ++ stamped env.now (ready_event input o i t) ∷ [])
                  (with_columns o.id (closed_columns o t) v)))
          × (t.pending ≢ 0 → Q tt (with_columns o.id (open_columns o t) v)))
      → Post Q (write_item env input o i target w)
  unfolding write_item
  write_item-Post w input o i target q = bind-Post _ _ w (
      map_error-Post _ _ w (
        update_order_line_item_status-Post env w i.id target input.notes (
          bind-Post _ _ _ (
            map_error-Post _ _ _ (
              find_order_line_items_by_order-Post env _ o.id
                (recompute_order-Post _ input o i _ q.0 q.1))))))

-- What a decision on a line item leaves: the stock, which only a rejection moves, the item's
-- status, and the order's columns.
pub record Decided (env : Env) (input : LineItemDecisionInput) (o : VendorOrder) (i : LineItem)
    (target : ItemStatus) (w : World) (Q : ⊤ → World → Type 0) (rs : List InventoryItem)
    : Type 0 where
  pub last :
      (let v = with_item i.id target input.notes (set_inventory (λ _. rs) w) in
        let t = tally (find_all (λ x. x.order_id) o.id v.tables.items) in
        t.pending ≡ 0
        → Q tt (
            set_outbox
              (λ es. es ++ stamped env.now (ready_event input o i t) ∷ [])
              (with_columns o.id (closed_columns o t) v)))
  pub more :
      (let v = with_item i.id target input.notes (set_inventory (λ _. rs) w) in
        let t = tally (find_all (λ x. x.order_id) o.id v.tables.items) in
        t.pending ≢ 0 → Q tt (with_columns o.id (open_columns o t) v))

module _ (env : Env) {Q : ⊤ → World → Type 0} where
  pub resolve_item-Post :
      (w : World) (input : LineItemDecisionInput) (o : VendorOrder) (i : LineItem)
      (target : ItemStatus)
      → (can_transition_line_item_status i.status ≡ true
          → target ≡ ItemStatus.rejected
          → (rs : List InventoryItem) → Released i.product_id i.qty w.tables.inventory rs
          → Decided env input o i target w Q rs)
      → (can_transition_line_item_status i.status ≡ true
          → target ≢ ItemStatus.rejected
          → Decided env input o i target w Q w.tables.inventory)
      → Post Q (resolve_item env input o i target w)
  unfolding resolve_item
  resolve_item-Post w input o i target back stay = bind-Post _ _ w (
      fail_if-Post _ _ w λ fine. bind-Post _ _ w (
        if-Post (is_item target ItemStatus.rejected) _ _ w
          (λ e. release_stock-Post env w i.product_id i.qty λ rs r.
            let d = back (ground arith) (ground arith) rs r in
            write_item-Post env _ input o i target (d.last, d.more))
          (λ e. pure-Post tt w (
            let d = stay (ground arith) (ground arith) in
            write_item-Post env _ input o i target (d.last, d.more)))))

  -- The item must belong to the order, and the order to the actor's store.
  pub decide_line_item-Post :
      (w : World) (input : LineItemDecisionInput) (target : ItemStatus)
      → ((o : VendorOrder) (i : LineItem)
          → order_row input.order_id w ≡ some o
          → item_row input.line_item_id w ≡ some i
          → i.order_id ≡ o.id
          → i.status ≡ target
          → Q tt w)
      → ((o : VendorOrder) (i : LineItem)
          → order_row input.order_id w ≡ some o
          → item_row input.line_item_id w ≡ some i
          → i.order_id ≡ o.id
          → can_transition_line_item_status i.status ≡ true
          → target ≡ ItemStatus.rejected
          → (rs : List InventoryItem) → Released i.product_id i.qty w.tables.inventory rs
          → Decided env input o i target w Q rs)
      → ((o : VendorOrder) (i : LineItem)
          → order_row input.order_id w ≡ some o
          → item_row input.line_item_id w ≡ some i
          → i.order_id ≡ o.id
          → can_transition_line_item_status i.status ≡ true
          → target ≢ ItemStatus.rejected
          → Decided env input o i target w Q w.tables.inventory)
      → Post Q (decide_line_item env input target w)
  unfolding decide_line_item
  decide_line_item-Post w input target same back stay = bind-Post _ _ w (
      load_vendor_order-Post env w input.order_id λ o found. bind-Post _ _ w (
        fail_if-Post _ _ w λ own. bind-Post _ _ w (
          map_error-Post _ _ w (
            find_order_line_item-Post env w input.line_item_id λ i item. bind-Post _ _ w (
              fail_if-Post _ _ w λ belongs.
                if-Post (is_item i.status target) _ _ w
                  (λ e. pure-Post tt w (same o i found item (ground arith) (ground arith)))
                  (λ e.
                    resolve_item-Post w input o i target (back o i found item (ground arith))
                      (stay o i found item (ground arith))))))))
