-- ===== src/Orders/Returns/Retries.antt =====
-- A retry: the new order and its items, the stock that they take, and the new intent.
use packfinderz_backend.Prelude.{
  sym, not, false, none, some, List, [], ◌∷◌, ◌++◌, ◌≡◌, refl, arith, map,
}
use mathlib.Core.Path.{subst}
use packfinderz_backend.Errors.{Result, ok, err}
use packfinderz_backend.Enums.{OrderStatus, PaymentMethod, is_status}
use packfinderz_backend.Store.Tables.{
  PaymentIntent, VendorOrder, LineItem, InventoryItem, World, Uuid,
}
use packfinderz_backend.Store.Rows.{find_all}
use packfinderz_backend.Store.Tx.{pure, wrapped, or_raise, Env, ⊤, ◌>>=◌, ◌>>◌, call}
use packfinderz_backend.Store.Post.{Post, pure-Post, bind-Post, map_error-Post, fail_if-Post}
use packfinderz_backend.Store.Repo.{
  emit, create_payment_intent, order_row, find_payment_intent_by_order, set_orders, set_items,
  set_intents, set_outbox, set_inventory, stamped, insert_items,
}
use packfinderz_backend.Store.Queries.{
  find_order_line_items_by_order-Post, create_vendor_order-Post, create_order_line_items-Post,
  create_payment_intent-Post, emit-Post,
}
use packfinderz_backend.Reservation.{Request}
use packfinderz_backend.Reservation.Returns.{Taken, none_taken, reserve_inventory-Post}
use packfinderz_backend.Orders.Input.{ActorInput}
use packfinderz_backend.Orders.Retry.{
  retry_in_tx, retry_method, reserve_all, retry_requests, retried_order, retried_item,
  retried_intent, retried_event,
}
use packfinderz_backend.Orders.Returns.Loads.{load_vendor_order-Post}

module _ (env : Env) where
  reserve_all-Post :
      {Q : ⊤ → World → Type 0} (w : World) (reqs : List Request)
      → ((rs : List InventoryItem) → Taken w.tables.inventory rs → Q tt (set_inventory (λ _. rs) w))
      → Post Q (reserve_all env reqs w)
  unfolding reserve_all
  reserve_all-Post w [] q = pure-Post tt w (q _ none_taken)
  reserve_all-Post w (r ∷ reqs) q = bind-Post _ _ w (
      reserve_inventory-Post env w.tables.inventory (r ∷ reqs) w none_taken
        λ results rs t. fail_if-Post _ _ _ (λ e. q rs t))

  find_payment_intent_by_order-world :
      (k : Uuid) (w : World) → (find_payment_intent_by_order env k w).1 ≡ w
  unfolding find_payment_intent_by_order call or_raise
  find_payment_intent_by_order-world k w = ground arith

  method_result :
      {Q : PaymentMethod → World → Type 0} (r : Result PaymentIntent) (v : World)
      → ((m : PaymentMethod) → Q m v)
      → Post Q (elim r [ ok p ↦ (ok p.method, v) | err e ↦ (ok PaymentMethod.cash, v) ])
  method_result (ok p) v q = record { on = q p.method }
  method_result (err e) v q = record { on = q PaymentMethod.cash }

  retry_method-Post :
      {Q : PaymentMethod → World → Type 0} (w : World) (k : Uuid)
      → ((m : PaymentMethod) → Q m w)
      → Post Q (retry_method env k w)
  unfolding retry_method
  retry_method-Post {Q} w k q =
      let (r, v) = find_payment_intent_by_order env k w in
      let same =
        method_result r v (λ m. subst (Q m) (sym (find_payment_intent_by_order-world k w)) (q m)) in
      record { on = same.on }

  -- The order that the database has made of the retried one.
  abbrev pub created_order : VendorOrder → VendorOrder
  created_order o = record (retried_order (env.fresh 0) o) {
    id = env.fresh 1;
    created_at = env.now;
  }

  no_items :
      (is rows : List LineItem)
      → map (retried_item (env.fresh 1)) is ≡ []
      → insert_items env.fresh 3 (map (retried_item (env.fresh 1)) is) rows ≡ some rows
  unfolding insert_items
  no_items [] rows e = refl
  no_items (i ∷ is) rows e = cc

  pub retry_in_tx-Post :
      {Q : Uuid → World → Type 0} (w : World) (input : ActorInput)
      → ((o : VendorOrder) (rows : List LineItem) (rs : List InventoryItem) (m : PaymentMethod)
          → order_row input.order_id w ≡ some o
          → o.status ≡ OrderStatus.expired
          → order_row (env.fresh 1) w ≡ none
          → insert_items env.fresh 3
              (map (retried_item (env.fresh 1)) (find_all (λ i. i.order_id) o.id w.tables.items))
              w.tables.items
            ≡ some rows
          → Taken w.tables.inventory rs
          → Q (env.fresh 1) (
              set_outbox
                (λ es. es ++ stamped env.now (retried_event input o (created_order o)) ∷ [])
                (set_intents
                  (λ ps.
                    ps ++ record (retried_intent m (created_order o)) { id = env.fresh 2 } ∷ [])
                  (set_inventory
                    (λ _. rs)
                    (set_items (λ _. rows) (set_orders (λ os. os ++ created_order o ∷ []) w))))))
      → Post Q (retry_in_tx env input w)
  unfolding retry_in_tx
  retry_in_tx-Post {Q} w input q = bind-Post _ _ w (
      load_vendor_order-Post env w input.order_id λ o found. bind-Post _ _ w (
        fail_if-Post _ _ w λ own. bind-Post _ _ w (
          fail_if-Post _ _ w λ expired. bind-Post _ _ w (
            map_error-Post _ _ w (
              find_order_line_items_by_order-Post env w o.id (
                bind-Post _ _ w (
                  map_error-Post _ _ w (
                    create_vendor_order-Post env w (retried_order (env.fresh 0) o) λ new.
                      bind-Post _ _ _ (
                        map_error-Post _ _ _ (
                          create_order_line_items-Post env _ _
                            (λ e. rest o found expired new _ (
                              no_items (find_all (λ i. i.order_id) o.id w.tables.items)
                                w.tables.items e))
                            (λ rows e. rest o found expired new rows e)))))))))))
    where
      rest :
          (o : VendorOrder)
          → order_row input.order_id w ≡ some o
          → not (is_status o.status OrderStatus.expired) ≡ false
          → order_row (env.fresh 1) w ≡ none
          → (rows : List LineItem)
          → insert_items env.fresh 3
              (map (retried_item (env.fresh 1)) (find_all (λ i. i.order_id) o.id w.tables.items))
              w.tables.items
            ≡ some rows
          → Post Q (
              (do
                reserve_all env (retry_requests (find_all (λ i. i.order_id) o.id w.tables.items))
                method ← retry_method env o.id
                wrapped (create_payment_intent env (retried_intent method (created_order o)))
                emit env (retried_event input o (created_order o))
                pure (env.fresh 1))
                (set_items (λ _. rows) (set_orders (λ os. os ++ created_order o ∷ []) w)))
      rest o found expired new rows e = bind-Post _ _ _ (
          reserve_all-Post _ _ λ rs t. bind-Post _ _ _ (
            retry_method-Post _ _ λ m. bind-Post _ _ _ (
              map_error-Post _ _ _ (
                create_payment_intent-Post env _ _ (
                  bind-Post _ _ _ (
                    emit-Post env _ _
                      (pure-Post _ _ (q o rows rs m found (ground arith) new e t))))))))
