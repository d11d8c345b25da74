-- ===== src/Store/Queries.antt =====
-- The postcondition of each query of the repositories.
use packfinderz_backend.Prelude.{
  if◌then◌else◌, true, Option, Option-cases, inl, inr, none, some, List, [], ◌∷◌, ◌++◌, ◌≡◌, refl,
  ℤ, pos, pos_part, leb_ℤ,
}
use packfinderz_backend.Enums.{OrderStatus, ItemStatus}
use packfinderz_backend.Errors.{record_not_found, driver}
use packfinderz_backend.Store.Tables.{
  VendorOrder, LineItem, PaymentIntent, OutboxEvent, World, Uuid, Blob,
}
use packfinderz_backend.Store.Rows.{find_all, update}
use packfinderz_backend.Store.Columns.{
  OrderColumn, set_order, IntentColumn, set_intent, AssignmentColumn, set_assignment, set_item,
}
use packfinderz_backend.Store.Tx.{Call, Env, ⊤, call, or_raise, gets, modify}
use packfinderz_backend.Store.Post.{
  Post, pure-Post, gets-Post, or_raise-Post, modify-Post, call-Post, map_error-Post, bind-Post,
  if-Post,
}
use packfinderz_backend.Store.Repo.{
  order_row, item_row, intent_row, active_row, set_orders, set_items, set_intents, set_assignments,
  set_inventory, set_outbox, release_row, OrderDetail, find_vendor_order, find_order_line_item,
  find_order_line_items_by_order, find_order_detail, update_vendor_order,
  update_vendor_order_status, update_order_line_item_status, update_payment_intent,
  update_order_assignment, create_vendor_order, create_order_line_items, create_payment_intent,
  insert_items, release, emit, load_store_summary, is_store, stamped,
}

module _ (env : Env) (w : World) where
  module _ {Q : VendorOrder → World → Type 0} where
    pub find_vendor_order-Post :
        (k : Uuid)
        → ((o : VendorOrder) → order_row k w ≡ some o → Q o w)
        → Post Q (find_vendor_order env k w)
    unfolding find_vendor_order
    find_vendor_order-Post k q =
        call-Post env (Call.find_order k) (λ v. or_raise (order_row k v) record_not_found v) w
          (or_raise-Post (order_row k w) record_not_found w q)

  module _ {Q : LineItem → World → Type 0} where
    pub find_order_line_item-Post :
        (k : Uuid)
        → ((i : LineItem) → item_row k w ≡ some i → Q i w)
        → Post Q (find_order_line_item env k w)
    unfolding find_order_line_item
    find_order_line_item-Post k q =
        call-Post env (Call.find_item k) (λ v. or_raise (item_row k v) record_not_found v) w
          (or_raise-Post (item_row k w) record_not_found w q)

  module _ {Q : List LineItem → World → Type 0} where
    pub find_order_line_items_by_order-Post :
        (k : Uuid)
        → Q (find_all (λ i. i.order_id) k w.tables.items) w
        → Post Q (find_order_line_items_by_order env k w)
    unfolding find_order_line_items_by_order
    find_order_line_items_by_order-Post k q =
        call-Post env (Call.find_items k) (gets λ v. find_all (λ i. i.order_id) k v.tables.items) w
          (gets-Post (λ v. find_all (λ i. i.order_id) k v.tables.items) w q)

  module _ {Q : OrderDetail → World → Type 0} where
    -- The detail is made of the rows that belong to the order.
    pub find_order_detail-Post :
        (k : Uuid)
        → ((d : OrderDetail)
            → order_row k w ≡ some d.order
            → intent_row k w ≡ d.intent
            → active_row k w.tables.assignments ≡ d.active_assignment
            → Q d w)
        → Post Q (find_order_detail env k w)
    unfolding find_order_detail
    find_order_detail-Post k q = bind-Post _ _ w (
        call-Post env (Call.find_detail k) _ w (
          or_raise-Post (order_row k w) record_not_found w λ o found. bind-Post _ _ w (
            store_post o.buyer_store_id λ buyer. bind-Post _ _ w (
              store_post o.vendor_store_id
                λ vendor. gets-Post _ w (q (detail o buyer vendor) found refl refl)))))
      where
        detail : VendorOrder → Uuid → Uuid → OrderDetail
        detail o buyer vendor = record {
          order = o;
          intent = intent_row k w;
          buyer_store = buyer;
          vendor_store = vendor;
          active_assignment = active_row k w.tables.assignments;
        }

        store_post :
            {R : Uuid → World → Type 0} (s : Uuid)
            → ((u : Uuid) → R u w)
            → Post R (load_store_summary env s w)
        store_post s r = call-Post env (Call.load_store s) _ w (
            or_raise-Post (if is_store s w.tables.stores then some s else none) record_not_found w
              (λ u _. r u))

  module _ {Q : VendorOrder → World → Type 0} where
    -- The new row stands last, under an identifier that no row had.
    pub create_vendor_order-Post :
        (o : VendorOrder)
        → let row = record o { id = env.fresh 1; created_at = env.now } in
          (order_row row.id w ≡ none → Q row (set_orders (λ os. os ++ row ∷ []) w))
          → Post Q (create_vendor_order env o w)
    unfolding create_vendor_order
    create_vendor_order-Post o q =
        call-Post env Call.create_order _ w (elim (Option-cases (order_row (env.fresh 1) w)) [
          | inl new ↦ rw new (record { on = q new })
          | inr (old, taken) ↦ rw taken (record { on = tt })
        ])

  module _ {Q : ⊤ → World → Type 0} where
    write-Post : (c : Call) (f : World → World) → Q tt (f w) → Post Q (call env c (modify f) w)
    write-Post c f q = call-Post env c (modify f) w (modify-Post f w q)

    pub update_vendor_order-Post :
        (k : Uuid) (cs : List OrderColumn)
        → (cs ≡ [] → Q tt w)
        → Q tt (set_orders (update (λ o. o.id) k (set_order cs)) w)
        → Post Q (update_vendor_order env k cs w)
    unfolding update_vendor_order
    update_vendor_order-Post k [] q₀ q = pure-Post tt w (q₀ refl)
    update_vendor_order-Post k (c ∷ cs) q₀ q = write-Post (Call.update_order k) _ q

    pub update_vendor_order_status-Post :
        (k : Uuid) (s : OrderStatus)
        → Q tt (set_orders (update (λ o. o.id) k (set_order (OrderColumn.status s ∷ []))) w)
        → Post Q (update_vendor_order_status env k s w)
    unfolding update_vendor_order_status
    update_vendor_order_status-Post k s q = write-Post (Call.update_order k) _ q

    pub update_order_line_item_status-Post :
        (k : Uuid) (s : ItemStatus) (notes : Option Blob)
        → Q tt (set_items (update (λ i. i.id) k (set_item s notes)) w)
        → Post Q (update_order_line_item_status env k s notes w)
    unfolding update_order_line_item_status
    update_order_line_item_status-Post k s notes q = write-Post (Call.update_item k) _ q

    pub update_payment_intent-Post :
        (k : Uuid) (cs : List IntentColumn)
        → (cs ≡ [] → Q tt w)
        → Q tt (set_intents (update (λ p. p.order_id) k (set_intent cs)) w)
        → Post Q (update_payment_intent env k cs w)
    unfolding update_payment_intent
    update_payment_intent-Post k [] q₀ q = pure-Post tt w (q₀ refl)
    update_payment_intent-Post k (c ∷ cs) q₀ q = write-Post (Call.update_intent k) _ q

    pub update_order_assignment-Post :
        (k : Uuid) (cs : List AssignmentColumn)
        → (cs ≡ [] → Q tt w)
        → Q tt (set_assignments (update (λ a. a.id) k (set_assignment cs)) w)
        → Post Q (update_order_assignment env k cs w)
    unfolding update_order_assignment
    update_order_assignment-Post k [] q₀ q = pure-Post tt w (q₀ refl)
    update_order_assignment-Post k (c ∷ cs) q₀ q = write-Post (Call.update_assignment k) _ q

    pub create_order_line_items-Post :
        (is : List LineItem)
        → (is ≡ [] → Q tt w)
        → ((rows : List LineItem)
            → insert_items env.fresh 3 is w.tables.items ≡ some rows
            → Q tt (set_items (λ _. rows) w))
        → Post Q (create_order_line_items env is w)
    unfolding create_order_line_items
    create_order_line_items-Post [] q₀ q = pure-Post tt w (q₀ refl)
    create_order_line_items-Post (i ∷ is) q₀ q = call-Post env Call.create_items _ w (
        bind-Post _ _ w (
          or_raise-Post (insert_items env.fresh 3 (i ∷ is) w.tables.items) driver w
            λ rows e. modify-Post _ w (q rows e)))

    pub create_payment_intent-Post :
        (p : PaymentIntent)
        → Q tt (set_intents (λ ps. ps ++ record p { id = env.fresh 2 } ∷ []) w)
        → Post Q (create_payment_intent env p w)
    unfolding create_payment_intent
    create_payment_intent-Post p q = write-Post Call.create_intent _ q

    -- A quantity of zero or less releases nothing.
    pub release-Post :
        (p : Uuid) (qty : ℤ)
        → (leb_ℤ qty (pos 0) ≡ true → Q tt w)
        → Q tt (set_inventory (update (λ r. r.product_id) p (release_row (pos_part qty))) w)
        → Post Q (release env p qty w)
    unfolding release
    release-Post p qty q₀ q =
        if-Post (leb_ℤ qty (pos 0)) _ _ w (λ e. pure-Post tt w (q₀ e))
          (λ _. map_error-Post _ _ w (write-Post (Call.release p) _ q))

    pub emit-Post :
        (e : OutboxEvent)
        → Q tt (set_outbox (λ es. es ++ stamped env.now e ∷ []) w)
        → Post Q (emit env e w)
    unfolding emit
    emit-Post e q = write-Post (Call.emit e.event_type) _ q
