-- ===== src/Store/Repo.antt =====
-- internal/orders/repo.go, the inventory statement of internal/orders/service.go and the outbox of
-- pkg/outbox/service.go, one query each.
use packfinderz_backend.Prelude.{
  ℕ, ◌+◌, ◌-◌, ◌==◌, leb, if◌then◌else◌, Bool, false, ◌&&◌, ◌||◌, Option, none, some, List, [], ◌∷◌,
  ◌++◌, select, ℤ, pos, pos_part, leb_ℤ,
}
use packfinderz_backend.Enums.{
  OrderStatus, ItemStatus, EventType, AggregateType, is_status, is_event, is_aggregate,
}
use packfinderz_backend.Errors.{record_not_found, driver, ok, err}
use packfinderz_backend.Store.Tables.{
  VendorOrder, LineItem, PaymentIntent, Assignment, InventoryItem, OutboxEvent, World, Uuid, Blob,
  StoreRow,
}
use packfinderz_backend.Store.Rows.{find, find_all, update}
use packfinderz_backend.Store.Columns.{
  OrderColumn, set_order, IntentColumn, set_intent, AssignmentColumn, set_assignment, set_item,
}
use packfinderz_backend.Store.Tx.{
  Call, Env, M, ⊤, call, pure, gets, or_raise, modify, wrapped, ◌>>=◌,
}

abbrev pub order_row : Uuid → World → Option VendorOrder
order_row k w = find (λ o. o.id) k w.tables.orders

abbrev pub item_row : Uuid → World → Option LineItem
item_row k w = find (λ i. i.id) k w.tables.items

abbrev pub intent_row : Uuid → World → Option PaymentIntent
intent_row k w = find (λ p. p.order_id) k w.tables.intents

-- The first active assignment of an order.
abbrev pub active_row : Uuid → List Assignment → Option Assignment
active_row k [] = none
active_row k (a ∷ rest) = if a.order_id == k && a.active then some a else active_row k rest

abbrev pub is_store : Uuid → List StoreRow → Bool
is_store k [] = false
is_store k (s ∷ ss) = s.id == k || is_store k ss

-- `UPDATE inventory_items SET available_qty = available_qty + ?, reserved_qty = reserved_qty - ?
-- WHERE product_id = ? AND reserved_qty >= ?`
abbrev pub release_row : ℕ → InventoryItem → InventoryItem
release_row q r =
    if leb q r.reserved_qty
    then record r { available_qty = r.available_qty + q; reserved_qty = r.reserved_qty - q }
    else r

abbrev pub set_orders : (List VendorOrder → List VendorOrder) → World → World
set_orders f w = record w { tables = record (w.tables) { orders = f w.tables.orders } }

abbrev pub set_items : (List LineItem → List LineItem) → World → World
set_items f w = record w { tables = record (w.tables) { items = f w.tables.items } }

abbrev pub set_intents : (List PaymentIntent → List PaymentIntent) → World → World
set_intents f w = record w { tables = record (w.tables) { intents = f w.tables.intents } }

abbrev pub set_assignments : (List Assignment → List Assignment) → World → World
set_assignments f w = record w {
  tables = record (w.tables) { assignments = f w.tables.assignments };
}

abbrev pub set_inventory : (List InventoryItem → List InventoryItem) → World → World
set_inventory f w = record w { tables = record (w.tables) { inventory = f w.tables.inventory } }

abbrev pub set_outbox : (List OutboxEvent → List OutboxEvent) → World → World
set_outbox f w = record w { tables = record (w.tables) { outbox = f w.tables.outbox } }

-- `COUNT(*) > 0` of the events of a type on an aggregate
abbrev pub any_event : EventType → AggregateType → Uuid → List OutboxEvent → Bool
any_event t a k [] = false
any_event t a k (e ∷ es) =
    (is_event e.event_type t && is_aggregate e.aggregate_type a && e.aggregate_id == k)
    || any_event t a k es

-- The view of `FindOrderDetail` that the services read. The code builds `Order` from the row that
-- it has found, so it is never nil.
pub record OrderDetail : Type 0 where
  pub order : VendorOrder
  pub intent : Option PaymentIntent
  pub buyer_store : Uuid
  pub vendor_store : Uuid
  pub active_assignment : Option Assignment

-- An event that gives no time is stamped with the current one.
abbrev pub stamped : ℕ → OutboxEvent → OutboxEvent
stamped now e = record e { occurred_at = if e.occurred_at == 0 then now else e.occurred_at }

-- Rows that are created get the identifiers `fresh k`, `fresh (k + 1)`, …; one that is taken
-- breaks the primary key.
unfoldable pub insert_items :
    (ℕ → Uuid) → ℕ → List LineItem → List LineItem → Option (List LineItem)
insert_items fresh k [] rows = some rows
insert_items fresh k (i ∷ is) rows =
    let rest = insert_items fresh (k + 1) is (rows ++ record i { id = fresh k } ∷ []) in
    elim (find (λ r. r.id) (fresh k) rows) [ some old ↦ none | none ↦ rest ]

module _ (env : Env) where
  unfoldable pub find_vendor_order : Uuid → M VendorOrder
  find_vendor_order k =
      call env (Call.find_order k) (λ w. or_raise (order_row k w) record_not_found w)

  unfoldable pub find_order_line_item : Uuid → M LineItem
  find_order_line_item k =
      call env (Call.find_item k) (λ w. or_raise (item_row k w) record_not_found w)

  unfoldable pub find_order_line_items_by_order : Uuid → M (List LineItem)
  find_order_line_items_by_order k =
      call env (Call.find_items k) (gets λ w. find_all (λ i. i.order_id) k w.tables.items)

  unfoldable pub find_payment_intent_by_order : Uuid → M PaymentIntent
  find_payment_intent_by_order k =
      call env Call.find_intent (λ w. or_raise (intent_row k w) record_not_found w)

  -- The cutoff is now less an age: `created_at <= now - age`, written without a subtraction.
  unfoldable pub find_pending_orders_before : ℕ → M (List VendorOrder)
  find_pending_orders_before age = call env Call.find_pending (
      gets λ w.
        select
          (λ o. is_status o.status OrderStatus.created_pending && leb (o.created_at + age) env.now)
          w.tables.orders)

  -- `if len(updates) == 0 { return nil }`
  unfoldable pub update_vendor_order : Uuid → List OrderColumn → M ⊤
  update_vendor_order k [] = pure tt
  update_vendor_order k (c ∷ cs) =
      call env (Call.update_order k)
        (modify (set_orders (update (λ o. o.id) k (set_order (c ∷ cs)))))

  unfoldable pub update_vendor_order_status : Uuid → OrderStatus → M ⊤
  update_vendor_order_status k s =
      call env (Call.update_order k)
        (modify (set_orders (update (λ o. o.id) k (set_order (OrderColumn.status s ∷ [])))))

  unfoldable pub update_order_line_item_status : Uuid → ItemStatus → Option Blob → M ⊤
  update_order_line_item_status k s notes =
      call env (Call.update_item k) (modify (set_items (update (λ i. i.id) k (set_item s notes))))

  unfoldable pub update_payment_intent : Uuid → List IntentColumn → M ⊤
  update_payment_intent k [] = pure tt
  update_payment_intent k (c ∷ cs) =
      call env (Call.update_intent k)
        (modify (set_intents (update (λ p. p.order_id) k (set_intent (c ∷ cs)))))

  unfoldable pub update_order_assignment : Uuid → List AssignmentColumn → M ⊤
  update_order_assignment k [] = pure tt
  update_order_assignment k (c ∷ cs) =
      call env (Call.update_assignment k)
        (modify (set_assignments (update (λ a. a.id) k (set_assignment (c ∷ cs)))))

  -- The order comes back with the identifier and the time that the database gave it. A row with
  -- that identifier would break the primary key.
  unfoldable pub create_vendor_order : VendorOrder → M VendorOrder
  create_vendor_order o =
      let row = record o { id = env.fresh 1; created_at = env.now } in
      call env Call.create_order (λ w. elim (order_row row.id w) [
        | some old ↦ (err driver, w)
        | none ↦ (ok row, set_orders (λ os. os ++ row ∷ []) w)
      ])

  unfoldable pub create_order_line_items : List LineItem → M ⊤
  create_order_line_items [] = pure tt
  create_order_line_items (i ∷ is) = call env Call.create_items (λ w.
      (or_raise (insert_items env.fresh 3 (i ∷ is) w.tables.items) driver >>= λ rows.
      modify (set_items λ _. rows))
        w)

  unfoldable pub create_payment_intent : PaymentIntent → M ⊤
  create_payment_intent p =
      call env Call.create_intent
        (modify (set_intents λ ps. ps ++ record p { id = env.fresh 2 } ∷ []))

  -- `loadStoreSummary`
  unfoldable pub load_store_summary : Uuid → M Uuid
  load_store_summary k =
      call env (Call.load_store k)
        (λ w. or_raise (if is_store k w.tables.stores then some k else none) record_not_found w)

  unfoldable pub find_order_detail : Uuid → M OrderDetail
  unfolding load_store_summary
  find_order_detail k = do
    order ← call env (Call.find_detail k) (λ w. or_raise (order_row k w) record_not_found w)
    buyer ← load_store_summary order.buyer_store_id
    vendor ← load_store_summary order.vendor_store_id
    gets λ w. record {
      order = order;
      intent = intent_row k w;
      buyer_store = buyer;
      vendor_store = vendor;
      active_assignment = active_row k w.tables.assignments;
    }

  -- `inventoryReleaserImpl.Release`
  unfoldable pub release : Uuid → ℤ → M ⊤
  release product qty =
      if leb_ℤ qty (pos 0)
      then pure tt
      else wrapped (
          call env (Call.release product) (
            modify
              (set_inventory (update (λ r. r.product_id) product (release_row (pos_part qty))))))

  -- `Service.Emit` of pkg/outbox/service.go
  unfoldable pub emit : OutboxEvent → M ⊤
  emit e =
      call env (Call.emit e.event_type) (modify (set_outbox λ es. es ++ stamped env.now e ∷ []))

  -- `Repository.Exists` of pkg/outbox/repository.go
  unfoldable pub outbox_exists : EventType → AggregateType → Uuid → M Bool
  outbox_exists t a k = call env Call.outbox_exists (gets λ w. any_event t a k w.tables.outbox)
