-- ===== src/Cron/OrderTtl.antt =====
-- internal/cron/order_ttl_job.go: orders that stay pending are nudged after five days, and expire
-- after ten.
use packfinderz_backend.Prelude.{List, ℕ, ◌*◌, if◌then◌else◌, not, Bool, ◌||◌, none, [], ◌∷◌, pos}
use packfinderz_backend.Enums.{
  OrderStatus, ItemStatus, EventType, AggregateType, is_status, is_item,
}
use packfinderz_backend.Errors.{driver, Result, ok, err}
use packfinderz_backend.Store.Tables.{VendorOrder, LineItem, OutboxEvent, Payload}
use packfinderz_backend.Store.Columns.{OrderColumn}
use packfinderz_backend.Store.Tx.{Env, M, ⊤, pure, with_tx, for_each, ◌>>=◌, ◌>>◌}
use packfinderz_backend.Store.Repo.{
  find_vendor_order, find_order_line_items_by_order, find_pending_orders_before,
  update_vendor_order, update_order_line_item_status, emit, outbox_exists,
}
use packfinderz_backend.Orders.Input.{order_ref, release_line_item}

-- `pendingNudgeDays`
abbrev pub pending_nudge_days : ℕ
pending_nudge_days = 5

-- `orderExpirationDays`
abbrev pub order_expiration_days : ℕ
order_expiration_days = 10

-- Times are in seconds here.
abbrev pub day : ℕ
day = 86400

-- `multierr.Combine` of the two errors
abbrev pub combine : Result ⊤ → Result ⊤ → Result ⊤
combine (ok u) r = r
combine (err e) (ok u) = err e
combine (err e) (err f) = err driver

abbrev pub is_resolved : ItemStatus → Bool
is_resolved s = is_item s ItemStatus.fulfilled || is_item s ItemStatus.rejected

abbrev pub expire_columns : ℕ → List OrderColumn
expire_columns now =
    OrderColumn.status OrderStatus.expired
    ∷ OrderColumn.balance_due_cents (pos 0)
    ∷ OrderColumn.expired_at now
    ∷ []

abbrev pub expired_event : ℕ → VendorOrder → OutboxEvent
expired_event now order = record {
  event_type = EventType.order_expired;
  aggregate_type = AggregateType.vendor_order;
  aggregate_id = order.id;
  actor = none;
  occurred_at = now;
  payload = Payload.expired (order_ref order) now;
}

module _ (env : Env) where
  -- One round of the loop of `expireOrder`.
  unfoldable pub expire_item : LineItem → M ⊤
  expire_item item = if is_resolved item.status then pure tt else do
    release_line_item env item
    if not (is_item item.status ItemStatus.rejected)
        then update_order_line_item_status env item.id ItemStatus.rejected none
        else pure tt

  unfoldable pub expire_in_tx : VendorOrder → M ⊤
  unfolding expire_item
  expire_in_tx order = do
    current ← find_vendor_order env order.id
    if not (is_status current.status OrderStatus.created_pending) then pure tt else do
      items ← find_order_line_items_by_order env order.id
      for_each items (expire_item)
      update_vendor_order env order.id (expire_columns env.now)
      emit env (expired_event env.now order)

  -- `expireOrder`
  unfoldable pub expire_order : VendorOrder → M ⊤
  unfolding expire_in_tx
  expire_order order = with_tx env (expire_in_tx order)

  -- `expirePendingOrders`
  unfoldable pub expire_pending_orders : M ⊤
  unfolding expire_order
  expire_pending_orders = do
    orders ← find_pending_orders_before env (order_expiration_days * day)
    for_each orders (expire_order)

  -- `emitPendingNudge`: at most one nudge for an order.
  unfoldable pub emit_pending_nudge : VendorOrder → M ⊤
  emit_pending_nudge order = do
    exists ← outbox_exists env EventType.order_pending_nudge AggregateType.vendor_order order.id
    if exists
        then pure tt
        else with_tx env (
            emit env (record {
              event_type = EventType.order_pending_nudge;
              aggregate_type = AggregateType.vendor_order;
              aggregate_id = order.id;
              actor = none;
              occurred_at = env.now;
              payload = Payload.pending_nudge (order_ref order) pending_nudge_days;
            }))

  -- `nudgePendingOrders`
  unfoldable pub nudge_pending_orders : M ⊤
  unfolding emit_pending_nudge
  nudge_pending_orders = do
    orders ← find_pending_orders_before env (pending_nudge_days * day)
    for_each orders (emit_pending_nudge)

  -- `Run`: the second step is made whatever the first one did.
  unfoldable pub run_order_ttl : M ⊤
  unfolding nudge_pending_orders expire_pending_orders
  run_order_ttl w =
      let (r, w') = nudge_pending_orders w in
      let (r', w'') = expire_pending_orders w' in (combine r r', w'')
