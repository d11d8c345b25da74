-- ===== src/Orders/Buyer.antt =====
-- `CancelOrder` and `NudgeVendor` of internal/orders/service.go.
use packfinderz_backend.Prelude.{List, ℕ, ◌==◌, if◌then◌else◌, not, none, some, [], ◌∷◌, pos}
use packfinderz_backend.Enums.{OrderStatus, ItemStatus, EventType, AggregateType, is_item}
use packfinderz_backend.Errors.{Code}
use packfinderz_backend.Store.Tables.{VendorOrder, LineItem, OutboxEvent, Payload}
use packfinderz_backend.Store.Columns.{OrderColumn}
use packfinderz_backend.Store.Tx.{Env, M, ⊤, pure, fail_if, wrapped, with_tx, for_each, ◌>>=◌, ◌>>◌}
use packfinderz_backend.Store.Repo.{
  find_order_line_items_by_order, update_vendor_order, update_order_line_item_status, emit,
}
use packfinderz_backend.Orders.Input.{
  ActorInput, is_cancelable_status, is_final_order_status, build_actor, order_ref, check_actor,
  load_vendor_order, release_line_item,
}

abbrev pub cancel_columns : ℕ → List OrderColumn
cancel_columns now =
    OrderColumn.status OrderStatus.canceled
    ∷ OrderColumn.balance_due_cents (pos 0)
    ∷ OrderColumn.canceled_at now
    ∷ []

abbrev pub canceled_event : ℕ → ActorInput → VendorOrder → OutboxEvent
canceled_event now input order = record {
  event_type = EventType.order_canceled;
  aggregate_type = AggregateType.vendor_order;
  aggregate_id = order.id;
  actor = some (build_actor input.actor_user_id input.actor_store_id input.actor_role);
  occurred_at = now;
  payload = Payload.canceled (order_ref order) now;
}

abbrev pub nudge_event : ActorInput → VendorOrder → OutboxEvent
nudge_event input order = record {
  event_type = EventType.notification_requested;
  aggregate_type = AggregateType.vendor_order;
  aggregate_id = order.id;
  actor = some (build_actor input.actor_user_id input.actor_store_id input.actor_role);
  occurred_at = 0;
  payload = Payload.nudge (order_ref order);
}

module _ (env : Env) where
  -- One round of the loop of `CancelOrder`.
  unfoldable pub cancel_item : LineItem → M ⊤
  cancel_item item = if is_item item.status ItemStatus.fulfilled then pure tt else do
    release_line_item env item
    if is_item item.status ItemStatus.rejected
        then pure tt
        else wrapped (update_order_line_item_status env item.id ItemStatus.rejected none)

  -- `CancelOrder`, inside its transaction.
  unfoldable pub cancel_in_tx : ActorInput → M ⊤
  unfolding cancel_item
  cancel_in_tx input = do
    order ← load_vendor_order env input.order_id
    fail_if (not (order.buyer_store_id == input.actor_store_id)) Code.forbidden
    fail_if (not (is_cancelable_status order.status)) Code.state_conflict
    items ← wrapped (find_order_line_items_by_order env order.id)
    for_each items (cancel_item)
    wrapped (update_vendor_order env order.id (cancel_columns env.now))
    emit env (canceled_event env.now input order)

  unfoldable pub cancel_order : ActorInput → M ⊤
  unfolding cancel_in_tx
  cancel_order input = do
    check_actor input.order_id input.actor_user_id input.actor_store_id
    with_tx env (cancel_in_tx input)

  -- `NudgeVendor`, inside its transaction.
  unfoldable pub nudge_in_tx : ActorInput → M ⊤
  nudge_in_tx input = do
    order ← load_vendor_order env input.order_id
    fail_if (not (order.buyer_store_id == input.actor_store_id)) Code.forbidden
    fail_if (is_final_order_status order.status) Code.state_conflict
    emit env (nudge_event input order)

  unfoldable pub nudge_vendor : ActorInput → M ⊤
  unfolding nudge_in_tx
  nudge_vendor input = do
    check_actor input.order_id input.actor_user_id input.actor_store_id
    with_tx env (nudge_in_tx input)
