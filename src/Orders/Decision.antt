-- ===== src/Orders/Decision.antt =====
-- `VendorDecision` and `LineItemDecision` of internal/orders/service.go.
use packfinderz_backend.Prelude.{
  ℕ, ◌+◌, ◌==◌, ltb, if◌then◌else◌, not, some, List, [], ◌∷◌, ℤ, pos, ltb_ℤ, ◌+ᵢ◌, ◌-ᵢ◌,
}
use packfinderz_backend.Enums.{
  OrderStatus, ItemStatus, FulfillmentStatus, EventType, AggregateType, is_status, is_item,
}
use packfinderz_backend.Errors.{Code}
use packfinderz_backend.Store.Tables.{VendorOrder, LineItem, OutboxEvent, Payload}
use packfinderz_backend.Store.Columns.{OrderColumn}
use packfinderz_backend.Store.Tx.{
  Env, M, ⊤, pure, fail_if, map_error, not_found_or, wrapped, with_tx, ◌>>=◌, ◌>>◌,
}
use packfinderz_backend.Store.Repo.{
  find_order_line_item, find_order_line_items_by_order, update_vendor_order,
  update_vendor_order_status, update_order_line_item_status, emit,
}
use packfinderz_backend.Orders.Input.{
  VendorDecisionInput, LineItemDecisionInput, map_decision_to_status, map_line_item_decision,
  can_transition_line_item_status, build_actor, order_ref, check_actor, load_vendor_order,
  release_stock,
}

-- What the loop of `LineItemDecision` adds up over the order's items.
pub record Tally : Type 0 where
  pub subtotal : ℤ
  pub pending : ℕ
  pub rejected : ℕ

-- One round: a pending item counts as pending, and a rejected one adds no money.
abbrev pub tally_item : LineItem → Tally → Tally
tally_item item t =
    let t' =
      if is_item item.status ItemStatus.pending then record t { pending = t.pending + 1 } else t in
    if is_item item.status ItemStatus.rejected
    then record t' { rejected = t'.rejected + 1 }
    else record t' { subtotal = t'.subtotal +ᵢ item.total_cents }

unfoldable pub tally_from : List LineItem → Tally → Tally
tally_from [] t = t
tally_from (item ∷ items) t = tally_from items (tally_item item t)

unfoldable pub tally : List LineItem → Tally
unfolding tally_from
tally items = tally_from items (record { subtotal = pos 0; pending = 0; rejected = 0 })

abbrev pub clamp : ℤ → ℤ
clamp a = if ltb_ℤ a (pos 0) then pos 0 else a

-- The new total: the subtotal and what the old total had beyond the old subtotal.
unfoldable pub new_total : VendorOrder → ℤ → ℤ
new_total order subtotal = clamp (subtotal +ᵢ clamp (order.total_cents -ᵢ order.subtotal_cents))

abbrev pub fulfillment_of : ℕ → FulfillmentStatus
fulfillment_of rejected =
    if ltb 0 rejected then FulfillmentStatus.partial else FulfillmentStatus.fulfilled

abbrev pub money_columns : ℤ → ℤ → List OrderColumn
money_columns subtotal total =
    OrderColumn.subtotal_cents subtotal
    ∷ OrderColumn.total_cents total
    ∷ OrderColumn.balance_due_cents total
    ∷ []

abbrev pub ready_columns : ℤ → ℤ → FulfillmentStatus → List OrderColumn
ready_columns subtotal total fulfillment =
    OrderColumn.subtotal_cents subtotal
    ∷ OrderColumn.total_cents total
    ∷ OrderColumn.balance_due_cents total
    ∷ OrderColumn.fulfillment_status fulfillment
    ∷ OrderColumn.status OrderStatus.ready_for_dispatch
    ∷ []

abbrev pub decided_event : VendorDecisionInput → VendorOrder → OrderStatus → OutboxEvent
decided_event input order target = record {
  event_type = EventType.order_decided;
  aggregate_type = AggregateType.vendor_order;
  aggregate_id = order.id;
  actor = some (build_actor input.actor_user_id input.actor_store_id input.actor_role);
  occurred_at = 0;
  payload = Payload.decided (order_ref order) target;
}

abbrev pub ready_event : LineItemDecisionInput → VendorOrder → LineItem → Tally → OutboxEvent
ready_event input order line t = record {
  event_type = EventType.order_ready_for_dispatch;
  aggregate_type = AggregateType.vendor_order;
  aggregate_id = order.id;
  actor = some (build_actor input.actor_user_id input.actor_store_id input.actor_role);
  occurred_at = 0;
  payload =
      Payload.ready_for_dispatch (order_ref order) (fulfillment_of t.rejected) order.shipping_status
        t.rejected line.id;
}

module _ (env : Env) where
  -- `VendorDecision`, inside its transaction.
  unfoldable pub decide_order : VendorDecisionInput → OrderStatus → M ⊤
  decide_order input target = do
    order ← load_vendor_order env input.order_id
    fail_if (not (order.vendor_store_id == input.actor_store_id)) Code.forbidden
    if is_status order.status target then pure tt else do
      fail_if (not (is_status order.status OrderStatus.created_pending)) Code.state_conflict
      wrapped (update_vendor_order_status env order.id target)
      emit env (decided_event input order target)

  unfoldable pub vendor_decision : VendorDecisionInput → M ⊤
  unfolding decide_order
  vendor_decision input = do
    check_actor input.order_id input.actor_user_id input.actor_store_id
    target ← map_decision_to_status input.decision
    with_tx env (decide_order input target)

  -- The new totals, and the event once no item is pending.
  unfoldable pub recompute_order : LineItemDecisionInput → VendorOrder → LineItem → Tally → M ⊤
  recompute_order input order line t =
      let total = new_total order t.subtotal in
      if t.pending == 0
      then (do
        wrapped (
            update_vendor_order env order.id
              (ready_columns t.subtotal total (fulfillment_of t.rejected)))
        emit env (ready_event input order line t))
      else wrapped (update_vendor_order env order.id (money_columns t.subtotal total))

  -- The line item's new status, and what it makes of the order.
  unfoldable pub write_item : LineItemDecisionInput → VendorOrder → LineItem → ItemStatus → M ⊤
  unfolding recompute_order
  write_item input order line target = do
    wrapped (update_order_line_item_status env line.id target input.notes)
    items ← wrapped (find_order_line_items_by_order env order.id)
    recompute_order input order line (tally items)

  -- A rejected item gives its stock back first.
  unfoldable pub resolve_item : LineItemDecisionInput → VendorOrder → LineItem → ItemStatus → M ⊤
  unfolding write_item
  resolve_item input order line target = do
    fail_if (not (can_transition_line_item_status line.status)) Code.state_conflict
    if is_item target ItemStatus.rejected
        then release_stock env line.product_id line.qty
        else pure tt
    write_item input order line target

  unfoldable pub decide_line_item : LineItemDecisionInput → ItemStatus → M ⊤
  unfolding resolve_item
  decide_line_item input target = do
    order ← load_vendor_order env input.order_id
    fail_if (not (order.vendor_store_id == input.actor_store_id)) Code.forbidden
    line ← map_error (not_found_or Code.not_found) (find_order_line_item env input.line_item_id)
    fail_if (not (line.order_id == order.id)) Code.forbidden
    if is_item line.status target then pure tt else resolve_item input order line target

  unfoldable pub line_item_decision : LineItemDecisionInput → M ⊤
  unfolding decide_line_item
  line_item_decision input = do
    fail_if (input.order_id == 0) Code.validation
    fail_if (input.line_item_id == 0) Code.validation
    fail_if (input.actor_user_id == 0) Code.unauthorized
    fail_if (input.actor_store_id == 0) Code.forbidden
    target ← map_line_item_decision input.decision
    with_tx env (decide_line_item input target)
