-- ===== src/Orders/Retry.antt =====
-- `RetryOrder` of internal/orders/service.go: an expired order is created again.
use packfinderz_backend.Prelude.{
  ◌==◌, if◌then◌else◌, not, Bool, true, ◌&&◌, Option, none, some, List, [], ◌∷◌, pos, leb_ℤ, map,
}
use packfinderz_backend.Enums.{
  OrderStatus, ItemStatus, FulfillmentStatus, ShippingStatus, PaymentStatus, PaymentMethod,
  RefundStatus, EventType, AggregateType, is_status,
}
use packfinderz_backend.Errors.{Code, ok, err}
use packfinderz_backend.Store.Tables.{
  PaymentIntent, OutboxEvent, VendorOrder, LineItem, Payload, Uuid,
}
use packfinderz_backend.Store.Tx.{Env, M, ⊤, pure, fail_if, wrapped, with_tx, ◌>>=◌, ◌>>◌}
use packfinderz_backend.Store.Repo.{
  find_order_line_items_by_order, find_payment_intent_by_order, create_vendor_order,
  create_order_line_items, create_payment_intent, emit,
}
use packfinderz_backend.Reservation.{Request, Reservation, reserve_inventory}
use packfinderz_backend.Orders.Input.{
  ActorInput, build_actor, order_ref, check_actor, load_vendor_order,
}

-- The requests for the stock of the items that name a product and a quantity.
abbrev pub add_request : LineItem → Option Uuid → List Request → List Request
add_request item none rest = rest
add_request item (some product) rest =
    if leb_ℤ item.qty (pos 0)
    then rest
    else record { cart_item_id = item.id; product_id = product; qty = item.qty } ∷ rest

abbrev pub retry_requests : List LineItem → List Request
retry_requests [] = []
retry_requests (item ∷ items) = add_request item item.product_id (retry_requests items)

-- The new order: a fresh checkout group, and the old order's terms.
abbrev pub retried_order : Uuid → VendorOrder → VendorOrder
retried_order group order = record order {
  id = 0;
  checkout_group_id = group;
  balance_due_cents = order.total_cents;
  status = OrderStatus.created_pending;
  fulfillment_status = FulfillmentStatus.pending;
  shipping_status = ShippingStatus.pending;
  refund_status = RefundStatus.none;
  ad_token = none;
  delivered_at = none;
  canceled_at = none;
  expired_at = none;
  created_at = 0;
}

-- Its items: pending copies, without the ad token and the notes.
abbrev pub retried_item : Uuid → LineItem → LineItem
retried_item order_id item = record item {
  id = 0;
  order_id = order_id;
  ad_token = none;
  status = ItemStatus.pending;
  notes = none;
}

abbrev pub retried_intent : PaymentMethod → VendorOrder → PaymentIntent
retried_intent method created = record {
  id = 0;
  order_id = created.id;
  method = method;
  status = PaymentStatus.unpaid;
  amount_cents = created.total_cents;
  cash_collected_at = none;
  vendor_paid_at = none;
  failure_reason = none;
}

abbrev pub all_reserved : List Reservation → Bool
all_reserved [] = true
all_reserved (r ∷ rs) = r.reserved && all_reserved rs

abbrev pub retried_event : ActorInput → VendorOrder → VendorOrder → OutboxEvent
retried_event input order created = record {
  event_type = EventType.order_retried;
  aggregate_type = AggregateType.vendor_order;
  aggregate_id = created.id;
  actor = some (build_actor input.actor_user_id input.actor_store_id input.actor_role);
  occurred_at = 0;
  payload = Payload.retried order.id (order_ref created);
}

module _ (env : Env) where
  -- `inventoryReserverImpl.Reserve` answers at once if there is nothing to reserve.
  unfoldable pub reserve_all : List Request → M ⊤
  reserve_all [] = pure tt
  reserve_all (r ∷ rs) = do
    reserved ← reserve_inventory env (r ∷ rs)
    fail_if (not (all_reserved reserved)) Code.conflict

  -- The method of the old intent, if it can be read; an error here is ignored.
  unfoldable pub retry_method : Uuid → M PaymentMethod
  retry_method k w =
      let (r, w') = find_payment_intent_by_order env k w in
      elim r [ ok p ↦ (ok p.method, w') | err e ↦ (ok PaymentMethod.cash, w') ]

  -- `RetryOrder`, inside its transaction.
  unfoldable pub retry_in_tx : ActorInput → M Uuid
  unfolding reserve_all retry_method
  retry_in_tx input = do
    order ← load_vendor_order env input.order_id
    fail_if (not (order.buyer_store_id == input.actor_store_id)) Code.forbidden
    fail_if (not (is_status order.status OrderStatus.expired)) Code.state_conflict
    items ← wrapped (find_order_line_items_by_order env order.id)
    created ← wrapped (create_vendor_order env (retried_order (env.fresh 0) order))
    wrapped (create_order_line_items env (map (retried_item created.id) items))
    reserve_all (retry_requests items)
    method ← retry_method order.id
    wrapped (create_payment_intent env (retried_intent method created))
    emit env (retried_event input order created)
    pure created.id

  unfoldable pub retry_order : ActorInput → M Uuid
  unfolding retry_in_tx
  retry_order input = do
    check_actor input.order_id input.actor_user_id input.actor_store_id
    with_tx env (retry_in_tx input)
