-- ===== src/Orders/Payout.antt =====
-- `ConfirmPayout` of internal/orders/service.go.
use packfinderz_backend.Prelude.{ℕ, ◌==◌, if◌then◌else◌, not, ◌||◌, some, [], ◌∷◌}
use packfinderz_backend.Enums.{
  OrderStatus, PaymentStatus, EventType, AggregateType, LedgerType, is_status, is_payment,
}
use packfinderz_backend.Errors.{Code}
use packfinderz_backend.Store.Tables.{PaymentIntent, OutboxEvent, Payload}
use packfinderz_backend.Store.Columns.{OrderColumn, IntentColumn}
use packfinderz_backend.Store.Tx.{Env, M, ⊤, pure, fail_if, wrapped, with_tx, ◌>>=◌, ◌>>◌}
use packfinderz_backend.Store.Repo.{OrderDetail, update_vendor_order, update_payment_intent, emit}
use packfinderz_backend.Ledger.{RecordInput, record_event}
use packfinderz_backend.Orders.Input.{ActorInput, build_actor}
use packfinderz_backend.Orders.Agent.{load_order_detail}
use packfinderz_backend.Orders.Cash.{intent_or}

abbrev pub payout_ledger_input : ActorInput → OrderDetail → PaymentIntent → RecordInput
payout_ledger_input input detail intent = record {
  order_id = input.order_id;
  buyer_store_id = detail.buyer_store;
  vendor_store_id = detail.vendor_store;
  actor_user_id = input.actor_user_id;
  type = LedgerType.vendor_payout;
  amount_cents = intent.amount_cents;
}

abbrev pub paid_event : ℕ → ActorInput → OrderDetail → PaymentIntent → OutboxEvent
paid_event now input detail intent = record {
  event_type = EventType.order_paid;
  aggregate_type = AggregateType.vendor_order;
  aggregate_id = input.order_id;
  actor = some (build_actor input.actor_user_id input.actor_store_id input.actor_role);
  occurred_at = 0;
  payload =
      Payload.paid input.order_id detail.buyer_store detail.vendor_store intent.id
        intent.amount_cents now;
}

module _ (env : Env) where
  -- The writes of a payout, once every check has passed. The ledger's row is written on its own
  -- connection before the event is emitted.
  unfoldable pub pay_out : ActorInput → OrderDetail → PaymentIntent → M ⊤
  pay_out input detail intent = do
    wrapped (
        update_payment_intent env input.order_id
          (IntentColumn.status PaymentStatus.paid ∷ IntentColumn.vendor_paid_at env.now ∷ []))
    wrapped (update_vendor_order env input.order_id (OrderColumn.status OrderStatus.closed ∷ []))
    wrapped (record_event env (payout_ledger_input input detail intent))
    wrapped (emit env (paid_event env.now input detail intent))

  unfoldable pub payout_in_tx : ActorInput → M ⊤
  unfolding pay_out
  payout_in_tx input = do
    detail ← load_order_detail env input.order_id
    intent ← intent_or detail.intent Code.conflict
    fail_if (detail.buyer_store == 0 || detail.vendor_store == 0) Code.dependency
    if is_status detail.order.status OrderStatus.closed then pure tt else do
      fail_if (not (is_status detail.order.status OrderStatus.delivered)) Code.state_conflict
      fail_if (not (is_payment intent.status PaymentStatus.settled)) Code.state_conflict
      pay_out input detail intent

  unfoldable pub confirm_payout : ActorInput → M ⊤
  unfolding payout_in_tx
  confirm_payout input = do
    fail_if (input.order_id == 0) Code.validation
    fail_if (input.actor_user_id == 0) Code.unauthorized
    with_tx env (payout_in_tx input)
