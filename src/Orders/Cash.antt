-- ===== src/Orders/Cash.antt =====
-- `AgentCashCollected` of internal/orders/service.go, with `failCashCollection` and
-- `emitPaymentStatusEvent`.
use packfinderz_backend.Prelude.{
  ℕ, ◌==◌, if◌then◌else◌, not, Bool, true, false, ◌||◌, Option, none, some, List, [], ◌∷◌, ℤ, pos,
  ltb_ℤ, eqb_ℤ,
}
use packfinderz_backend.Enums.{OrderStatus, PaymentStatus, EventType, AggregateType, LedgerType}
use packfinderz_backend.Errors.{Code}
use packfinderz_backend.Store.Tables.{
  PaymentIntent, Assignment, FailureReason, OutboxEvent, Payload, Uuid, Blob, ActorRef,
}
use packfinderz_backend.Store.Columns.{OrderColumn, IntentColumn, AssignmentColumn}
use packfinderz_backend.Store.Tx.{Env, M, ⊤, pure, fail, fail_if, wrapped, with_tx, ◌>>=◌, ◌>>◌}
use packfinderz_backend.Store.Repo.{
  OrderDetail, update_vendor_order, update_payment_intent, update_order_assignment, emit,
}
use packfinderz_backend.Ledger.{RecordInput, has_event, record_event}
use packfinderz_backend.Orders.Input.{AgentInput, build_actor, check_agent}
use packfinderz_backend.Orders.Agent.{unless, is_some, load_order_detail, own_assignment}

-- `enums.MemberRoleAgent`
abbrev pub agent_role : Blob
agent_role = 1

-- The states in which cash may be collected.
abbrev pub can_collect : OrderStatus → Bool
can_collect OrderStatus.ready_for_dispatch = true
can_collect OrderStatus.in_transit = true
can_collect OrderStatus.delivered = true
can_collect _ = false

abbrev pub is_finalized : PaymentStatus → Bool
is_finalized PaymentStatus.settled = true
is_finalized PaymentStatus.paid = true
is_finalized PaymentStatus.failed = true
is_finalized PaymentStatus.rejected = true
is_finalized _ = false

-- `PaymentIntent == nil` is an error.
abbrev pub intent_or : Option PaymentIntent → Code → M PaymentIntent
intent_or none c = fail c
intent_or (some p) c = pure p

-- The time of the collection: the one that the intent has, or now.
abbrev pub collection_time : ℕ → Option ℕ → ℕ
collection_time now none = now
collection_time now (some t) = t

abbrev pub settle_columns : ℕ → PaymentIntent → List IntentColumn
settle_columns now p =
    IntentColumn.status PaymentStatus.settled
    ∷ unless (is_some p.cash_collected_at) (IntentColumn.cash_collected_at now)

abbrev pub payment_failed_event : ActorRef → Uuid → Uuid → FailureReason → OutboxEvent
payment_failed_event actor order_id intent_id reason = record {
  event_type = EventType.payment_failed;
  aggregate_type = AggregateType.vendor_order;
  aggregate_id = order_id;
  actor = some actor;
  occurred_at = 0;
  payload = Payload.payment_status order_id intent_id (some reason);
}

abbrev pub cash_collected_event : AgentInput → OrderDetail → ℤ → ℕ → OutboxEvent
cash_collected_event input detail amount at = record {
  event_type = EventType.cash_collected;
  aggregate_type = AggregateType.vendor_order;
  aggregate_id = input.order_id;
  actor = some (build_actor input.agent_user_id 0 agent_role);
  occurred_at = at;
  payload = Payload.cash_collected input.order_id detail.buyer_store detail.vendor_store amount at;
}

abbrev pub cash_ledger_input : AgentInput → OrderDetail → ℤ → RecordInput
cash_ledger_input input detail amount = record {
  order_id = input.order_id;
  buyer_store_id = detail.buyer_store;
  vendor_store_id = detail.vendor_store;
  actor_user_id = input.agent_user_id;
  type = LedgerType.cash_collected;
  amount_cents = amount;
}

module _ (env : Env) where
  -- `emitPaymentStatusEvent`
  unfoldable pub emit_payment_failed : ActorRef → Uuid → Uuid → FailureReason → M ⊤
  emit_payment_failed actor order_id intent_id reason =
      wrapped (emit env (payment_failed_event actor order_id intent_id reason))

  -- `failCashCollection`: the intent is marked and the order put on hold, and then the error is
  -- returned.
  unfoldable pub fail_cash_collection : ActorRef → Uuid → Uuid → FailureReason → M ⊤
  unfolding emit_payment_failed
  fail_cash_collection actor order_id intent_id reason = do
    wrapped (
        update_payment_intent env order_id
          (IntentColumn.status PaymentStatus.failed ∷ IntentColumn.failure_reason reason ∷ []))
    wrapped (update_vendor_order env order_id (OrderColumn.status OrderStatus.hold ∷ []))
    emit_payment_failed actor order_id intent_id reason
    fail Code.state_conflict

  -- The writes of a collection, once every check has passed.
  unfoldable pub settle_cash : AgentInput → OrderDetail → Assignment → PaymentIntent → ℤ → M ⊤
  settle_cash input detail assignment intent amount = do
    let at = collection_time env.now intent.cash_collected_at
    wrapped (update_payment_intent env input.order_id (settle_columns env.now intent))
    wrapped (update_vendor_order env input.order_id (OrderColumn.balance_due_cents (pos 0) ∷ []))
    wrapped (
        update_order_assignment env assignment.id (
          unless (is_some assignment.cash_pickup_time) (AssignmentColumn.cash_pickup_time env.now)))
    wrapped (emit env (cash_collected_event input detail amount at))
    wrapped (record_event env (cash_ledger_input input detail amount))

  -- From the amount check on. An intent of no amount is collected at the order's total.
  unfoldable pub collect_amount : AgentInput → OrderDetail → Assignment → PaymentIntent → M ⊤
  unfolding fail_cash_collection settle_cash
  collect_amount input detail assignment intent =
      let total = detail.order.total_cents in
      if ltb_ℤ (pos 0) intent.amount_cents
      then (if not (eqb_ℤ total intent.amount_cents)
          then fail_cash_collection (build_actor input.agent_user_id 0 agent_role) input.order_id
              intent.id (FailureReason.total_differs total intent.amount_cents)
          else settle_cash input detail assignment intent intent.amount_cents)
      else settle_cash input detail assignment intent total

  -- From the order's status on.
  unfoldable pub collect_checked : AgentInput → OrderDetail → Assignment → PaymentIntent → M ⊤
  unfolding collect_amount
  collect_checked input detail assignment intent =
      if not (can_collect detail.order.status)
      then fail_cash_collection (build_actor input.agent_user_id 0 agent_role) input.order_id
          intent.id (FailureReason.not_ready detail.order.status)
      else do
        fail_if (is_finalized intent.status) Code.state_conflict
        has ← wrapped (has_event env input.order_id LedgerType.cash_collected)
        if has then pure tt else collect_amount input detail assignment intent

  unfoldable pub cash_in_tx : AgentInput → M ⊤
  unfolding collect_checked
  cash_in_tx input = do
    detail ← load_order_detail env input.order_id
    assignment ← own_assignment env input.agent_user_id detail.active_assignment
    fail_if (detail.buyer_store == 0 || detail.vendor_store == 0) Code.dependency
    intent ← intent_or detail.intent Code.dependency
    collect_checked input detail assignment intent

  unfoldable pub agent_cash_collected : AgentInput → M ⊤
  unfolding cash_in_tx
  agent_cash_collected input = do check_agent input; with_tx env (cash_in_tx input)
