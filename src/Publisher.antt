-- ===== src/Publisher.antt =====
-- cmd/outbox-publisher/service.go, pkg/outbox/registry/publisher.go and the fetch of
-- pkg/outbox/repository.go: the rows of the outbox go to the topics.
pub mod Batch
pub mod Fetch
pub mod Mark
pub mod Outcomes
pub mod Safety
pub mod Backoff
use packfinderz_backend.Prelude.{
  zero, suc, suc, ◌≡◌, ℕ, ◌+◌, ◌*◌, ◌==◌, ltb, leb, if◌then◌else◌, not, Bool, true, false, ◌&&◌,
  ◌||◌, Option, none, some, List, [], ◌∷◌, ◌++◌, select,
}
use packfinderz_backend.Enums.{EventType, AggregateType, is_aggregate, is_event}
use packfinderz_backend.Errors.{driver, Result, ok, err}
use packfinderz_backend.Store.Tables.{Uuid, Blob}
use packfinderz_backend.Store.Rows.{update}
use packfinderz_backend.Store.Tx.{⊤}

-- pkg/db/models/outbox_event.go
pub record Row : Type 0 where
  pub id : Uuid
  pub event_type : EventType
  pub aggregate_type : AggregateType
  pub aggregate_id : Uuid
  pub payload : Blob
  pub created_at : ℕ
  pub published_at : Option ℕ
  pub attempt_count : ℕ
  pub last_error : Option Blob

-- `OutboxDLQErrorReason`
pub data Reason : Type 0 where
  non_retryable max_attempts : Reason

-- pkg/db/models/outbox_dlq.go, without its own identifier and times
pub record DeadLetter : Type 0 where
  pub event_id : Uuid
  pub event_type : EventType
  pub aggregate_type : AggregateType
  pub aggregate_id : Uuid
  pub payload : Blob
  pub error_reason : Reason
  pub attempt_count : ℕ

-- The two tables, and the messages that the broker has acknowledged, each a topic and an event.
pub record Outbox : Type 0 where
  pub rows : List Row
  pub dlq : List DeadLetter
  pub sent : List (ℕ × Uuid)

-- How one attempt to publish ends: acknowledged, refused for now, or hopeless.
pub data Outcome : Type 0 where
  delivered refused hopeless : Outcome

pub data PubCall : Type 0 where
  begin fetch commit : PubCall
  insert_dlq mark : Uuid → PubCall

-- The configuration, and what the database, encoding/json and the broker answer. A topic is a
-- number; `locked` are the rows that another publisher holds.
pub record Broker : Type 0 where
  pub orders_topic : ℕ
  pub notification_topic : ℕ
  pub billing_topic : ℕ
  pub analytics_topic : Option ℕ
  pub batch_size : ℕ
  pub max_attempts : ℕ
  pub now : ℕ
  pub fails : PubCall → Bool
  pub locked : Uuid → Bool
  pub decodes : Row → Bool
  pub answer : ℕ → Row → Outcome
  pub error_text : Uuid → Option Blob

-- `ORDER BY created_at ASC, id ASC`
abbrev pub before : Row → Row → Bool
before a b = ltb a.created_at b.created_at || (a.created_at == b.created_at && leb a.id b.id)

abbrev pub insert_row : Row → List Row → List Row
insert_row x [] = x ∷ []
insert_row x (y ∷ ys) = if before x y then x ∷ y ∷ ys else y ∷ insert_row x ys

abbrev pub sort_rows : List Row → List Row
sort_rows [] = []
sort_rows (x ∷ xs) = insert_row x (sort_rows xs)

-- `LIMIT`
abbrev pub limit_rows : ℕ → List Row → List Row
limit_rows zero xs = []
limit_rows (suc n) [] = []
limit_rows (suc n) (x ∷ xs) = x ∷ limit_rows n xs

abbrev pub is_published : Row → Bool
is_published r = elim r.published_at [ some t ↦ true | none ↦ false ]

module _ (b : Broker) where
  -- `published_at IS NULL`, and the attempts if there is a limit of them
  abbrev pub is_due : Row → Bool
  is_due r =
      not (is_published r)
      && ((b.max_attempts == 0 || ltb r.attempt_count b.max_attempts) && not (b.locked r.id))

  -- `FetchUnpublishedForPublish`
  abbrev pub fetch_unpublished : List Row → List Row
  fetch_unpublished rows =
      limit_rows (if b.batch_size == 0 then 1 else b.batch_size) (sort_rows (select is_due rows))

  -- The entries of `NewEventRegistry`.
  abbrev pub descriptor : EventType → Option (AggregateType × ℕ)
  descriptor EventType.order_created = some (AggregateType.checkout_group, b.orders_topic)
  descriptor EventType.order_decided = some (AggregateType.vendor_order, b.orders_topic)
  descriptor EventType.order_ready_for_dispatch = some (AggregateType.vendor_order, b.orders_topic)
  descriptor EventType.order_canceled = some (AggregateType.vendor_order, b.orders_topic)
  descriptor EventType.cash_collected = some (AggregateType.vendor_order, b.orders_topic)
  descriptor EventType.payment_failed = some (AggregateType.vendor_order, b.orders_topic)
  descriptor EventType.payment_rejected = some (AggregateType.vendor_order, b.orders_topic)
  descriptor EventType.order_pending_nudge = some (AggregateType.vendor_order, b.orders_topic)
  descriptor EventType.order_expired = some (AggregateType.vendor_order, b.orders_topic)
  descriptor EventType.order_retried = some (AggregateType.vendor_order, b.orders_topic)
  descriptor EventType.notification_requested =
      some (AggregateType.vendor_order, b.notification_topic)
  descriptor EventType.license_status_changed = some (AggregateType.license, b.notification_topic)
  descriptor EventType.license_expiring_soon = some (AggregateType.license, b.notification_topic)
  descriptor EventType.license_expired = some (AggregateType.license, b.notification_topic)
  descriptor EventType.checkout_converted =
      some (AggregateType.checkout_group, b.notification_topic)
  descriptor EventType.order_paid = some (AggregateType.vendor_order, b.billing_topic)
  descriptor EventType.other_event = none

  abbrev pub checked_topic : Row → Option (AggregateType × ℕ) → Option ℕ
  checked_topic r none = none
  checked_topic r (some (a, topic)) =
      if not (is_aggregate a r.aggregate_type)
      then none
      else if r.aggregate_id == 0
      then none
      else if b.decodes r
      then some topic
      else none

  -- `Resolve`: the topic, or an error that no retry helps against.
  unfoldable pub resolve : Row → Option ℕ
  resolve r = checked_topic r (descriptor r.event_type)

  -- `publishToTopic`
  unfoldable pub publish_to_topic : ℕ → Row → Outbox → Outcome × Outbox
  publish_to_topic topic r s = elim (b.answer topic r) [
    | Outcome.delivered ↦ (Outcome.delivered, record s { sent = (topic, r.id) ∷ s.sent })
    | Outcome.refused ↦ (Outcome.refused, s)
    | Outcome.hopeless ↦ (Outcome.hopeless, s)
  ]

  abbrev pub is_analytic : EventType → Bool
  is_analytic t = is_event t EventType.checkout_converted || is_event t EventType.cash_collected

  abbrev pub analytics_for : Row → ℕ → Option ℕ → Option ℕ
  analytics_for r topic none = none
  analytics_for r topic (some a) =
      if is_analytic r.event_type && not (a == topic) then some a else none

  -- `publishResolved`: two kinds of events go to the analytics topic too.
  unfoldable pub publish_resolved : Row → ℕ → Outbox → Outcome × Outbox
  unfolding publish_to_topic
  publish_resolved r topic s =
      let (first, s') = publish_to_topic topic r s in
      elim first [
        | Outcome.delivered ↦ elim (analytics_for r topic b.analytics_topic) [
          | none ↦ (Outcome.delivered, s')
          | some a ↦ publish_to_topic a r s'
        ]
        | Outcome.refused ↦ (Outcome.refused, s')
        | Outcome.hopeless ↦ (Outcome.hopeless, s')
      ]
