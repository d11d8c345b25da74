-- ===== src/Publisher/Batch.antt =====
-- What cmd/outbox-publisher/service.go records of a row, and a batch of rows, with the marks of
-- pkg/outbox/repository.go.
use packfinderz_backend.Prelude.{
  ◌≡◌, ℕ, ◌+◌, ◌*◌, ◌==◌, ltb, leb, if◌then◌else◌, Option, none, some, List, [], ◌∷◌, ◌++◌,
}
use packfinderz_backend.Errors.{driver, Result, ok, err}
use packfinderz_backend.Store.Tables.{Uuid}
use packfinderz_backend.Store.Rows.{update}
use packfinderz_backend.Store.Tx.{⊤}
use packfinderz_backend.Publisher.{
  Row, Reason, DeadLetter, Outbox, Outcome, PubCall, Broker, fetch_unpublished, resolve,
  publish_resolved,
}

module _ (b : Broker) where
  abbrev pub update_row : Uuid → (Row → Row) → Outbox → Outbox
  update_row k f s = record s { rows = update (λ r. r.id) k f s.rows }

  -- `MarkPublishedTx`
  unfoldable pub mark_published : Row → Outbox → Result ⊤ × Outbox
  mark_published r s =
      if b.fails (PubCall.mark r.id)
      then (err driver, s)
      else (ok tt, update_row r.id (λ x. record x { published_at = some b.now }) s)

  -- `MarkFailedTx`
  unfoldable pub mark_failed : Row → Outbox → Result ⊤ × Outbox
  mark_failed r s = if b.fails (PubCall.mark r.id) then (err driver, s) else (
    ok tt,
    update_row r.id
        (λ x. record x { last_error = b.error_text r.id; attempt_count = x.attempt_count + 1 }) s,
  )

  -- `GREATEST`
  abbrev pub greatest : ℕ → ℕ → ℕ
  greatest m n = if leb m n then n else m

  abbrev pub dead_letter : Row → Reason → DeadLetter
  dead_letter r why = record {
    event_id = r.id;
    event_type = r.event_type;
    aggregate_type = r.aggregate_type;
    aggregate_id = r.aggregate_id;
    payload = r.payload;
    error_reason = why;
    attempt_count = r.attempt_count;
  }

  -- `MarkTerminalTx`
  unfoldable pub mark_terminal : Row → Outbox → Result ⊤ × Outbox
  mark_terminal r s = if b.fails (PubCall.mark r.id) then (err driver, s) else (
    ok tt,
    update_row r.id
        (λ x. record x {
          last_error = b.error_text r.id;
          attempt_count =
              greatest x.attempt_count (if b.max_attempts == 0 then 1 else b.max_attempts);
        })
        s,
  )

  -- `handleTerminal`: a dead letter, and then the mark.
  unfoldable pub handle_terminal : Row → Reason → Outbox → Result ⊤ × Outbox
  unfolding mark_terminal
  handle_terminal r why s =
      if b.fails (PubCall.insert_dlq r.id)
      then (err driver, s)
      else mark_terminal r (record s { dlq = s.dlq ++ dead_letter r why ∷ [] })

  -- What is done with the row after the attempt to publish it.
  unfoldable pub record_outcome : Row → Outcome → Outbox → Result ⊤ × Outbox
  unfolding mark_published mark_failed handle_terminal
  record_outcome r Outcome.delivered s = mark_published r s
  record_outcome r Outcome.hopeless s = handle_terminal r Reason.non_retryable s
  record_outcome r Outcome.refused s =
      if leb b.max_attempts (r.attempt_count + 1)
      then handle_terminal r Reason.max_attempts s
      else mark_failed r s

  -- With a topic the row is published; without one it is given up.
  unfoldable pub dispatch : Row → Option ℕ → Outbox → Result ⊤ × Outbox
  unfolding publish_resolved record_outcome
  dispatch r none s = handle_terminal r Reason.non_retryable s
  dispatch r (some topic) s =
      let (out, s') = publish_resolved b r topic s in record_outcome r out s'

  -- One round of the loop of `processBatch`.
  unfoldable pub process_event : Row → Outbox → Result ⊤ × Outbox
  unfolding resolve dispatch
  process_event r s = dispatch r (resolve b r) s

  -- `if markErr != nil { return markErr }`, and else the rest
  abbrev pub after : Result ⊤ → Outbox → (Outbox → Result ⊤ × Outbox) → Result ⊤ × Outbox
  after (ok u) s rest = rest s
  after (err e) s rest = (err e, s)

  unfoldable pub process_events : List Row → Outbox → Result ⊤ × Outbox
  unfolding process_event
  process_events [] s = (ok tt, s)
  process_events (r ∷ rs) s = let (res, s') = process_event r s in after res s' (process_events rs)

  -- The transaction is undone, and what was sent stays sent.
  abbrev pub undo : Outbox → Outbox → Outbox
  undo s s' = record s { sent = s'.sent }

  abbrev pub commit_batch : Outbox → Result ⊤ → Outbox → Result ⊤ × Outbox
  commit_batch s (ok u) s' = if b.fails PubCall.commit then (err driver, undo s s') else (ok tt, s')
  commit_batch s (err e) s' = (err e, undo s s')

  -- `processBatch`, without the flag that says whether there was anything to do.
  unfoldable pub process_batch : Outbox → Result ⊤ × Outbox
  unfolding process_events
  process_batch s =
      if b.fails PubCall.begin
      then (err driver, s)
      else if b.fails PubCall.fetch
      then (err driver, s)
      else (let (res, s') = process_events (fetch_unpublished b s.rows) s in commit_batch s res s')

-- The batches that follow one another, under the same limit of attempts.
pub data Batches (max : ℕ) (s : Outbox) : Outbox → Type 0 where
  start : Batches max s s
  batch :
      {t : Outbox}
      → Batches max s t
      → (b : Broker) → b.max_attempts ≡ max
      → Batches max s (process_batch b t).1

-- `nextBackoff`, of durations that are not negative
unfoldable pub next_backoff : ℕ → ℕ → ℕ → ℕ
next_backoff current base max =
    let c = if leb current 0 then base else current in if ltb max (c * 2) then max else c * 2
