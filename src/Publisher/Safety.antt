-- ===== src/Publisher/Safety.antt =====
-- No event is lost: whatever fails, a row of the outbox is due, sent, or a dead letter.
use packfinderz_backend.Prelude.{
  none, some, Option, some, Option, ◌⊎◌, ℕ, ◌<◌, leb, true, false, List, [], ◌∷◌, ◌≡◌, refl, arith,
  Bool-cases, inl, inr,
}
use mathlib.Core.Path.{sym, subst}
use packfinderz_backend.Errors.{err, Result, ok}
use packfinderz_backend.Store.Tables.{Uuid}
use packfinderz_backend.Store.Tx.{⊤}
use packfinderz_backend.Publisher.{
  is_published, fetch_unpublished, resolve, Row, Outbox, Broker, Outcome, PubCall, Reason,
  publish_resolved,
}
use packfinderz_backend.Publisher.Batch.{
  commit_batch, undo, dispatch, process_batch, Batches, after, process_events, process_event,
  mark_published, mark_failed, handle_terminal, mark_terminal, record_outcome,
}
use packfinderz_backend.Publisher.Fetch.{row_at, fetch-Distinct, All-fetch, rows_found}
use packfinderz_backend.Publisher.Mark.{in_dlq, Safe, in_sent, Working}
use packfinderz_backend.Publisher.Outcomes.{
  Fine, Grows, publish_resolved-keeps, handle_terminal-Fine, record_outcome-Fine, Working-grow,
}

module _ (b : Broker) (max : ℕ) (limit : b.max_attempts ≡ max) (positive : 0 < max) where
  dispatch-Fine :
      (r : Row) (rest : List Row) (s : Outbox) (topic : Option ℕ)
      → Working max (r ∷ rest) s
      → Fine (Working max rest) (dispatch b r topic s)
  unfolding dispatch
  dispatch-Fine r rest s none h = handle_terminal-Fine b max limit positive r rest s _ h
  dispatch-Fine r rest s (some topic) h =
      let kept = publish_resolved-keeps b max limit positive r topic s in
      record_outcome-Fine b max limit positive r rest (publish_resolved b r topic s).1
        (publish_resolved b r topic s).0 kept.1.0
        (Working-grow b max limit positive (r ∷ rest) s (publish_resolved b r topic s).1 kept.0.0
          kept.0.1 kept.1.1 h)

  record_outcome-sent :
      (r : Row) (out : Outcome) (s : Outbox) → (record_outcome b r out s).1.sent ≡ s.sent
  unfolding record_outcome mark_published mark_failed handle_terminal mark_terminal
  record_outcome-sent r Outcome.delivered s = ground arith
  record_outcome-sent r Outcome.refused s = ground arith
  record_outcome-sent r Outcome.hopeless s = ground arith

  handle_terminal-sent :
      (r : Row) (why : Reason) (s : Outbox) → (handle_terminal b r why s).1.sent ≡ s.sent
  unfolding handle_terminal mark_terminal
  handle_terminal-sent r why s = ground arith

  dispatch-Grows : (r : Row) (topic : Option ℕ) (s : Outbox) → Grows s (dispatch b r topic s).1
  unfolding dispatch
  dispatch-Grows r none s = record {
    at = λ k e. ground (arith, handle_terminal-sent r Reason.non_retryable s);
  }
  dispatch-Grows r (some topic) s =
      let kept = publish_resolved-keeps b max limit positive r topic s in
      record {
        at = λ k e.
            subst (λ ms. in_sent k ms ≡ true)
              (sym (
                record_outcome-sent r (publish_resolved b r topic s).0
                  (publish_resolved b r topic s).1))
              (kept.1.1 k e);
      }

  Grows-after :
      (s : Outbox) (res : Result ⊤) (s' : Outbox) (rest : List Row)
      → Grows s s'
      → ((t : Outbox) → Grows t (process_events b rest t).1)
      → Grows s (after b res s' (process_events b rest)).1
  Grows-after s (ok u) s' rest more grow = record {
    at = λ k e. let last = grow s' in last.at k (more.at k e);
  }
  Grows-after s (err e) s' rest more grow = more

  Fine-after :
      (res : Result ⊤) (s' : Outbox) (rest : List Row)
      → Fine (Working max rest) (res, s')
      → ((t : Outbox) → Working max rest t → Fine (Working max []) (process_events b rest t))
      → Fine (Working max []) (after b res s' (process_events b rest))
  Fine-after (ok u) s' rest fine next = next s' (fine.on refl)
  Fine-after (err e) s' rest fine next = record { on = λ f. cc }

  process_events-Grows : (rs : List Row) (s : Outbox) → Grows s (process_events b rs s).1
  unfolding process_events process_event
  process_events-Grows [] s = record { at = λ k e. e }
  process_events-Grows (r ∷ rs) s =
      let (res, s') = process_event b r s in
      Grows-after s (process_event b r s).0 (process_event b r s).1 rs
        (dispatch-Grows r (resolve b r) s) (process_events-Grows rs)

  process_events-Fine :
      (rs : List Row) (s : Outbox)
      → Working max rs s
      → Fine (Working max []) (process_events b rs s)
  unfolding process_events process_event
  process_events-Fine [] s h = record { on = λ e. h }
  process_events-Fine (r ∷ rs) s h =
      let one = dispatch-Fine r rs s (resolve b r) h in
      Fine-after (process_event b r s).0 (process_event b r s).1 rs (record { on = one.on })
        (process_events-Fine rs)

  Safe-undo : (s s' : Outbox) → Grows s s' → Safe max s → Safe max (undo b s s')
  Safe-undo s s' more h = record {
    at = λ k r e.
        let was = h.at k r e in
        record { published = λ p. more.at k (was.published p); given_up = was.given_up };
    distinct = h.distinct;
  }

  commit-Safe :
      (s : Outbox) (res : Result ⊤) (s' : Outbox)
      → Safe max s
      → Grows s s'
      → Fine (Working max []) (res, s')
      → Safe max (commit_batch b s res s').1
  commit-Safe s (ok u) s' h more fine = elim (Bool-cases (b.fails PubCall.commit)) [
    | inl down ↦ rw down (Safe-undo s s' more h)
    | inr up ↦ rw up (let done = fine.on refl in done.safe)
  ]
  commit-Safe s (err e) s' h more fine = Safe-undo s s' more h

  process_batch-Safe : (s : Outbox) → Safe max s → Safe max (process_batch b s).1
  unfolding process_batch
  process_batch-Safe s h = elim (Bool-cases (b.fails PubCall.begin)) [
    | inl down ↦ rw down h
    | inr up ↦ elim (Bool-cases (b.fails PubCall.fetch)) [
      | inl down ↦ rw (up, down) h
      | inr fetched ↦
          let rs = fetch_unpublished b s.rows in
          let start : Working max rs s = record {
            safe = h;
            fresh =
                All-fetch (λ r. row_at r.id s.rows ≡ some r) b s.rows
                  (rows_found s.rows h.distinct);
            apart = fetch-Distinct b s.rows h.distinct;
          } in
          rw (up, fetched)
            (commit-Safe s (process_events b rs s).0 (process_events b rs s).1 h
              (process_events-Grows rs s)
              (let fine = process_events-Fine rs s start in record { on = fine.on }))
    ]
  ]

batches-Safe :
    (max : ℕ) (s : Outbox) {t : Outbox} → 0 < max → Batches max s t → Safe max s → Safe max t
batches-Safe max s positive Batches.start h = h
batches-Safe max s positive (Batches.batch {t = u} bs b limit) h =
    process_batch-Safe b max limit positive u (batches-Safe max s positive bs h)

-- With a positive limit of attempts, and from an outbox whose rows are accounted for, after any
-- batches, with any failures of the database and the broker, each row is sent, or has a dead letter,
-- or is unpublished and has attempts left.
pub no_event_lost :
    (max : ℕ) (s t : Outbox) (k : Uuid) (r : Row)
    → 0 < max
    → Safe max s
    → Batches max s t
    → row_at k t.rows ≡ some r
    → ((in_sent k t.sent ≡ true) ⊎ (in_dlq k t.dlq ≡ true))
      ⊎ ((is_published r ≡ false) × (r.attempt_count < max))
no_event_lost max s t k r positive safe bs found =
    let h = batches-Safe max s positive bs safe in
    let account = h.at k r found in
    elim (Bool-cases (is_published r)) [
      | inl out ↦ inl (inl (account.published out))
      | inr here ↦ elim (Bool-cases (leb max r.attempt_count)) [
        | inl over ↦ inl (inr (account.given_up here over))
        | inr left ↦ inr (here, ground arith)
      ]
    ]
