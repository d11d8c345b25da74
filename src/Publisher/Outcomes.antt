-- ===== src/Publisher/Outcomes.antt =====
-- What is recorded of one row, and that it leaves every row accounted for.
use packfinderz_backend.Prelude.{
  All, some, some, ℕ, ◌+◌, ◌<◌, leb, true, false, List, [], ◌∷◌, ◌++◌, ◌≡◌, refl, arith, Bool-cases,
  inl, inr,
}
use mathlib.Core.Path.{sym, subst}
use packfinderz_backend.Errors.{Result, ok}
use packfinderz_backend.Store.Tables.{Uuid}
use packfinderz_backend.Store.Tx.{⊤}
use packfinderz_backend.Publisher.{
  Row, Outbox, Broker, Outcome, PubCall, Reason, publish_to_topic, publish_resolved,
}
use packfinderz_backend.Publisher.Batch.{
  dead_letter, mark_published, mark_failed, handle_terminal, mark_terminal, record_outcome,
}
use packfinderz_backend.Publisher.Fetch.{row_at, Distinct}
use packfinderz_backend.Publisher.Mark.{in_dlq, in_sent, Working, in_dlq-append, Working-update}

-- `P`, where the run returned.
pub record Fine (P : Outbox → Type 0) (run : Result ⊤ × Outbox) : Type 0 where
  pub on : run.0 ≡ ok tt → P run.1

-- What was sent stays sent.
pub record Grows (s s' : Outbox) : Type 0 where
  pub at : (k : Uuid) → in_sent k s.sent ≡ true → in_sent k s'.sent ≡ true

module _ (b : Broker) (max : ℕ) (limit : b.max_attempts ≡ max) (positive : 0 < max) where
  pub publish_resolved-keeps :
      (r : Row) (topic : ℕ) (s : Outbox)
      → let run = publish_resolved b r topic s in
        ((run.1.rows ≡ s.rows) × (run.1.dlq ≡ s.dlq))
        × ((run.0 ≡ Outcome.delivered → in_sent r.id run.1.sent ≡ true)
            × ((k : Uuid) → in_sent k s.sent ≡ true → in_sent k run.1.sent ≡ true))
  unfolding publish_resolved publish_to_topic
  publish_resolved-keeps r topic s =
      ((ground arith, ground arith), ((λ e. ground arith), (λ k e. ground arith)))

  mark_published-Fine :
      (r : Row) (rest : List Row) (s : Outbox)
      → in_sent r.id s.sent ≡ true
      → Working max (r ∷ rest) s
      → Fine (Working max rest) (mark_published b r s)
  unfolding mark_published
  mark_published-Fine r rest s sent h = elim (Bool-cases (b.fails (PubCall.mark r.id))) [
    | inl down ↦ rw down (record { on = λ e. cc })
    | inr up ↦ rw up (record {
      on = λ e.
          Working-update max r rest s _ (λ x. refl) s.dlq (λ k d. d)
            (record { published = λ p. sent; given_up = λ p. cc }) h;
    })
  ]

  -- An unpublished row that is tried again has attempts left.
  mark_failed-Fine :
      (r : Row) (rest : List Row) (s : Outbox)
      → leb max (r.attempt_count + 1) ≡ false
      → Working max (r ∷ rest) s
      → Fine (Working max rest) (mark_failed b r s)
  unfolding mark_failed
  mark_failed-Fine r rest s left h = elim (Bool-cases (b.fails (PubCall.mark r.id))) [
    | inl down ↦ rw down (record { on = λ e. cc })
    | inr up ↦ rw up (record {
      on = λ e.
          Working-update max r rest s _ (λ x. refl) s.dlq (λ k d. d)
            (record {
              published = λ p. let was = h.safe.at r.id r h.fresh.0 in was.published p;
              given_up = λ p q. ground arith;
            })
            h;
    })
  ]

  pub handle_terminal-Fine :
      (r : Row) (rest : List Row) (s : Outbox) (why : Reason)
      → Working max (r ∷ rest) s
      → Fine (Working max rest) (handle_terminal b r why s)
  unfolding handle_terminal mark_terminal
  handle_terminal-Fine r rest s why h = elim (Bool-cases (b.fails (PubCall.insert_dlq r.id))) [
    | inl down ↦ rw down (record { on = λ e. cc })
    | inr up ↦ elim (Bool-cases (b.fails (PubCall.mark r.id))) [
      | inl down ↦ rw (up, down) (record { on = λ e. cc })
      | inr marked ↦
          rw (up, marked)
            (record {
              on = λ e.
                  Working-update max r rest s _ (λ x. refl) (s.dlq ++ dead_letter b r why ∷ [])
                    (λ k d. ground (arith, in_dlq-append k s.dlq (dead_letter b r why ∷ [])))
                    (record {
                      published = λ p. let was = h.safe.at r.id r h.fresh.0 in was.published p;
                      given_up = λ p q.
                          ground (arith, in_dlq-append r.id s.dlq (dead_letter b r why ∷ []));
                    })
                    h;
            })
    ]
  ]

  pub record_outcome-Fine :
      (r : Row) (rest : List Row) (s : Outbox) (out : Outcome)
      → (out ≡ Outcome.delivered → in_sent r.id s.sent ≡ true)
      → Working max (r ∷ rest) s
      → Fine (Working max rest) (record_outcome b r out s)
  unfolding record_outcome
  record_outcome-Fine r rest s Outcome.delivered sent h = mark_published-Fine r rest s (sent refl) h
  record_outcome-Fine r rest s Outcome.hopeless sent h = handle_terminal-Fine r rest s _ h
  record_outcome-Fine r rest s Outcome.refused sent h =
      elim (Bool-cases (leb b.max_attempts (r.attempt_count + 1))) [
        | inl over ↦ rw over (handle_terminal-Fine r rest s _ h)
        | inr left ↦ rw left (mark_failed-Fine r rest s (ground arith) h)
      ]

  pub Working-grow :
      (rest : List Row) (s s' : Outbox)
      → s'.rows ≡ s.rows
      → s'.dlq ≡ s.dlq
      → ((k : Uuid) → in_sent k s.sent ≡ true → in_sent k s'.sent ≡ true)
      → Working max rest s
      → Working max rest s'
  Working-grow rest s s' rows dlq more h = record {
    safe = record {
      at = λ k r e.
          let was = h.safe.at k r (subst (λ rs. row_at k rs ≡ some r) rows e) in
          record {
            published = λ p. more k (was.published p);
            given_up = λ p q. subst (λ ds. in_dlq k ds ≡ true) (sym dlq) (was.given_up p q);
          };
      distinct = subst Distinct (sym rows) h.safe.distinct;
    };
    fresh = subst (λ rs. All (λ r. row_at r.id rs ≡ some r) rest) (sym rows) h.fresh;
    apart = h.apart;
  }
