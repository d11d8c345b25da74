-- ===== src/Orders/Returns/Money.antt =====
-- The collection of cash and the payout.
use mathlib.Core.Path.{subst}
use packfinderz_backend.Prelude.{
  ◌==◌, if◌then◌else◌, not, Bool, true, false, Option, none, some, List, [], ◌∷◌, ◌++◌, ◌≡◌, refl,
  arith, ℤ, pos, ltb_ℤ, eqb_ℤ,
}
use packfinderz_backend.Enums.{LedgerType}
use packfinderz_backend.Errors.{Code}
use packfinderz_backend.Store.Tables.{
  VendorOrder, Assignment, PaymentIntent, LedgerEvent, ActorRef, FailureReason, World, Uuid,
}
use packfinderz_backend.Store.Rows.{update}
use packfinderz_backend.Store.Columns.{OrderColumn, IntentColumn, AssignmentColumn, set_intent}
use packfinderz_backend.Store.Tx.{Env, ⊤, wrapped}
use packfinderz_backend.Store.Post.{
  Post, pure-Post, fail-Post, raise-Post, if-Post, bind-Post, map_error-Post, fail_if-Post,
  call-Post, modify-Post, gets-Post,
}
use packfinderz_backend.Store.Repo.{
  order_row, intent_row, active_row, set_intents, set_outbox, stamped, update_payment_intent,
  OrderDetail,
}
use packfinderz_backend.Store.Queries.{update_payment_intent-Post, emit-Post}
use packfinderz_backend.Ledger.{RecordInput, record_event, has_event, has_type}
use packfinderz_backend.Orders.Input.{AgentInput}
use packfinderz_backend.Orders.Agent.{unless, is_some}
use packfinderz_backend.Orders.Cash.{
  intent_or, can_collect, is_finalized, fail_cash_collection, emit_payment_failed, settle_cash,
  settle_columns, collect_amount, collect_checked, cash_in_tx, cash_collected_event,
  cash_ledger_input, collection_time,
}
use packfinderz_backend.Orders.Returns.Loads.{load_order_detail-Post}
use packfinderz_backend.Orders.Returns.Decisions.{with_columns}
use packfinderz_backend.Orders.Returns.Agents.{
  put_order-Post, put_assignment-Post, own_assignment-Post, with_assignment,
}

abbrev pub with_intent : Uuid → List IntentColumn → World → World
with_intent k cs = set_intents (update (λ p. p.order_id) k (set_intent cs))

abbrev pub with_event : LedgerEvent → World → World
with_event e w = record w { ledger = w.ledger ++ e ∷ [] }

module _ (env : Env) (w : World) where
  pub intent_or-Post :
      {Q : PaymentIntent → World → Type 0} (found : Option PaymentIntent) (c : Code)
      → ((p : PaymentIntent) → found ≡ some p → Q p w)
      → Post Q (intent_or found c w)
  intent_or-Post none c q = fail-Post c w
  intent_or-Post (some p) c q = pure-Post p w (q p refl)

  pub record_event-Post :
      {Q : ⊤ → World → Type 0} (input : RecordInput)
      → Q tt (with_event input w)
      → Post Q (record_event env input w)
  unfolding record_event
  record_event-Post input q =
      if-Post (input.order_id == 0) _ _ w (λ _. raise-Post _ w)
        (λ _.
          if-Post (input.buyer_store_id == 0) _ _ w (λ _. raise-Post _ w)
            (λ _.
              if-Post (input.vendor_store_id == 0) _ _ w (λ _. raise-Post _ w)
                (λ _.
                  if-Post (input.actor_user_id == 0) _ _ w (λ _. raise-Post _ w)
                    (λ _. call-Post env _ _ w (modify-Post _ w q)))))

  pub has_event-Post :
      {Q : Bool → World → Type 0} (k : Uuid) (t : LedgerType)
      → Q (has_type k t w.ledger) w
      → Post Q (has_event env k t w)
  unfolding has_event
  has_event-Post k t q =
      if-Post (k == 0) _ _ w (λ _. raise-Post _ w) (λ _. call-Post env _ _ w (gets-Post _ w q))

-- The world after a collection.
abbrev pub collected :
    Env → AgentInput → OrderDetail → Assignment → PaymentIntent → ℤ → World → World
collected env input d a p amount w = with_event (cash_ledger_input input d amount) (
    set_outbox
      (λ es.
        es
        ++ stamped env.now
            (cash_collected_event input d amount (collection_time env.now p.cash_collected_at))
          ∷ [])
      (with_assignment a.id
        (unless (is_some a.cash_pickup_time) (AssignmentColumn.cash_pickup_time env.now))
        (with_columns input.order_id (OrderColumn.balance_due_cents (pos 0) ∷ [])
          (with_intent input.order_id (settle_columns env.now p) w))))

-- The amount that is collected: the intent's, or for an intent of none the order's total.
abbrev pub amount_due : VendorOrder → PaymentIntent → ℤ
amount_due o p = if ltb_ℤ (pos 0) p.amount_cents then p.amount_cents else o.total_cents

module _ (env : Env) {Q : ⊤ → World → Type 0} where
  pub put_intent-Post :
      (w : World) (k : Uuid) (c : IntentColumn) (cs : List IntentColumn)
      → Q tt (with_intent k (c ∷ cs) w)
      → Post Q (wrapped (update_payment_intent env k (c ∷ cs)) w)
  put_intent-Post w k c cs q =
      map_error-Post _ _ w (update_payment_intent-Post env w k (c ∷ cs) (λ e. cc) q)

  emit_payment_failed-Post :
      (w : World) (actor : ActorRef) (k i : Uuid) (r : FailureReason)
      → ((v : World) → Q tt v)
      → Post Q (emit_payment_failed env actor k i r w)
  unfolding emit_payment_failed
  emit_payment_failed-Post w actor k i r q = map_error-Post _ _ w (emit-Post env w _ (q _))

module _ (env : Env) {Q : ⊤ → World → Type 0} where
  pub settle_cash-Post :
      (w : World) (input : AgentInput) (d : OrderDetail) (a : Assignment) (p : PaymentIntent)
      (amount : ℤ)
      → Q tt (collected env input d a p amount w)
      → Post Q (settle_cash env input d a p amount w)
  unfolding settle_cash
  settle_cash-Post w input d a p amount q = bind-Post _ _ w (
      put_intent-Post env w input.order_id _ _ (
        bind-Post _ _ _ (
          put_order-Post env _ input.order_id _ (
            bind-Post _ _ _ (
              put_assignment-Post env _ a.id _ (
                bind-Post _ _ _ (
                  map_error-Post _ _ _
                    (emit-Post env _ _ (map_error-Post _ _ _ (record_event-Post env _ _ q))))))))))

  -- A collection that fails never comes to a value.
  pub fail_cash_collection-Post :
      (w : World) (actor : ActorRef) (k i : Uuid) (r : FailureReason)
      → Post Q (fail_cash_collection env actor k i r w)
  unfolding fail_cash_collection
  fail_cash_collection-Post w actor k i r = bind-Post _ _ w (
      put_intent-Post env w k _ _ (
        bind-Post _ _ _ (
          put_order-Post env _ k _
            (bind-Post _ _ _ (emit_payment_failed-Post env _ actor k i r λ v. fail-Post _ v)))))

module _ (env : Env) {Q : ⊤ → World → Type 0} where
  -- The intent must be of the order's total, or of no amount.
  pub collect_amount-Post :
      (w : World) (input : AgentInput) (d : OrderDetail) (a : Assignment) (p : PaymentIntent)
      → (ltb_ℤ (pos 0) p.amount_cents ≡ true
          → d.order.total_cents ≡ p.amount_cents
          → Q tt (collected env input d a p d.order.total_cents w))
      → (ltb_ℤ (pos 0) p.amount_cents ≡ false
          → Q tt (collected env input d a p d.order.total_cents w))
      → Post Q (collect_amount env input d a p w)
  unfolding collect_amount
  collect_amount-Post w input d a p exact none_ =
      if-Post (ltb_ℤ (pos 0) p.amount_cents) _ _ w
        (λ e.
          if-Post (not (eqb_ℤ d.order.total_cents p.amount_cents)) _ _ w
            (λ f. fail_cash_collection-Post env w _ _ _ _)
            (λ f.
              let same : d.order.total_cents ≡ p.amount_cents = ground arith in
              settle_cash-Post env w input d a p p.amount_cents
                (subst (λ n. Q tt (collected env input d a p n w)) same (exact e same))))
        (λ e. settle_cash-Post env w input d a p d.order.total_cents (none_ e))

  pub cash_in_tx-Post :
      (w : World) (input : AgentInput)
      → ((d : OrderDetail) (a : Assignment) (p : PaymentIntent)
          → order_row input.order_id w ≡ some d.order
          → intent_row input.order_id w ≡ some p
          → active_row input.order_id w.tables.assignments ≡ some a
          → a.agent_user_id ≡ input.agent_user_id
          → can_collect d.order.status ≡ true
          → is_finalized p.status ≡ false
          → (has_type input.order_id LedgerType.cash_collected w.ledger ≡ true → Q tt w)
            × (has_type input.order_id LedgerType.cash_collected w.ledger ≡ false
                → (ltb_ℤ (pos 0) p.amount_cents ≡ true → d.order.total_cents ≡ p.amount_cents)
                → Q tt (collected env input d a p d.order.total_cents w)))
      → Post Q (cash_in_tx env input w)
  unfolding cash_in_tx collect_checked
  cash_in_tx-Post w input q = bind-Post _ _ w (
      load_order_detail-Post env w input.order_id λ d found pay act. bind-Post _ _ w (
        own_assignment-Post env w input.agent_user_id d.active_assignment λ a mine own.
          bind-Post _ _ w (
            fail_if-Post _ _ w λ stores. bind-Post _ _ w (
              intent_or-Post env w d.intent _ λ p here.
                if-Post (not (can_collect d.order.status)) _ _ w
                  (λ e. fail_cash_collection-Post env w _ _ _ _)
                  (λ e. bind-Post _ _ w (
                    fail_if-Post _ _ w λ live. bind-Post _ _ w (
                      map_error-Post _ _ w (
                        has_event-Post env w _ _ (
                          let both =
                            q d a p found (ground arith) (ground arith) own (ground arith) live in
                          if-Post (has_type input.order_id LedgerType.cash_collected w.ledger) _ _ w
                            (λ f. pure-Post tt w (both.0 f))
                            (λ f.
                              collect_amount-Post w input d a p (λ g same. both.1 f (λ _. same))
                                (λ g. both.1 f (λ h. ground arith))))))))))))
