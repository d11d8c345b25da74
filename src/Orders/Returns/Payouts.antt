-- ===== src/Orders/Returns/Payouts.antt =====
-- The payout.
use packfinderz_backend.Prelude.{some, [], ◌∷◌, ◌++◌, ◌≡◌, arith}
use packfinderz_backend.Enums.{OrderStatus, PaymentStatus, is_status}
use packfinderz_backend.Store.Tables.{PaymentIntent, World}
use packfinderz_backend.Store.Columns.{OrderColumn, IntentColumn}
use packfinderz_backend.Store.Tx.{Env, ⊤}
use packfinderz_backend.Store.Post.{
  Post, pure-Post, if-Post, bind-Post, map_error-Post, fail_if-Post,
}
use packfinderz_backend.Store.Repo.{order_row, intent_row, set_outbox, stamped, OrderDetail}
use packfinderz_backend.Store.Queries.{emit-Post}
use packfinderz_backend.Orders.Input.{ActorInput}
use packfinderz_backend.Orders.Payout.{pay_out, payout_in_tx, payout_ledger_input, paid_event}
use packfinderz_backend.Orders.Returns.Loads.{load_order_detail-Post}
use packfinderz_backend.Orders.Returns.Decisions.{with_columns}
use packfinderz_backend.Orders.Returns.Agents.{put_order-Post}
use packfinderz_backend.Orders.Returns.Money.{
  with_intent, with_event, intent_or-Post, record_event-Post, put_intent-Post,
}

-- The world after a payout.
abbrev pub paid_out : Env → ActorInput → OrderDetail → PaymentIntent → World → World
paid_out env input d p w =
    set_outbox (λ es. es ++ stamped env.now (paid_event env.now input d p) ∷ [])
      (with_event (payout_ledger_input input d p) (
        with_columns input.order_id (OrderColumn.status OrderStatus.closed ∷ []) (
          with_intent input.order_id
            (IntentColumn.status PaymentStatus.paid ∷ IntentColumn.vendor_paid_at env.now ∷ []) w)))

module _ (env : Env) {Q : ⊤ → World → Type 0} where
  pay_out-Post :
      (w : World) (input : ActorInput) (d : OrderDetail) (p : PaymentIntent)
      → Q tt (paid_out env input d p w)
      → Post Q (pay_out env input d p w)
  unfolding pay_out
  pay_out-Post w input d p q = bind-Post _ _ w (
      put_intent-Post env w input.order_id _ _ (
        bind-Post _ _ _ (
          put_order-Post env _ input.order_id _ (
            bind-Post _ _ _ (
              map_error-Post _ _ _
                (record_event-Post env _ _ (map_error-Post _ _ _ (emit-Post env _ _ q))))))))

  pub payout_in_tx-Post :
      (w : World) (input : ActorInput)
      → ((d : OrderDetail)
          → order_row input.order_id w ≡ some d.order
          → d.order.status ≡ OrderStatus.closed
          → Q tt w)
      → ((d : OrderDetail) (p : PaymentIntent)
          → order_row input.order_id w ≡ some d.order
          → intent_row input.order_id w ≡ some p
          → d.order.status ≡ OrderStatus.delivered
          → p.status ≡ PaymentStatus.settled
          → Q tt (paid_out env input d p w))
      → Post Q (payout_in_tx env input w)
  unfolding payout_in_tx
  payout_in_tx-Post w input done pay = bind-Post _ _ w (
      load_order_detail-Post env w input.order_id λ d found here act. bind-Post _ _ w (
        intent_or-Post env w d.intent _ λ p p_found. bind-Post _ _ w (
          fail_if-Post _ _ w λ stores.
            if-Post (is_status d.order.status OrderStatus.closed) _ _ w
              (λ e. pure-Post tt w (done d found (ground arith)))
              (λ e. bind-Post _ _ w (
                fail_if-Post _ _ w λ delivered. bind-Post _ _ w (
                  fail_if-Post _ _ w λ settled.
                    pay_out-Post w input d p
                      (pay d p found (ground arith) (ground arith) (ground arith))))))))
