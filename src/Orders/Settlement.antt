-- ===== src/Orders/Settlement.antt =====
-- What a successful payout and a successful collection of cash have done.
use packfinderz_backend.Prelude.{
  true, false, some, List, [], ◌∷◌, ◌++◌, ◌≡◌, refl, arith, pos, ltb_ℤ, ◌⊎◌, inl, inr,
}
use packfinderz_backend.Enums.{OrderStatus, PaymentStatus, LedgerType}
use packfinderz_backend.Errors.{ok}
use packfinderz_backend.Store.Tables.{VendorOrder, PaymentIntent, Assignment, World, Uuid}
use packfinderz_backend.Store.Rows.{find-update, update}
use packfinderz_backend.Store.Columns.{
  OrderColumn, IntentColumn, set_order, set_intent, set_intent-order_id,
}
use packfinderz_backend.Store.Tx.{Env}
use packfinderz_backend.Store.Post.{Post, Post-ok, bind-Post, fail_if-Post, with_tx-Post}
use packfinderz_backend.Store.Repo.{order_row, intent_row, active_row, stamped, OrderDetail}
use packfinderz_backend.Ledger.{has_type}
use packfinderz_backend.Orders.Input.{ActorInput, AgentInput}
use packfinderz_backend.Orders.Cash.{cash_ledger_input, can_collect, is_finalized, collection_time}
use packfinderz_backend.Orders.Payout.{confirm_payout, paid_event, payout_ledger_input}
use packfinderz_backend.Orders.Returns.Payouts.{payout_in_tx-Post}
use packfinderz_backend.Orders.Void.{order_at}
use packfinderz_backend.Orders.Void.Orders.{order_at-update}
use packfinderz_backend.Orders.Payments.{intent_at}

pub order_updated :
    (k : Uuid) (cs : List OrderColumn) (os : List VendorOrder) {o : VendorOrder}
    → order_at k os ≡ some o
    → order_at k (update (λ x. x.id) k (set_order cs) os) ≡ some (set_order cs o)
order_updated k cs os e = ground (arith, order_at-update cs k os k)

intent_updated :
    (k : Uuid) (cs : List IntentColumn) (ps : List PaymentIntent) {p : PaymentIntent}
    → intent_at k ps ≡ some p
    → intent_at k (update (λ x. x.order_id) k (set_intent cs) ps) ≡ some (set_intent cs p)
intent_updated k cs ps e = ground (
  arith,
  find-update (λ (x : PaymentIntent). x.order_id) (set_intent cs) (set_intent-order_id cs) k k ps,
)

-- A delivered order with a settled intent is closed and its intent paid, and the ledger and the
-- outbox each have one more event, of the intent's amount.
pub record PaidOut (env : Env) (input : ActorInput) (w v : World) : Type 0 where
  pub detail : OrderDetail
  pub intent : PaymentIntent
  pub order_before : order_row input.order_id w ≡ some detail.order
  pub intent_before : intent_row input.order_id w ≡ some intent
  pub delivered : detail.order.status ≡ OrderStatus.delivered
  pub settled : intent.status ≡ PaymentStatus.settled
  pub order_after :
      order_row input.order_id v ≡ some (record (detail.order) { status = OrderStatus.closed })
  pub intent_after :
      intent_row input.order_id v
      ≡ some (record intent { status = PaymentStatus.paid; vendor_paid_at = some env.now })
  pub ledger_after : v.ledger ≡ w.ledger ++ payout_ledger_input input detail intent ∷ []
  pub outbox_after :
      v.tables.outbox
      ≡ w.tables.outbox ++ stamped env.now (paid_event env.now input detail intent) ∷ []

-- The order was closed already, and nothing is done.
pub record Closed (input : ActorInput) (w v : World) : Type 0 where
  pub order : VendorOrder
  pub found : order_row input.order_id w ≡ some order
  pub closed : order.status ≡ OrderStatus.closed
  pub same : v ≡ w

confirm_payout-Post :
    (env : Env) (input : ActorInput) (w : World)
    → Post (λ _ v. Closed input w v ⊎ PaidOut env input w v) (confirm_payout env input w)
unfolding confirm_payout
confirm_payout-Post env input w = bind-Post _ _ w (
    fail_if-Post _ _ w λ _. bind-Post _ _ w (
      fail_if-Post _ _ w λ _. with_tx-Post env _ w (
        payout_in_tx-Post env w input
          (λ d found closed.
            inl (record { order = d.order; found = found; closed = closed; same = refl }))
          λ d p found pay delivered settled. inr (record {
            detail = d;
            intent = p;
            order_before = found;
            intent_before = pay;
            delivered = delivered;
            settled = settled;
            order_after =
                order_updated input.order_id (OrderColumn.status OrderStatus.closed ∷ []) _ found;
            intent_after =
                intent_updated input.order_id
                  (IntentColumn.status PaymentStatus.paid
                    ∷ IntentColumn.vendor_paid_at env.now
                    ∷ [])
                  _ pay;
            ledger_after = refl;
            outbox_after = refl;
          }))))

-- A payout that reports success has either found the order closed and done nothing, or it has
-- found the order delivered and its intent settled, and the order is now closed, the intent is paid
-- at the present time, and the ledger and the outbox have each got one event, of the intent's amount.
pub confirm_payout_ok :
    (env : Env) (input : ActorInput) (w : World)
    → (confirm_payout env input w).0 ≡ ok tt
    → Closed input w (confirm_payout env input w).1
      ⊎ PaidOut env input w (confirm_payout env input w).1
confirm_payout_ok env input w e = Post-ok _ (confirm_payout-Post env input w) e

-- The order's cash is collected: the intent is settled, nothing is due, and the ledger and the
-- outbox each have one more event, of the order's total.
pub record Collected (env : Env) (input : AgentInput) (w v : World) : Type 0 where
  pub detail : OrderDetail
  pub intent : PaymentIntent
  pub agent : Assignment
  pub order_before : order_row input.order_id w ≡ some detail.order
  pub intent_before : intent_row input.order_id w ≡ some intent
  pub assigned : active_row input.order_id w.tables.assignments ≡ some agent
  pub own : agent.agent_user_id ≡ input.agent_user_id
  pub ready : can_collect detail.order.status ≡ true
  pub live : is_finalized intent.status ≡ false
  pub exact :
      ltb_ℤ (pos 0) intent.amount_cents ≡ true → detail.order.total_cents ≡ intent.amount_cents
  pub first : has_type input.order_id LedgerType.cash_collected w.ledger ≡ false
  pub order_after :
      order_row input.order_id v ≡ some (record (detail.order) { balance_due_cents = pos 0 })
  pub intent_after :
      intent_row input.order_id v
      ≡ some (record intent {
        status = PaymentStatus.settled;
        cash_collected_at = some (collection_time env.now intent.cash_collected_at);
      })
  pub ledger_after :
      v.ledger ≡ w.ledger ++ cash_ledger_input input detail detail.order.total_cents ∷ []
