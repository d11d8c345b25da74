-- ===== src/Tests/Money.antt =====
-- Payouts, collections of cash and decisions on line items.
use packfinderz_backend.Orders.Totals.{tally_lem, kept_total, is_pending, is_rejected}
use packfinderz_backend.Orders.CashOnce.{cash_once, cash_events}
use packfinderz_backend.Store.Tables.{World}
use packfinderz_backend.Prelude.{
  arith, ◌≤◌, wrap, count_if, Bool, true, false, none, ◌≡◌, refl, ◌⊎◌,
}
use packfinderz_backend.Enums.{
  LedgerType, OrderStatus-discrete, PaymentStatus-discrete, LedgerType-discrete,
}
use packfinderz_backend.Errors.{Code, coded, ok, err}
use packfinderz_backend.Store.Tx.{Call, Env, with_tx, call, ◌>>=◌}
use packfinderz_backend.Store.Repo.{
  find_order_detail, load_store_summary, update_vendor_order, update_payment_intent,
  update_order_assignment, emit,
}
use packfinderz_backend.Ledger.{record_event, has_event, has_type}
use packfinderz_backend.Orders.Input.{LineItemDecisionInput, LineItemDecision}
use packfinderz_backend.Orders.Agent.{load_order_detail}
use packfinderz_backend.Orders.Cash.{
  agent_cash_collected, cash_in_tx, collect_checked, collect_amount, settle_cash,
  fail_cash_collection, emit_payment_failed,
}
use packfinderz_backend.Orders.Payout.{confirm_payout, payout_in_tx, pay_out}
use packfinderz_backend.Orders.Decision.{tally}
use packfinderz_backend.Orders.Settlement.{confirm_payout_ok, Closed, PaidOut}
use packfinderz_backend.Tests.Data.{
  quiet, by_buyer, by_agent, pending_world, transit_world, delivered_world,
}

payout_returns : (confirm_payout quiet by_buyer delivered_world).0 ≡ ok tt
unfolding confirm_payout payout_in_tx pay_out load_order_detail find_order_detail load_store_summary
    update_vendor_order update_payment_intent record_event emit with_tx call ◌>>=◌
    OrderStatus-discrete PaymentStatus-discrete
payout_returns = refl

confirm_payout_ok_example :
    Closed by_buyer delivered_world (confirm_payout quiet by_buyer delivered_world).1
    ⊎ PaidOut quiet by_buyer delivered_world (confirm_payout quiet by_buyer delivered_world).1
confirm_payout_ok_example = confirm_payout_ok quiet by_buyer delivered_world payout_returns

abbrev fulfill_seven : LineItemDecisionInput
fulfill_seven = record {
  order_id = 1;
  line_item_id = 7;
  decision = LineItemDecision.fulfill;
  notes = none;
  actor_user_id = 4;
  actor_store_id = 6;
  actor_role = 2;
}

-- The event of a payout cannot be emitted: the tables are undone, and the ledger's row stays.
abbrev is_emit : Call → Bool
is_emit (Call.emit t) = true
is_emit _ = false

abbrev no_events : Env
no_events = record quiet { fails = is_emit }

payout_left_in_ledger :
    ((confirm_payout no_events by_buyer delivered_world).0 ≡ err (coded Code.dependency))
    × (has_type 1 LedgerType.vendor_payout
          (confirm_payout no_events by_buyer delivered_world).1.ledger
        ≡ true)
unfolding confirm_payout payout_in_tx pay_out load_order_detail find_order_detail load_store_summary
    update_vendor_order update_payment_intent record_event emit with_tx call ◌>>=◌
    OrderStatus-discrete PaymentStatus-discrete LedgerType-discrete
payout_left_in_ledger = (refl, refl)

-- An order that is not ready for its cash: the failure is reported, and nothing is left of it.
not_ready_is_undone :
    agent_cash_collected quiet by_agent pending_world
    ≡ (err (coded Code.state_conflict), pending_world)
unfolding agent_cash_collected cash_in_tx collect_checked fail_cash_collection emit_payment_failed
    load_order_detail find_order_detail load_store_summary update_vendor_order update_payment_intent
    emit with_tx call ◌>>=◌
not_ready_is_undone = refl

tally_lem_example :
    (((tally pending_world.tables.items).subtotal ≡ wrap (kept_total pending_world.tables.items))
      × ((tally pending_world.tables.items).pending
          ≡ count_if is_pending pending_world.tables.items))
    × ((tally pending_world.tables.items).rejected
        ≡ count_if is_rejected pending_world.tables.items)
tally_lem_example = tally_lem pending_world.tables.items

cash_once_example : cash_events 1 (agent_cash_collected quiet by_agent transit_world).1.ledger ≤ 1
cash_once_example = cash_once quiet by_agent transit_world 1 (omega arith)

-- A collection whose commit fails leaves its event in the ledger, and the next one reports success
-- and settles nothing.
abbrev is_commit : Call → Bool
is_commit Call.commit = true
is_commit _ = false

abbrev no_commit : Env
no_commit = record quiet { fails = is_commit }

abbrev half_collected : World
half_collected = (agent_cash_collected no_commit by_agent transit_world).1

lost_collection :
    (half_collected.tables ≡ transit_world.tables)
    × (agent_cash_collected quiet by_agent half_collected ≡ (ok tt, half_collected))
unfolding agent_cash_collected cash_in_tx collect_checked collect_amount settle_cash
    load_order_detail find_order_detail load_store_summary update_vendor_order update_payment_intent
    update_order_assignment has_event record_event emit with_tx call ◌>>=◌ LedgerType-discrete
lost_collection = (refl, refl)
