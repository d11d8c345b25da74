-- ===== src/Orders/Run.antt =====
-- One step of the order system, by whoever asks for it: an operation of the order service, or the
-- expiry of one order by the scheduled job. Between two steps the database may behave otherwise,
-- so each step has its own `Env`.
use packfinderz_backend.Store.Tables.{VendorOrder, World}
use packfinderz_backend.Store.Tx.{Env, M, ⊤, pure, ◌>>=◌}
use packfinderz_backend.Orders.Input.{
  VendorDecisionInput, LineItemDecisionInput, ActorInput, AgentInput,
}
use packfinderz_backend.Orders.Decision.{vendor_decision, line_item_decision}
use packfinderz_backend.Orders.Buyer.{cancel_order, nudge_vendor}
use packfinderz_backend.Orders.Retry.{retry_order}
use packfinderz_backend.Orders.Agent.{agent_pickup, agent_deliver}
use packfinderz_backend.Orders.Cash.{agent_cash_collected}
use packfinderz_backend.Orders.Payout.{confirm_payout}
use packfinderz_backend.Cron.OrderTtl.{expire_order}

pub data Op : Type 0 where
  decide : VendorDecisionInput → Op
  decide_item : LineItemDecisionInput → Op
  cancel nudge retry payout : ActorInput → Op
  pickup deliver collect : AgentInput → Op
  expire : VendorOrder → Op

unfoldable pub run : Env → Op → M ⊤
run env (Op.decide i) = vendor_decision env i
run env (Op.decide_item i) = line_item_decision env i
run env (Op.cancel i) = cancel_order env i
run env (Op.nudge i) = nudge_vendor env i
run env (Op.retry i) = retry_order env i >>= λ k. pure tt
run env (Op.payout i) = confirm_payout env i
run env (Op.pickup i) = agent_pickup env i
run env (Op.deliver i) = agent_deliver env i
run env (Op.collect i) = agent_cash_collected env i
run env (Op.expire o) = expire_order env o

-- The worlds that steps lead to, in any order and with any failures.
pub data Reach (w : World) : World → Type 0 where
  here : Reach w w
  next : {v : World} → Reach w v → (env : Env) (op : Op) → Reach w (run env op v).1
