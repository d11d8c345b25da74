-- ===== src/Orders/Lift.antt =====
-- From the transactions to the operations: what every transaction keeps of the tables, every
-- operation keeps, whether it returns or fails.
use packfinderz_backend.Prelude.{◌==◌, Bool, true, false, ◌≡◌, refl}
use packfinderz_backend.Enums.{OrderStatus, ItemStatus}
use packfinderz_backend.Store.Tables.{VendorOrder, Tables, World, Uuid}
use packfinderz_backend.Store.Tx.{Env, M, pure, with_tx, ◌>>=◌, ◌>>◌}
use packfinderz_backend.Store.Post.{Post}
use packfinderz_backend.Store.Always.{
  Always, Still, fail_if-Still, pure-Still, bind-Still, bind-Always, then-Always, pure-Always,
  fail-Always, with_tx-Always,
}
use packfinderz_backend.Orders.Input.{
  VendorDecisionInput, LineItemDecisionInput, ActorInput, AgentInput, VendorOrderDecision,
  LineItemDecision, map_decision_to_status, map_line_item_decision, check_actor, check_agent,
}
use packfinderz_backend.Orders.Decision.{
  vendor_decision, line_item_decision, decide_order, decide_line_item,
}
use packfinderz_backend.Orders.Buyer.{cancel_order, nudge_vendor, cancel_in_tx, nudge_in_tx}
use packfinderz_backend.Orders.Retry.{retry_order, retry_in_tx}
use packfinderz_backend.Orders.Agent.{agent_pickup, agent_deliver, pickup_in_tx, deliver_in_tx}
use packfinderz_backend.Orders.Cash.{agent_cash_collected, cash_in_tx}
use packfinderz_backend.Orders.Payout.{confirm_payout, payout_in_tx}
use packfinderz_backend.Orders.Run.{Op, run}
use packfinderz_backend.Cron.OrderTtl.{expire_order, expire_in_tx}

-- What a vendor's decision makes of an order.
abbrev pub is_decided : OrderStatus → Bool
is_decided OrderStatus.accepted = true
is_decided OrderStatus.rejected = true
is_decided _ = false

-- What a vendor's decision makes of a line item.
abbrev pub is_resolution : ItemStatus → Bool
is_resolution ItemStatus.fulfilled = true
is_resolution ItemStatus.rejected = true
is_resolution _ = false

-- The transactions, each with a property of the tables that it leaves.
pub record Bodies (P : Tables → Type 0) (env : Env) (w : World) : Type 0 where
  pub decide :
      (i : VendorDecisionInput) (s : OrderStatus)
      → is_decided s ≡ true
      → Post (λ _ v. P v.tables) (decide_order env i s w)
  pub decide_item :
      (i : LineItemDecisionInput) (s : ItemStatus)
      → is_resolution s ≡ true
      → Post (λ _ v. P v.tables) (decide_line_item env i s w)
  pub cancel : (i : ActorInput) → Post (λ _ v. P v.tables) (cancel_in_tx env i w)
  pub nudge : (i : ActorInput) → Post (λ _ v. P v.tables) (nudge_in_tx env i w)
  pub retry : (i : ActorInput) → Post (λ _ v. P v.tables) (retry_in_tx env i w)
  pub payout : (i : ActorInput) → Post (λ _ v. P v.tables) (payout_in_tx env i w)
  pub pickup : (i : AgentInput) → Post (λ _ v. P v.tables) (pickup_in_tx env i w)
  pub deliver : (i : AgentInput) → Post (λ _ v. P v.tables) (deliver_in_tx env i w)
  pub collect : (i : AgentInput) → Post (λ _ v. P v.tables) (cash_in_tx env i w)
  pub expire : (o : VendorOrder) → Post (λ _ v. P v.tables) (expire_in_tx env o w)

pub check_actor-Still : (a b c : Uuid) → Still (check_actor a b c)
check_actor-Still a b c =
    bind-Still _ _ (bind-Still _ _ (fail_if-Still (a == 0) _) λ _. fail_if-Still (b == 0) _)
      λ _. fail_if-Still (c == 0) _

pub check_agent-Still : (i : AgentInput) → Still (check_agent i)
check_agent-Still i =
    bind-Still _ _ (fail_if-Still (i.order_id == 0) _) λ _. fail_if-Still (i.agent_user_id == 0) _

module _ (P : Tables → Type 0) (env : Env) (w : World) (before : P w.tables) where
  -- A transaction behind the checks of an actor.
  actor-Always :
      {A : Type 0} (a b c : Uuid) (m : M A)
      → Post (λ _ v. P v.tables) (m w)
      → Always P ((check_actor a b c >> with_tx env m) w)
  actor-Always a b c m h =
      bind-Always P (check_actor a b c) _ w (check_actor-Still a b c) before
        λ _. with_tx-Always P env m w before h

  agent-Always :
      {A : Type 0} (i : AgentInput) (m : M A)
      → Post (λ _ v. P v.tables) (m w)
      → Always P ((check_agent i >> with_tx env m) w)
  agent-Always i m h =
      bind-Always P (check_agent i) _ w (check_agent-Still i) before
        λ _. with_tx-Always P env m w before h

  module _ (bodies : Bodies P env w) where
    decide-Always : (i : VendorDecisionInput) → Always P (vendor_decision env i w)
    unfolding vendor_decision map_decision_to_status pure
    decide-Always i =
        bind-Always P (check_actor i.order_id i.actor_user_id i.actor_store_id) _ w
          (check_actor-Still _ _ _) before λ _. decided i.decision
      where
        decided :
            (d : VendorOrderDecision)
            → Always P ((map_decision_to_status d >>= λ s. with_tx env (decide_order env i s)) w)
        decided VendorOrderDecision.accept =
            pure-Always P _ _ w (with_tx-Always P env _ w before (bodies.decide i _ refl))
        decided VendorOrderDecision.reject =
            pure-Always P _ _ w (with_tx-Always P env _ w before (bodies.decide i _ refl))
        decided VendorOrderDecision.other = fail-Always P _ _ w before

    decide_item-Always : (i : LineItemDecisionInput) → Always P (line_item_decision env i w)
    unfolding line_item_decision map_line_item_decision pure
    decide_item-Always i = bind-Always P _ _ w (fail_if-Still _ _) before λ _.
        bind-Always P _ _ w (fail_if-Still _ _) before λ _.
          bind-Always P _ _ w (fail_if-Still _ _) before
            λ _. bind-Always P _ _ w (fail_if-Still _ _) before λ _. resolved i.decision
      where
        resolved :
            (d : LineItemDecision)
            → Always P
                ((map_line_item_decision d >>= λ s. with_tx env (decide_line_item env i s)) w)
        resolved LineItemDecision.fulfill =
            pure-Always P _ _ w (with_tx-Always P env _ w before (bodies.decide_item i _ refl))
        resolved LineItemDecision.reject =
            pure-Always P _ _ w (with_tx-Always P env _ w before (bodies.decide_item i _ refl))
        resolved LineItemDecision.other = fail-Always P _ _ w before

    -- What every transaction keeps, every operation keeps.
    pub run-Always : (op : Op) → Always P (run env op w)
    unfolding run cancel_order nudge_vendor retry_order agent_pickup agent_deliver
        agent_cash_collected confirm_payout expire_order
    run-Always (Op.decide i) = decide-Always i
    run-Always (Op.decide_item i) = decide_item-Always i
    run-Always (Op.cancel i) = actor-Always _ _ _ _ (bodies.cancel i)
    run-Always (Op.nudge i) = actor-Always _ _ _ _ (bodies.nudge i)
    run-Always (Op.retry i) =
        then-Always P (retry_order env i) _ w (actor-Always _ _ _ _ (bodies.retry i))
          λ k. pure-Still tt
    run-Always (Op.payout i) = bind-Always P _ _ w (fail_if-Still _ _) before λ _.
        bind-Always P _ _ w (fail_if-Still _ _) before
          λ _. with_tx-Always P env _ w before (bodies.payout i)
    run-Always (Op.pickup i) = agent-Always i _ (bodies.pickup i)
    run-Always (Op.deliver i) = agent-Always i _ (bodies.deliver i)
    run-Always (Op.collect i) = agent-Always i _ (bodies.collect i)
    run-Always (Op.expire o) = with_tx-Always P env _ w before (bodies.expire o)
