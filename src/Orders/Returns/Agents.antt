-- ===== src/Orders/Returns/Agents.antt =====
-- A pickup and a delivery by the agent of an order.
use packfinderz_backend.Prelude.{
  ◌==◌, not, true, Option, none, some, List, [], ◌∷◌, ◌≡◌, refl, arith, ap,
}
use mathlib.Core.Path.{subst}
use packfinderz_backend.Store.Tables.{VendorOrder, Assignment, World, Uuid}
use packfinderz_backend.Store.Rows.{update}
use packfinderz_backend.Store.Columns.{OrderColumn, AssignmentColumn, set_order, set_assignment}
use packfinderz_backend.Store.Tx.{Env, ⊤, wrapped}
use packfinderz_backend.Store.Post.{
  Post, pure-Post, fail-Post, if-Post, bind-Post, map_error-Post, fail_if-Post,
}
use packfinderz_backend.Store.Repo.{
  order_row, active_row, set_assignments, set_orders, update_vendor_order, update_order_assignment,
}
use packfinderz_backend.Store.Queries.{update_vendor_order-Post, update_order_assignment-Post}
use packfinderz_backend.Orders.Input.{AgentInput}
use packfinderz_backend.Orders.Agent.{
  unless, is_some, can_pick_up, can_deliver, pickup_columns, deliver_columns, own_assignment,
  pickup_in_tx, deliver_in_tx,
}
use packfinderz_backend.Orders.Returns.Loads.{load_order_detail-Post}
use packfinderz_backend.Orders.Returns.Decisions.{with_columns}

abbrev pub with_assignment : Uuid → List AssignmentColumn → World → World
with_assignment k cs = set_assignments (update (λ a. a.id) k (set_assignment cs))

-- An update of no column changes nothing.
no_columns : (k : Uuid) (os : List VendorOrder) → update (λ o. o.id) k (set_order []) os ≡ os
no_columns k [] = refl
no_columns k (o ∷ os) = ground (arith, no_columns k os)

no_assignment : (k : Uuid) (xs : List Assignment) → update (λ a. a.id) k (set_assignment []) xs ≡ xs
no_assignment k [] = refl
no_assignment k (x ∷ xs) = ground (arith, no_assignment k xs)

module _ (env : Env) {Q : ⊤ → World → Type 0} where
  pub put_order-Post :
      (w : World) (k : Uuid) (cs : List OrderColumn)
      → Q tt (with_columns k cs w)
      → Post Q (wrapped (update_vendor_order env k cs) w)
  put_order-Post w k cs q = map_error-Post _ _ w (
      update_vendor_order-Post env w k cs
        (λ e.
          subst (λ v. Q tt v) (ap (λ xs. set_orders (λ _. xs) w) (no_columns k w.tables.orders))
            (subst (λ ds. Q tt (with_columns k ds w)) e q))
        q)

  pub put_assignment-Post :
      (w : World) (k : Uuid) (cs : List AssignmentColumn)
      → Q tt (with_assignment k cs w)
      → Post Q (wrapped (update_order_assignment env k cs) w)
  put_assignment-Post w k cs q = map_error-Post _ _ w (
      update_order_assignment-Post env w k cs
        (λ e.
          subst (λ v. Q tt v)
            (ap (λ xs. set_assignments (λ _. xs) w) (no_assignment k w.tables.assignments))
            (subst (λ ds. Q tt (with_assignment k ds w)) e q))
        q)

module _ (env : Env) {Q : Assignment → World → Type 0} where
  pub own_assignment-Post :
      (w : World) (agent : Uuid) (found : Option Assignment)
      → ((a : Assignment) → found ≡ some a → a.agent_user_id ≡ agent → Q a w)
      → Post Q (own_assignment env agent found w)
  own_assignment-Post w agent none q = fail-Post _ w
  own_assignment-Post w agent (some a) q =
      if-Post (not (a.agent_user_id == agent)) _ _ w (λ e. fail-Post _ w)
        (λ e. pure-Post a w (q a refl (ground arith)))

module _ (env : Env) {Q : ⊤ → World → Type 0} where
  pub pickup_in_tx-Post :
      (w : World) (input : AgentInput)
      → ((o : VendorOrder) (a : Assignment)
          → order_row input.order_id w ≡ some o
          → active_row input.order_id w.tables.assignments ≡ some a
          → a.agent_user_id ≡ input.agent_user_id
          → can_pick_up o.status ≡ true
          → Q tt (
              with_assignment a.id
                (unless (is_some a.pickup_time) (AssignmentColumn.pickup_time env.now))
                (with_columns input.order_id (pickup_columns o) w)))
      → Post Q (pickup_in_tx env input w)
  unfolding pickup_in_tx
  pickup_in_tx-Post w input q = bind-Post _ _ w (
      load_order_detail-Post env w input.order_id λ d found pay act. bind-Post _ _ w (
        own_assignment-Post env w input.agent_user_id d.active_assignment λ a mine own.
          bind-Post _ _ w (
            fail_if-Post _ _ w λ fine. bind-Post _ _ w (
              put_order-Post env w input.order_id _ (
                put_assignment-Post env _ a.id _
                  (q d.order a found (ground arith) own (ground arith)))))))

  pub deliver_in_tx-Post :
      (w : World) (input : AgentInput)
      → ((o : VendorOrder) (a : Assignment)
          → order_row input.order_id w ≡ some o
          → active_row input.order_id w.tables.assignments ≡ some a
          → a.agent_user_id ≡ input.agent_user_id
          → can_deliver o.status ≡ true
          → Q tt (
              with_assignment a.id
                (unless (is_some a.delivery_time) (AssignmentColumn.delivery_time env.now))
                (with_columns input.order_id (deliver_columns env.now o) w)))
      → Post Q (deliver_in_tx env input w)
  unfolding deliver_in_tx
  deliver_in_tx-Post w input q = bind-Post _ _ w (
      load_order_detail-Post env w input.order_id λ d found pay act. bind-Post _ _ w (
        own_assignment-Post env w input.agent_user_id d.active_assignment λ a mine own.
          bind-Post _ _ w (
            fail_if-Post _ _ w λ fine. bind-Post _ _ w (
              put_order-Post env w input.order_id _ (
                put_assignment-Post env _ a.id _
                  (q d.order a found (ground arith) own (ground arith)))))))
