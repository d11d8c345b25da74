-- ===== src/Orders/Agent.antt =====
-- `AgentPickup` and `AgentDeliver` of internal/orders/service.go.
use packfinderz_backend.Prelude.{
  ℕ, ◌==◌, if◌then◌else◌, not, Bool, true, false, Option, none, some, List, [], ◌∷◌, ◌++◌,
}
use packfinderz_backend.Enums.{OrderStatus, ShippingStatus, is_status, is_shipping}
use packfinderz_backend.Errors.{Code}
use packfinderz_backend.Store.Tables.{VendorOrder, Assignment, Uuid}
use packfinderz_backend.Store.Columns.{OrderColumn, AssignmentColumn}
use packfinderz_backend.Store.Tx.{
  Env, M, ⊤, pure, fail, fail_if, map_error, not_found_or, wrapped, with_tx, ◌>>=◌, ◌>>◌,
}
use packfinderz_backend.Store.Repo.{
  OrderDetail, find_order_detail, update_vendor_order, update_order_assignment,
}
use packfinderz_backend.Orders.Input.{AgentInput, check_agent}

-- A column, unless the test holds.
abbrev pub unless {ℓ} : {A : Type ℓ} → Bool → A → List A
unless b c = if b then [] else c ∷ []

abbrev pub is_some {ℓ} : {A : Type ℓ} → Option A → Bool
is_some none = false
is_some (some a) = true

-- The states in which an order may be picked up.
abbrev pub can_pick_up : OrderStatus → Bool
can_pick_up OrderStatus.hold = true
can_pick_up OrderStatus.ready_for_dispatch = true
can_pick_up OrderStatus.hold_for_pickup = true
can_pick_up OrderStatus.in_transit = true
can_pick_up _ = false

abbrev pub can_deliver : OrderStatus → Bool
can_deliver OrderStatus.in_transit = true
can_deliver OrderStatus.delivered = true
can_deliver _ = false

abbrev pub pickup_columns : VendorOrder → List OrderColumn
pickup_columns o =
    unless (is_status o.status OrderStatus.in_transit) (OrderColumn.status OrderStatus.in_transit)
    ++ unless (is_shipping o.shipping_status ShippingStatus.in_transit)
        (OrderColumn.shipping_status ShippingStatus.in_transit)

abbrev pub deliver_columns : ℕ → VendorOrder → List OrderColumn
deliver_columns now o =
    unless (is_status o.status OrderStatus.delivered) (OrderColumn.status OrderStatus.delivered)
    ++ (unless (is_shipping o.shipping_status ShippingStatus.delivered)
          (OrderColumn.shipping_status ShippingStatus.delivered)
        ++ unless (is_some o.delivered_at) (OrderColumn.delivered_at now))

module _ (env : Env) where
  -- `FindOrderDetail` with its two kinds of failure told apart.
  unfoldable pub load_order_detail : Uuid → M OrderDetail
  load_order_detail k = map_error (not_found_or Code.not_found) (find_order_detail env k)

  -- The active assignment must be the agent's own.
  abbrev pub own_assignment : Uuid → Option Assignment → M Assignment
  own_assignment agent none = fail Code.forbidden
  own_assignment agent (some a) =
      if not (a.agent_user_id == agent) then fail Code.forbidden else pure a

  unfoldable pub pickup_in_tx : AgentInput → M ⊤
  pickup_in_tx input = do
    detail ← load_order_detail input.order_id
    assignment ← own_assignment input.agent_user_id detail.active_assignment
    fail_if (not (can_pick_up detail.order.status)) Code.state_conflict
    wrapped (update_vendor_order env input.order_id (pickup_columns detail.order))
    wrapped (
        update_order_assignment env assignment.id
          (unless (is_some assignment.pickup_time) (AssignmentColumn.pickup_time env.now)))

  unfoldable pub agent_pickup : AgentInput → M ⊤
  unfolding pickup_in_tx
  agent_pickup input = do check_agent input; with_tx env (pickup_in_tx input)

  unfoldable pub deliver_in_tx : AgentInput → M ⊤
  deliver_in_tx input = do
    detail ← load_order_detail input.order_id
    assignment ← own_assignment input.agent_user_id detail.active_assignment
    fail_if (not (can_deliver detail.order.status)) Code.state_conflict
    wrapped (update_vendor_order env input.order_id (deliver_columns env.now detail.order))
    wrapped (
        update_order_assignment env assignment.id
          (unless (is_some assignment.delivery_time) (AssignmentColumn.delivery_time env.now)))

  unfoldable pub agent_deliver : AgentInput → M ⊤
  unfolding deliver_in_tx
  agent_deliver input = do check_agent input; with_tx env (deliver_in_tx input)
