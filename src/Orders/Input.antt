-- ===== src/Orders/Input.antt =====
-- The inputs of the operations of internal/orders/service.go, and the small functions that the
-- operations share.
use packfinderz_backend.Prelude.{
  ◌==◌, if◌then◌else◌, Bool, true, false, not, Option, none, some, ℤ, pos, leb_ℤ,
}
use packfinderz_backend.Enums.{OrderStatus, ItemStatus}
use packfinderz_backend.Errors.{Code}
use packfinderz_backend.Store.Tables.{VendorOrder, LineItem, OrderRef, ActorRef, Uuid, Blob}
use packfinderz_backend.Store.Tx.{
  Env, M, ⊤, pure, fail, fail_if, map_error, not_found_or, wrapped, ◌>>◌,
}
use packfinderz_backend.Store.Repo.{find_vendor_order, release}

-- `VendorOrderDecision`; `other` is any other text.
pub data VendorOrderDecision : Type 0 where
  accept reject other : VendorOrderDecision

-- `LineItemDecision`
pub data LineItemDecision : Type 0 where
  fulfill reject other : LineItemDecision

pub record VendorDecisionInput : Type 0 where
  pub order_id : Uuid
  pub decision : VendorOrderDecision
  pub actor_user_id : Uuid
  pub actor_store_id : Uuid
  pub actor_role : Blob

pub record LineItemDecisionInput : Type 0 where
  pub order_id : Uuid
  pub line_item_id : Uuid
  pub decision : LineItemDecision
  pub notes : Option Blob
  pub actor_user_id : Uuid
  pub actor_store_id : Uuid
  pub actor_role : Blob

-- `BuyerCancelInput`, `BuyerNudgeInput`, `BuyerRetryInput` and `ConfirmPayoutInput` have the same
-- fields.
pub record ActorInput : Type 0 where
  pub order_id : Uuid
  pub actor_user_id : Uuid
  pub actor_store_id : Uuid
  pub actor_role : Blob

-- `AgentPickupInput`, `AgentDeliverInput` and `AgentCashCollectedInput` have the same fields.
pub record AgentInput : Type 0 where
  pub order_id : Uuid
  pub agent_user_id : Uuid

-- `mapDecisionToStatus`
unfoldable pub map_decision_to_status : VendorOrderDecision → M OrderStatus
map_decision_to_status VendorOrderDecision.accept = pure OrderStatus.accepted
map_decision_to_status VendorOrderDecision.reject = pure OrderStatus.rejected
map_decision_to_status VendorOrderDecision.other = fail Code.validation

-- `mapLineItemDecision`
unfoldable pub map_line_item_decision : LineItemDecision → M ItemStatus
map_line_item_decision LineItemDecision.fulfill = pure ItemStatus.fulfilled
map_line_item_decision LineItemDecision.reject = pure ItemStatus.rejected
map_line_item_decision LineItemDecision.other = fail Code.validation

-- `canTransitionLineItemStatus`
abbrev pub can_transition_line_item_status : ItemStatus → Bool
can_transition_line_item_status ItemStatus.pending = true
can_transition_line_item_status ItemStatus.accepted = true
can_transition_line_item_status ItemStatus.hold = true
can_transition_line_item_status _ = false

-- `isFinalOrderStatus`
abbrev pub is_final_order_status : OrderStatus → Bool
is_final_order_status OrderStatus.in_transit = true
is_final_order_status OrderStatus.delivered = true
is_final_order_status OrderStatus.closed = true
is_final_order_status OrderStatus.canceled = true
is_final_order_status OrderStatus.expired = true
is_final_order_status _ = false

-- `isCancelableStatus`
abbrev pub is_cancelable_status : OrderStatus → Bool
is_cancelable_status s = not (is_final_order_status s)

-- `buildActor`
abbrev pub build_actor : Uuid → Uuid → Blob → ActorRef
build_actor user store role = record {
  user_id = user;
  store_id = if store == 0 then none else some store;
  role = role;
}

abbrev pub order_ref : VendorOrder → OrderRef
order_ref o = record {
  order_id = o.id;
  checkout_group_id = o.checkout_group_id;
  buyer_store_id = o.buyer_store_id;
  vendor_store_id = o.vendor_store_id;
}

-- The three checks that `CancelOrder`, `NudgeVendor` and `RetryOrder` begin with, and
-- `VendorDecision` too.
abbrev pub check_actor : Uuid → Uuid → Uuid → M ⊤
check_actor order user store =
    fail_if (order == 0) Code.validation
    >> fail_if (user == 0) Code.unauthorized
    >> fail_if (store == 0) Code.forbidden

-- The two checks that the agents' operations begin with.
abbrev pub check_agent : AgentInput → M ⊤
check_agent input =
    fail_if (input.order_id == 0) Code.validation
    >> fail_if (input.agent_user_id == 0) Code.unauthorized

module _ (env : Env) where
  -- `repo.FindVendorOrder`, with its two kinds of failure told apart.
  unfoldable pub load_vendor_order : Uuid → M VendorOrder
  load_vendor_order k = map_error (not_found_or Code.not_found) (find_vendor_order env k)

  -- `releaseLineItem` without the wrapping of the error
  abbrev pub release_stock : Option Uuid → ℤ → M ⊤
  release_stock none qty = pure tt
  release_stock (some product) qty = if leb_ℤ qty (pos 0) then pure tt else release env product qty

  -- `releaseLineItem`, and `ReleaseLineItemInventory`
  unfoldable pub release_line_item : LineItem → M ⊤
  release_line_item item = wrapped (release_stock item.product_id item.qty)
