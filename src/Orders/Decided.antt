-- ===== src/Orders/Decided.antt =====
-- What a decision on a line item makes of its order.
use packfinderz_backend.Prelude.{◌==◌, ltb, if◌then◌else◌, true, some, List, ◌≡◌, wrap, count_if}
use packfinderz_backend.Enums.{OrderStatus, ItemStatus, FulfillmentStatus}
use packfinderz_backend.Store.Tables.{VendorOrder, LineItem, World, Uuid}
use packfinderz_backend.Store.Rows.{find_all}
use packfinderz_backend.Orders.Input.{LineItemDecision}
use packfinderz_backend.Store.Post.{Post}
use packfinderz_backend.Store.Repo.{order_row, item_row}
use packfinderz_backend.Orders.Input.{LineItemDecisionInput, can_transition_line_item_status}
use packfinderz_backend.Orders.Decision.{new_total}
use packfinderz_backend.Orders.Totals.{kept_total, is_pending, is_rejected}

abbrev pub items_of : Uuid → World → List LineItem
items_of k w = find_all (λ i. i.order_id) k w.tables.items

-- The order after the decision, by its items after it: `o` became `o'`, whose items are `is`.
pub record Recomputed (o o' : VendorOrder) (is : List LineItem) : Type 0 where
  pub subtotal : o'.subtotal_cents ≡ wrap (kept_total is)
  pub total : o'.total_cents ≡ new_total o (wrap (kept_total is))
  pub balance : o'.balance_due_cents ≡ o'.total_cents
  pub status :
      o'.status ≡ (if count_if is_pending is == 0 then OrderStatus.ready_for_dispatch else o.status)
  pub fulfillment : o'.fulfillment_status ≡ (
      if count_if is_pending is == 0
      then (if ltb 0 (count_if is_rejected is)
          then FulfillmentStatus.partial
          else FulfillmentStatus.fulfilled)
      else o.fulfillment_status)

-- The order and the item that a decision took effect on.
pub record Resolved (input : LineItemDecisionInput) (w v : World) : Type 0 where
  pub order : VendorOrder
  pub order' : VendorOrder
  pub item : LineItem
  pub before : order_row input.order_id w ≡ some order
  pub found : item_row input.line_item_id w ≡ some item
  pub owned : item.order_id ≡ order.id
  pub open_ : can_transition_line_item_status item.status ≡ true
  pub after : order_row order.id v ≡ some order'
  pub recomputed : Recomputed order order' (items_of order.id v)

-- The item had the status already, and nothing is done.
pub record Repeated (input : LineItemDecisionInput) (target : ItemStatus) (w v : World)
    : Type 0 where
  pub item : LineItem
  pub found : item_row input.line_item_id w ≡ some item
  pub same_status : item.status ≡ target
  pub same : v ≡ w

-- What a decision makes of an item.
abbrev pub target_of : LineItemDecision → ItemStatus
target_of LineItemDecision.fulfill = ItemStatus.fulfilled
target_of LineItemDecision.reject = ItemStatus.rejected
target_of LineItemDecision.other = ItemStatus.pending
