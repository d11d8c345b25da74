-- ===== src/Orders/Closed.antt =====
-- What a cancelation and a retry that report success have done.
use packfinderz_backend.Prelude.{true, false, none, some, [], ◌∷◌, ◌++◌, ◌≡◌, pos}
use packfinderz_backend.Enums.{OrderStatus, PaymentStatus}
use packfinderz_backend.Store.Tables.{VendorOrder, LineItem, PaymentIntent, World, Uuid}
use packfinderz_backend.Store.Tx.{Env}
use packfinderz_backend.Store.Post.{Post}
use packfinderz_backend.Store.Repo.{order_row, item_row}
use packfinderz_backend.Orders.Input.{ActorInput, is_final_order_status}
use packfinderz_backend.Orders.Returns.Retries.{created_order}
use packfinderz_backend.Orders.Void.{is_final_item}
use packfinderz_backend.Orders.Void.Closing.{Closing}

-- The order was open and the caller's own; it is canceled with nothing due, each of its items is
-- final, and the outbox has one more event.
pub record Canceled (env : Env) (input : ActorInput) (w v : World) : Type 0 where
  pub order : VendorOrder
  pub before : order_row input.order_id w ≡ some order
  pub own : order.buyer_store_id ≡ input.actor_store_id
  pub open_ : is_final_order_status order.status ≡ false
  pub after :
      order_row order.id v
      ≡ some (record order {
        status = OrderStatus.canceled;
        balance_due_cents = pos 0;
        canceled_at = some env.now;
      })
  pub items :
      (k : Uuid) (i : LineItem)
      → item_row k v ≡ some i
      → i.order_id ≡ order.id
      → is_final_item i.status ≡ true

-- What the loop over the items knows of the order.
record Own (input : ActorInput) (w : World) (order : VendorOrder) : Type 0 where
  before : order_row input.order_id w ≡ some order
  own : order.buyer_store_id ≡ input.actor_store_id
  open_ : is_final_order_status order.status ≡ false

-- The order was expired, and stays so; a pending one on the same terms stands beside it, with an
-- unpaid intent of its total, and the outbox has one more event.
pub record Retried (env : Env) (input : ActorInput) (w : World) (k : Uuid) (v : World)
    : Type 0 where
  pub order : VendorOrder
  pub before : order_row input.order_id w ≡ some order
  pub expired : order.status ≡ OrderStatus.expired
  pub unused : order_row k w ≡ none
  pub still : order_row input.order_id v ≡ some order
  pub created : order_row k v ≡ some (created_order env order)
  pub pending : (created_order env order).status ≡ OrderStatus.created_pending
  pub due : (created_order env order).balance_due_cents ≡ order.total_cents
  pub intent : PaymentIntent
  pub intents : v.tables.intents ≡ w.tables.intents ++ intent ∷ []
  pub unpaid : intent.status ≡ PaymentStatus.unpaid
  pub amount : intent.amount_cents ≡ order.total_cents
  pub intent_order : intent.order_id ≡ k
