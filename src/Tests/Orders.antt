-- ===== src/Tests/Orders.antt =====
-- Runs of the order service, and what its theorems say of them.
use packfinderz_backend.Prelude.{true, some, [], ◌∷◌, ◌≡◌, refl, arith, pos}
use packfinderz_backend.Enums.{
  ItemStatus-discrete, PaymentStatus, OrderStatus, ItemStatus, PaymentStatus,
}
use packfinderz_backend.Store.Tables.{World}
use packfinderz_backend.Store.Tx.{with_tx, call, ◌>>=◌, for_each}
use packfinderz_backend.Store.Repo.{
  order_row, item_row, find_vendor_order, find_order_line_items_by_order, update_vendor_order,
  update_order_line_item_status, emit, release,
}
use packfinderz_backend.Orders.Input.{load_vendor_order, release_line_item}
use packfinderz_backend.Orders.Buyer.{cancel_order, cancel_in_tx, cancel_item}
use packfinderz_backend.Orders.Run.{Op, run, Reach}
use packfinderz_backend.Orders.Frozen.{void_forever, run-Kept}
use packfinderz_backend.Orders.Moves.{run-Moves, Moves}
use packfinderz_backend.Orders.Payments.{run-Pays, Pays}
use packfinderz_backend.Orders.Stock.{Reach-stock, stock}
use packfinderz_backend.Orders.Void.{is_final_item, Sound, Kept}
use packfinderz_backend.Tests.Data.{
  quiet, an_order, an_item, by_buyer, canceled_world, pending_world, a_world,
}

canceled-Sound : Sound canceled_world.tables
canceled-Sound = record {
  settled = record { at = λ k i o e e' v. ground arith };
  unique = (refl, tt);
}

pending-Sound : Sound pending_world.tables
pending-Sound = record {
  settled = record { at = λ k i o e e' v. ground arith };
  unique = (refl, (refl, tt));
}

-- The buyer's cancelation rejects the pending item, keeps the fulfilled one and gives stock back.
buyer_cancels_stock :
    (run quiet (Op.cancel by_buyer) pending_world).1.tables.inventory
    ≡ record { product_id = 8; available_qty = 7; reserved_qty = 2 } ∷ []
unfolding run cancel_order cancel_in_tx cancel_item load_vendor_order find_vendor_order
    find_order_line_items_by_order update_vendor_order update_order_line_item_status
    release_line_item release emit for_each with_tx call ◌>>=◌ ItemStatus-discrete
buyer_cancels_stock = refl

-- An item that was rejected before, and gave its stock back then, gives it back again.
abbrev half_rejected_world : World
half_rejected_world =
    a_world (an_order 1 OrderStatus.created_pending (pos 500))
      (an_item 7 1 ItemStatus.pending (pos 200) ∷ an_item 11 1 ItemStatus.rejected (pos 300) ∷ [])
      PaymentStatus.unpaid (pos 500)

double_release :
    (run quiet (Op.cancel by_buyer) half_rejected_world).1.tables.inventory
    ≡ record { product_id = 8; available_qty = 9; reserved_qty = 0 } ∷ []
unfolding run cancel_order cancel_in_tx cancel_item load_vendor_order find_vendor_order
    find_order_line_items_by_order update_vendor_order update_order_line_item_status
    release_line_item release emit for_each with_tx call ◌>>=◌ ItemStatus-discrete
double_release = refl

abbrev after_cancel : World
after_cancel = (run quiet (Op.cancel by_buyer) canceled_world).1

void_forever_example :
    (is_final_item ItemStatus.rejected ≡ true)
    × (order_row 1 after_cancel ≡ some (an_order 1 OrderStatus.canceled (pos 500)))
    × (item_row 7 after_cancel ≡ some (an_item 7 1 ItemStatus.rejected (pos 500)))
void_forever_example =
    void_forever canceled_world after_cancel 1 7 (an_order 1 OrderStatus.canceled (pos 500))
      (an_item 7 1 ItemStatus.rejected (pos 500)) canceled-Sound
      (Reach.next Reach.here quiet (Op.cancel by_buyer)) refl refl refl refl

run-Kept_example : Kept pending_world.tables (run quiet (Op.cancel by_buyer) pending_world).1.tables
run-Kept_example = run-Kept quiet (Op.cancel by_buyer) pending_world pending-Sound

run-Moves_example :
    Moves pending_world.tables.orders (run quiet (Op.cancel by_buyer) pending_world).1.tables.orders
run-Moves_example = run-Moves quiet (Op.cancel by_buyer) pending_world pending-Sound

run-Pays_example :
    Pays pending_world.tables.intents
      (run quiet (Op.cancel by_buyer) pending_world).1.tables.intents
run-Pays_example = run-Pays quiet (Op.cancel by_buyer) pending_world

Reach-stock_example :
    stock (run quiet (Op.cancel by_buyer) pending_world).1.tables.inventory
    ≡ stock pending_world.tables.inventory
Reach-stock_example = Reach-stock pending_world (Reach.next Reach.here quiet (Op.cancel by_buyer))

abbrev expired_world : World
expired_world =
    a_world (an_order 1 OrderStatus.expired (pos 500))
      (an_item 7 1 ItemStatus.rejected (pos 500) ∷ []) PaymentStatus.unpaid (pos 500)
