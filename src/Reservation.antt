-- ===== src/Reservation.antt =====
-- internal/checkout/reservation/reservation.go: stock moves from available to reserved, request by
-- request, and a request for more than there is takes nothing.
pub mod Returns
pub mod Exact
use packfinderz_backend.Prelude.{
  ℕ, ◌+◌, ◌-◌, ◌==◌, leb, if◌then◌else◌, Bool, false, ◌&&◌, ◌||◌, List, [], ◌∷◌, ℤ, pos, pos_part,
  leb_ℤ,
}
use packfinderz_backend.Errors.{Code, ok}
use packfinderz_backend.Store.Tables.{InventoryItem, Uuid}
use packfinderz_backend.Store.Rows.{update}
use packfinderz_backend.Store.Repo.{set_inventory}
use packfinderz_backend.Store.Tx.{Call, Env, M, call, wrapped, pure, fail, ◌>>=◌}

-- `InventoryReservationRequest`
pub record Request : Type 0 where
  pub cart_item_id : Uuid
  pub product_id : Uuid
  pub qty : ℤ

-- `InventoryReservationResult`; the reason is "insufficient_inventory" where `reserved` is false
pub record Reservation : Type 0 where
  pub cart_item_id : Uuid
  pub product_id : Uuid
  pub qty : ℤ
  pub reserved : Bool

-- The row's part of the UPDATE: `WHERE available_qty >= ?`.
abbrev pub reserve_row : ℕ → InventoryItem → InventoryItem
reserve_row q r =
    if leb q r.available_qty
    then record r { available_qty = r.available_qty - q; reserved_qty = r.reserved_qty + q }
    else r

-- `RowsAffected > 0`
abbrev pub is_in_stock : Uuid → ℕ → List InventoryItem → Bool
is_in_stock p q [] = false
is_in_stock p q (r ∷ rs) = (r.product_id == p && leb q r.available_qty) || is_in_stock p q rs

module _ (env : Env) where
  -- The UPDATE statement, and whether it met a row.
  unfoldable pub take_stock : Uuid → ℕ → M Bool
  take_stock p q = call env (Call.reserve p) (λ w. (
    ok (is_in_stock p q w.tables.inventory),
    set_inventory (update (λ r. r.product_id) p (reserve_row q)) w,
  ))

  -- One round of the loop.
  unfoldable pub reserve_one : Request → M Reservation
  unfolding take_stock
  reserve_one req =
      if leb_ℤ req.qty (pos 0)
      then fail Code.validation
      else (wrapped (take_stock req.product_id (pos_part req.qty)) >>= λ met. pure (record {
        cart_item_id = req.cart_item_id;
        product_id = req.product_id;
        qty = req.qty;
        reserved = met;
      }))

  -- `ReserveInventory`
  unfoldable pub reserve_inventory : List Request → M (List Reservation)
  reserve_inventory [] = pure []
  reserve_inventory (req ∷ reqs) =
      reserve_one req >>= λ r. reserve_inventory reqs >>= λ rs. pure (r ∷ rs)
