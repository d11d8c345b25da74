-- ===== src/Reservation/Returns.antt =====
-- What a run of reservations has done where it returns: a chain of rows that moved from available
-- to reserved.
use packfinderz_backend.Prelude.{ℕ, ◌<◌, false, List, [], ◌∷◌, ◌≡◌, ℤ, pos, pos_part, leb_ℤ, arith}
use packfinderz_backend.Store.Tables.{InventoryItem, World, Uuid}
use packfinderz_backend.Store.Rows.{update}
use packfinderz_backend.Store.Tx.{Call, Env}
use packfinderz_backend.Store.Post.{
  Post, pure-Post, fail-Post, if-Post, bind-Post, map_error-Post, call-Post,
}
use packfinderz_backend.Store.Repo.{set_inventory}
use packfinderz_backend.Reservation.{
  Request, Reservation, reserve_row, is_in_stock, reserve_one, reserve_inventory,
}

-- The stock after some requests, each of a positive quantity.
pub data Taken (rs : List InventoryItem) : List InventoryItem → Type 0 where
  none_taken : Taken rs rs
  take :
      {ts : List InventoryItem} (p : Uuid) (q : ℕ)
      → Taken rs ts
      → 0 < q
      → Taken rs (update (λ r. r.product_id) p (reserve_row q) ts)

module _ (env : Env) where
  pub reserve_one-Post :
      {Q : Reservation → World → Type 0} (w : World) (req : Request)
      → (leb_ℤ req.qty (pos 0) ≡ false
          → Q
              (record {
                cart_item_id = req.cart_item_id;
                product_id = req.product_id;
                qty = req.qty;
                reserved = is_in_stock req.product_id (pos_part req.qty) w.tables.inventory;
              })
              (set_inventory
                (update (λ r. r.product_id) req.product_id (reserve_row (pos_part req.qty)))
                w))
      → Post Q (reserve_one env req w)
  unfolding reserve_one
  reserve_one-Post w req q =
      if-Post (leb_ℤ req.qty (pos 0)) _ _ w (λ e. fail-Post _ w)
        (λ e. bind-Post _ _ w (
          map_error-Post _ _ w (
            call-Post env (Call.reserve req.product_id) _ w (record { on = pure-Post _ _ (q e) }))))

  pub reserve_inventory-Post :
      (before : List InventoryItem) (reqs : List Request) (w : World)
      {Q : List Reservation → World → Type 0}
      → Taken before w.tables.inventory
      → ((results : List Reservation) (rs : List InventoryItem)
          → Taken before rs
          → Q results (set_inventory (λ _. rs) w))
      → Post Q (reserve_inventory env reqs w)
  unfolding reserve_inventory
  reserve_inventory-Post before [] w taken q = pure-Post [] w (q [] _ taken)
  reserve_inventory-Post before (req ∷ reqs) w taken q = bind-Post _ _ w (
      reserve_one-Post w req λ more. bind-Post _ _ _ (
        reserve_inventory-Post before reqs _
          (Taken.take req.product_id (pos_part req.qty) taken (positive req.qty more))
          λ results rs t. pure-Post _ _ (q _ rs t)))
    where
      positive : (qty : ℤ) → leb_ℤ qty (pos 0) ≡ false → 0 < pos_part qty
      positive qty e = ground arith
