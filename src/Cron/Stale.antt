-- ===== src/Cron/Stale.antt =====
-- After a round of expiries that returns, no order has been pending for ten days.
use packfinderz_backend.Prelude.{
  ℕ, ◌+◌, ◌*◌, ◌==◌, leb, Bool, true, false, ◌&&◌, ◌||◌, some, List, [], ◌∷◌, ◌≡◌, refl, arith,
  select,
}
use packfinderz_backend.Enums.{OrderStatus, is_status}
use packfinderz_backend.Errors.{ok}
use packfinderz_backend.Store.Tables.{VendorOrder, World, Uuid}
use packfinderz_backend.Store.Tx.{Env}
use packfinderz_backend.Store.Post.{
  Post, Post-ok, bind-Post, call-Post, gets-Post, with_tx-Post, for_each-Post,
}
use packfinderz_backend.Store.Repo.{order_row, find_pending_orders_before}
use packfinderz_backend.Cron.OrderTtl.{
  order_expiration_days, day, expire_pending_orders, expire_order, expire_columns,
}
use packfinderz_backend.Orders.Returns.Expiry.{expire_in_tx-Post, expire_item-Post}
use packfinderz_backend.Orders.Void.{order_at}
use packfinderz_backend.Orders.Void.Orders.{order_at-update}

-- An order that is pending and was made so long ago.
abbrev pub is_stale : ℕ → ℕ → VendorOrder → Bool
is_stale now age o = is_status o.status OrderStatus.created_pending && leb (o.created_at + age) now

abbrev pub among : Uuid → List VendorOrder → Bool
among k [] = false
among k (x ∷ xs) = x.id == k || among k xs

select-among :
    (p : VendorOrder → Bool) (k : Uuid) (os : List VendorOrder) {o : VendorOrder}
    → order_at k os ≡ some o
    → p o ≡ true
    → among k (select p os) ≡ true
select-among p k [] e yes_ = cc
select-among p k (x ∷ os) {o} e yes_ = ground (arith, select-among p k os {o = o})

module _ (env : Env) (age : ℕ) where
  -- The stale orders are among those to come.
  pub record Waiting (rest : List VendorOrder) (os : List VendorOrder) : Type 0 where
    pub at :
        (k : Uuid) (o : VendorOrder)
        → order_at k os ≡ some o
        → is_stale env.now age o ≡ true
        → among k rest ≡ true

  expire_order-Waiting :
      (order : VendorOrder) (rest : List VendorOrder) (w : World)
      → Waiting (order ∷ rest) w.tables.orders
      → Post (λ _ v. Waiting rest v.tables.orders) (expire_order env order w)
  unfolding expire_order
  expire_order-Waiting order rest w h = with_tx-Post env _ w (
      expire_in_tx-Post env w order (λ o more v. v.tables.orders ≡ w.tables.orders)
        (λ o found other. record { at = λ k x e stale. ground (arith, h.at k x e stale) })
        (λ o found pending. refl)
        (λ o i more v same. expire_item-Post env v i (λ e. same) (λ e rs r. same))
        (λ o v same. record {
          at = λ k x e stale. ground (
            arith,
            order_at-update (expire_columns env.now) order.id w.tables.orders k,
            h.at k x,
          );
        }))

module _ (env : Env) where
  expire_pending_orders-Post :
      (w : World)
      → Post
          (λ _ v. Waiting env (order_expiration_days * day) [] v.tables.orders)
          (expire_pending_orders env w)
  unfolding expire_pending_orders find_pending_orders_before
  expire_pending_orders-Post w = bind-Post _ _ w (
      call-Post env _ _ w (
        gets-Post _ w (
          for_each-Post (λ rest v. Waiting env (order_expiration_days * day) rest v.tables.orders)
            (expire_order env)
            (λ order rest v h.
              expire_order-Waiting env (order_expiration_days * day) order rest v h)
            _ w
            (record {
              at = λ k o e stale.
                  select-among (is_stale env.now (order_expiration_days * day)) k w.tables.orders e
                    stale;
            })
            (λ v h. h))))

  -- After a round of expiries that reports success, no order that is found is pending and was made
  -- ten days ago or earlier.
  pub no_stale_orders :
      (w : World) (k : Uuid) (o : VendorOrder)
      → (expire_pending_orders env w).0 ≡ ok tt
      → order_row k (expire_pending_orders env w).1 ≡ some o
      → is_stale env.now (order_expiration_days * day) o ≡ false
  no_stale_orders w k o returned found =
      let h = Post-ok _ (expire_pending_orders-Post w) returned in ground (arith, h.at k o found)
