-- ===== src/Orders/Moves.antt =====
-- How the status of an order moves: the graph of all operations.
use mathlib.Core.Path.{subst}
use packfinderz_backend.Prelude.{
  pos, sym, ◌==◌, not, Bool, true, false, ◌&&◌, ◌||◌, Option, none, some, List, [], ◌∷◌, ◌++◌, ◌≡◌,
  refl, arith,
}
use packfinderz_backend.Enums.{OrderStatus, ItemStatus, is_status}
use packfinderz_backend.Store.Tables.{VendorOrder, LineItem, World, Tables, Uuid, InventoryItem}
use packfinderz_backend.Store.Rows.{find_all, update, find-append}
use packfinderz_backend.Store.Columns.{set_item, OrderColumn, set_order}
use packfinderz_backend.Store.Tx.{Env}
use packfinderz_backend.Store.Repo.{order_row}
use packfinderz_backend.Orders.Input.{
  LineItemDecisionInput, is_final_order_status, can_transition_line_item_status,
}
use packfinderz_backend.Orders.Decision.{tally}
use packfinderz_backend.Orders.Buyer.{cancel_columns}
use packfinderz_backend.Orders.Agent.{can_pick_up, can_deliver, pickup_columns, deliver_columns}
use packfinderz_backend.Cron.OrderTtl.{expire_columns}
use packfinderz_backend.Orders.Returns.Decisions.{
  decide_order-Post, decide_line_item-Post, Decided, open_columns, closed_columns,
}
use packfinderz_backend.Orders.Returns.Buyers.{
  cancel_in_tx-Post, cancel_item-Post, nudge_in_tx-Post,
}
use packfinderz_backend.Orders.Returns.Retries.{retry_in_tx-Post}
use packfinderz_backend.Orders.Returns.Agents.{pickup_in_tx-Post, deliver_in_tx-Post}
use packfinderz_backend.Orders.Returns.Money.{cash_in_tx-Post}
use packfinderz_backend.Orders.Returns.Payouts.{payout_in_tx-Post}
use packfinderz_backend.Orders.Returns.Expiry.{expire_in_tx-Post, expire_item-Post}
use packfinderz_backend.Orders.Run.{Op, run}
use packfinderz_backend.Orders.Lift.{Bodies, run-Always}
use packfinderz_backend.Orders.Void.{is_void, order_at, item_at, Sound}
use packfinderz_backend.Orders.Void.Orders.{order_at-update}
use packfinderz_backend.Orders.Void.Steps.{found_at_id}

-- The moves of an order's status. A decision on the last pending item makes any order that is not
-- void ready for dispatch.
abbrev pub may_become : OrderStatus → OrderStatus → Bool
may_become s OrderStatus.accepted =
    is_status s OrderStatus.accepted || is_status s OrderStatus.created_pending
may_become s OrderStatus.rejected =
    is_status s OrderStatus.rejected || is_status s OrderStatus.created_pending
may_become s OrderStatus.expired =
    is_status s OrderStatus.expired || is_status s OrderStatus.created_pending
may_become s OrderStatus.canceled =
    is_status s OrderStatus.canceled || not (is_final_order_status s)
may_become s OrderStatus.ready_for_dispatch = not (is_void s)
may_become s OrderStatus.in_transit = can_pick_up s
may_become s OrderStatus.delivered = can_deliver s
may_become s OrderStatus.closed =
    is_status s OrderStatus.closed || is_status s OrderStatus.delivered
may_become s t = is_status s t

-- The row is still there, between the same two stores, and its status has made a move.
abbrev pub moved : VendorOrder → Option VendorOrder → Bool
moved o none = false
moved o (some o') =
    may_become o.status o'.status
    && (o'.buyer_store_id == o.buyer_store_id && o'.vendor_store_id == o.vendor_store_id)

pub record Moves (os os' : List VendorOrder) : Type 0 where
  pub at : (k : Uuid) (o : VendorOrder) → order_at k os ≡ some o → moved o (order_at k os') ≡ true

may_become_refl : (s : OrderStatus) → may_become s s ≡ true
may_become_refl s = ground arith

module _ (os : List VendorOrder) where
  Moves-refl : Moves os os
  Moves-refl = record { at = λ k o e. ground (arith, may_become_refl o.status) }

  Moves-append : (row : VendorOrder) → Moves os (os ++ row ∷ [])
  Moves-append row = record {
    at = λ k o e.
        ground (
          arith,
          find-append (λ (x : VendorOrder). x.id) k os (row ∷ []),
          may_become_refl o.status,
        );
  }

  Moves-update :
      (j : Uuid) (cs : List OrderColumn) {old : VendorOrder}
      → order_at j os ≡ some old
      → moved old (some (set_order cs old)) ≡ true
      → Moves os (update (λ o. o.id) j (set_order cs) os)
  Moves-update j cs found fine = record {
    at = λ k o e. ground (arith, order_at-update cs j os k, may_become_refl o.status);
  }

module _ (env : Env) (w : World) (sound : Sound w.tables) where
  abbrev P : Tables → Type 0
  P t = Moves w.tables.orders t.orders

  Decided-Moves :
      (input : LineItemDecisionInput) (target : ItemStatus) (o : VendorOrder) (i : LineItem)
      (rs : List InventoryItem)
      → order_row input.order_id w ≡ some o
      → item_at input.line_item_id w.tables.items ≡ some i
      → i.order_id ≡ o.id
      → can_transition_line_item_status i.status ≡ true
      → Decided env input o i target w (λ _ v. P v.tables) rs
  Decided-Moves input target o i rs found item own open_ =
      let owner : order_at i.order_id w.tables.orders ≡ some o =
        subst (λ j. order_at j w.tables.orders ≡ some o) (sym own)
          (found_at_id input.order_id _ found) in
      let live : is_void o.status ≡ false =
        ground (arith, sound.settled.at input.line_item_id i o item owner) in
      let t = tally (
        find_all (λ x. x.order_id) o.id
          (update (λ x. x.id) i.id (set_item target input.notes) w.tables.items)) in
      record {
        last = λ e.
            Moves-update _ o.id (closed_columns o t) (found_at_id input.order_id _ found)
              (ground arith);
        more = λ e.
            Moves-update _ o.id (open_columns o t) (found_at_id input.order_id _ found)
              (ground (arith, may_become_refl o.status));
      }

  Bodies-Moves : Bodies P env w
  Bodies-Moves = record {
    decide = λ i s e.
        decide_order-Post env w i s (λ o found own same. Moves-refl _)
          λ o found own pending.
            Moves-update _ o.id (OrderColumn.status s ∷ []) {old = o}
              (found_at_id i.order_id _ found) (ground arith);
    decide_item = λ i s e.
        decide_line_item-Post env w i s (λ o x found item own same. Moves-refl _)
          (λ o x found item own open_ back rs r. Decided-Moves i s o x rs found item own open_)
          (λ o x found item own open_ other.
            Decided-Moves i s o x w.tables.inventory found item own open_);
    cancel = λ i.
        cancel_in_tx-Post env w i
          (λ o rest v.
            (order_at o.id w.tables.orders ≡ some o)
            × (is_final_order_status o.status ≡ false)
            × (v.tables.orders ≡ w.tables.orders))
          (λ o found own open_. (found_at_id i.order_id _ found, open_, refl))
          (λ o x rest v h. cancel_item-Post env v x (λ e. h) (λ e rs r. h) (λ e f rs r. h))
          (λ o v h.
            subst
              (λ os.
                Moves w.tables.orders
                  (update (λ x. x.id) o.id (set_order (cancel_columns env.now)) os))
              (sym h.2) (Moves-update _ o.id (cancel_columns env.now) h.0 (ground (arith, h.1))));
    nudge = λ i. nudge_in_tx-Post env w i λ o found open_. Moves-refl _;
    retry =
        λ i. retry_in_tx-Post env w i λ o rows rs m found expired new made taken. Moves-append _ _;
    payout = λ i.
        payout_in_tx-Post env w i (λ d found closed. Moves-refl _)
          λ d p found pay delivered settled.
            Moves-update _ i.order_id (OrderColumn.status OrderStatus.closed ∷ []) found
              (ground arith);
    pickup = λ i.
        pickup_in_tx-Post env w i λ o a found act own fine.
          Moves-update _ i.order_id (pickup_columns o) found (ground arith);
    deliver = λ i. deliver_in_tx-Post env w i λ o a found act own fine.
        Moves-update _ i.order_id (deliver_columns env.now o) found (ground arith);
    collect = λ i. cash_in_tx-Post env w i λ d a p found pay act own fine live. (
      (λ done. Moves-refl _),
      λ fresh exact.
          Moves-update _ i.order_id (OrderColumn.balance_due_cents (pos 0) ∷ []) found
            (ground (arith, may_become_refl d.order.status)),
    );
    expire = λ order.
        expire_in_tx-Post env w order
          (λ o rest v.
            (order_at order.id w.tables.orders ≡ some o)
            × (o.status ≡ OrderStatus.created_pending)
            × (v.tables.orders ≡ w.tables.orders))
          (λ o found other. Moves-refl _) (λ o found pending. (found, pending, refl))
          (λ o x rest v h. expire_item-Post env v x (λ e. h) (λ e rs r. h))
          (λ o v h.
            subst
              (λ os.
                Moves w.tables.orders
                  (update (λ x. x.id) order.id (set_order (expire_columns env.now)) os))
              (sym h.2)
              (Moves-update _ order.id (expire_columns env.now) h.0 (ground (arith, h.1))));
  }

-- From sound tables, after any operation, whether it returns or fails, an order is still there,
-- has the same buyer and vendor, and its status is the same or has made a move of `may_become`.
pub run-Moves :
    (env : Env) (op : Op) (w : World)
    → Sound w.tables
    → Moves w.tables.orders (run env op w).1.tables.orders
run-Moves env op w sound =
    (run-Always (λ t. Moves w.tables.orders t.orders) env w (Moves-refl _)
      (Bodies-Moves env w sound) op).on
