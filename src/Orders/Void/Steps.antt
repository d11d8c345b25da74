-- ===== src/Orders/Void/Steps.antt =====
-- What each transaction of the order service and of the job does to the orders and items.
use mathlib.Core.Path.{subst}
use packfinderz_backend.Prelude.{
  sym, pos, sym, true, false, Option, none, some, List, [], ◌∷◌, ◌≡◌, refl, arith,
}
use packfinderz_backend.Enums.{OrderStatus, ItemStatus}
use packfinderz_backend.Store.Tables.{VendorOrder, LineItem, World, Tables, Uuid, Blob}
use packfinderz_backend.Store.Rows.{find_all, update, find_key}
use packfinderz_backend.Store.Columns.{set_item, OrderColumn, set_order}
use packfinderz_backend.Store.Tx.{Env, ⊤}
use packfinderz_backend.Store.Post.{Post}
use packfinderz_backend.Orders.Input.{VendorDecisionInput, ActorInput, AgentInput}
use packfinderz_backend.Orders.Decision.{decide_order}
use packfinderz_backend.Orders.Buyer.{cancel_in_tx, nudge_in_tx, cancel_columns}
use packfinderz_backend.Orders.Agent.{pickup_in_tx, deliver_in_tx, pickup_columns, deliver_columns}
use packfinderz_backend.Orders.Cash.{cash_in_tx}
use packfinderz_backend.Orders.Payout.{payout_in_tx}
use packfinderz_backend.Cron.OrderTtl.{expire_in_tx, expire_columns}
use packfinderz_backend.Orders.Returns.Decisions.{decide_order-Post}
use packfinderz_backend.Orders.Returns.Buyers.{
  cancel_in_tx-Post, cancel_item-Post, nudge_in_tx-Post,
}
use packfinderz_backend.Orders.Returns.Agents.{pickup_in_tx-Post, deliver_in_tx-Post}
use packfinderz_backend.Orders.Returns.Money.{cash_in_tx-Post}
use packfinderz_backend.Orders.Returns.Payouts.{payout_in_tx-Post}
use packfinderz_backend.Orders.Returns.Expiry.{expire_in_tx-Post, expire_item-Post}
use packfinderz_backend.Orders.Void.{is_void, is_final_item, order_at, item_at, Frozen, Kept, Sound}
use packfinderz_backend.Orders.Void.Orders.{Settled-update, SameOrders-update}
use packfinderz_backend.Orders.Void.Items.{Unique-update, Settled-set_item, SameItems-update}
use packfinderz_backend.Orders.Void.Closing.{
  Closing, start-Closing, pass_final, make_final, end-Closing,
}

pub Sound-Kept : (t : Tables) → Sound t → Kept t t
Sound-Kept t h = record {
  settled = h.settled;
  unique = h.unique;
  same_orders = record { at = λ k o e v. e };
  same_items = record { at = λ k i o e e' v. e };
}

module _ (os : List VendorOrder) (is : List LineItem) (os' : List VendorOrder) (is' : List LineItem)
    (h : Frozen os is os' is') where
  -- A live order that stays live.
  pub Frozen-order :
      (j : Uuid) (cs : List OrderColumn) {old : VendorOrder}
      → order_at j os' ≡ some old
      → is_void old.status ≡ false
      → is_void (set_order cs old).status ≡ false
      → Frozen os is (update (λ o. o.id) j (set_order cs) os') is'
  Frozen-order j cs found live stays = record {
    settled = Settled-update cs j os' found is' h.settled λ v. ground arith;
    unique = h.unique;
    same_orders = SameOrders-update cs j os' found os live h.same_orders;
    same_items = h.same_items;
  }

  -- An item of a live order that a decision resolves.
  pub Frozen-item :
      (s : ItemStatus) (notes : Option Blob) (j : Uuid) {line : LineItem} {order : VendorOrder}
      → is_final_item s ≡ true
      → item_at j is ≡ some line
      → order_at line.order_id os ≡ some order
      → is_void order.status ≡ false
      → Frozen os is os' (update (λ x. x.id) j (set_item s notes) is')
  Frozen-item s notes j final found owner live = record {
    settled = Settled-set_item s notes j os' is' final h.settled;
    unique = Unique-update s notes j is' h.unique;
    same_orders = h.same_orders;
    same_items = SameItems-update s notes j os is is' found owner live h.same_items;
  }

pub found_at_id :
    (k : Uuid) (os : List VendorOrder) {o : VendorOrder}
    → order_at k os ≡ some o
    → order_at o.id os ≡ some o
found_at_id k os {o} e =
    subst (λ j. order_at j os ≡ some o) (sym (find_key (λ (x : VendorOrder). x.id) k os e)) e

module _ (env : Env) (w : World) (sound : Sound w.tables) where
  abbrev Q : ⊤ → World → Type 0
  Q _ v = Kept w.tables v.tables

  abbrev start : Kept w.tables w.tables
  start = Sound-Kept w.tables sound

  pub decide_order-Kept :
      (input : VendorDecisionInput) (target : OrderStatus)
      → is_void target ≡ false
      → Post Q (decide_order env input target w)
  decide_order-Kept input target live =
      decide_order-Post env w input target (λ o found own same. start)
        λ o found own pending.
          Frozen-order _ _ _ _ start o.id (OrderColumn.status target ∷ []) {old = o}
            (found_at_id input.order_id _ found) (ground arith) live

  pub nudge-Kept : (input : ActorInput) → Post Q (nudge_in_tx env input w)
  nudge-Kept input = nudge_in_tx-Post env w input λ o found open_. start

  pub pickup-Kept : (input : AgentInput) → Post Q (pickup_in_tx env input w)
  pickup-Kept input = pickup_in_tx-Post env w input λ o a found act own fine.
      Frozen-order _ _ _ _ start input.order_id (pickup_columns o) found (ground arith)
        (ground arith)

  pub deliver-Kept : (input : AgentInput) → Post Q (deliver_in_tx env input w)
  deliver-Kept input = deliver_in_tx-Post env w input λ o a found act own fine.
      Frozen-order _ _ _ _ start input.order_id (deliver_columns env.now o) found (ground arith)
        (ground arith)

  pub cash-Kept : (input : AgentInput) → Post Q (cash_in_tx env input w)
  cash-Kept input = cash_in_tx-Post env w input λ d a p found pay act own fine live. (
    (λ done. start),
    λ fresh exact.
        Frozen-order _ _ _ _ start input.order_id (OrderColumn.balance_due_cents (pos 0) ∷ []) found
          (ground arith) (ground arith),
  )

  pub payout-Kept : (input : ActorInput) → Post Q (payout_in_tx env input w)
  payout-Kept input =
      payout_in_tx-Post env w input (λ d found closed. start)
        λ d p found pay delivered settled.
          Frozen-order _ _ _ _ start input.order_id (OrderColumn.status OrderStatus.closed ∷ [])
            found (ground arith) refl

  pub cancel-Kept : (input : ActorInput) → Post Q (cancel_in_tx env input w)
  cancel-Kept input =
      cancel_in_tx-Post env w input
        (λ o rest v. Closing o w.tables.orders w.tables.items rest v.tables.orders v.tables.items)
        (λ o found own open_.
          start-Closing o _ _ start (found_at_id input.order_id _ found) (ground arith))
        (λ o i rest v h.
          cancel_item-Post env v i (λ e. pass_final o _ _ i rest _ _ (ground arith) h)
            (λ e rs r. pass_final o _ _ i rest _ _ (ground arith) h)
            (λ e f rs r. make_final o _ _ i rest _ _ ItemStatus.rejected none refl h))
        (λ o v h. end-Closing o _ _ (cancel_columns env.now) _ _ h)

  pub expire-Kept : (order : VendorOrder) → Post Q (expire_in_tx env order w)
  expire-Kept order =
      expire_in_tx-Post env w order
        (λ o rest v.
          (o.id ≡ order.id)
          × Closing o w.tables.orders w.tables.items rest v.tables.orders v.tables.items)
        (λ o found other. start)
        (λ o found pending.
          let same = find_key (λ (x : VendorOrder). x.id) order.id w.tables.orders found in
          (
            same,
            subst
                (λ j.
                  Closing o w.tables.orders w.tables.items
                    (find_all (λ x. x.order_id) j w.tables.items) w.tables.orders w.tables.items)
                same (start-Closing o _ _ start (found_at_id order.id _ found) (ground arith)),
          ))
        (λ o i rest v h.
          expire_item-Post env v i (λ e. (h.0, pass_final o _ _ i rest _ _ (ground arith) h.1))
            (λ e rs r. (h.0, make_final o _ _ i rest _ _ ItemStatus.rejected none refl h.1)))
        (λ o v h.
          subst
            (λ j.
              Frozen w.tables.orders w.tables.items
                (update (λ x. x.id) j (set_order (expire_columns env.now)) v.tables.orders)
                v.tables.items)
            h.0 (end-Closing o _ _ (expire_columns env.now) _ _ h.1))
