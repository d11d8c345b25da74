-- ===== src/Orders/Frozen.antt =====
-- Canceled and expired orders stay as they are, with their items, whatever the order service and
-- the scheduled job do afterwards.
use mathlib.Core.Path.{subst}
use packfinderz_backend.Prelude.{sym, arith, ◌≡◌, true, some}
use packfinderz_backend.Store.Tables.{VendorOrder, LineItem, Tables, World, Uuid}
use packfinderz_backend.Store.Tx.{Env}
use packfinderz_backend.Store.Repo.{order_row, item_row}
use packfinderz_backend.Orders.Run.{Op, run, Reach}
use packfinderz_backend.Orders.Lift.{Bodies, run-Always}
use packfinderz_backend.Orders.Void.{is_void, is_final_item, Sound, Kept}
use packfinderz_backend.Orders.Void.Additions.{decide_line_item-Kept, retry-Kept}
use packfinderz_backend.Orders.Void.Steps.{
  Sound-Kept, decide_order-Kept, cancel-Kept, nudge-Kept, payout-Kept, pickup-Kept, deliver-Kept,
  cash-Kept, expire-Kept,
}

Kept-trans : (t u v : Tables) → Kept t u → Kept u v → Kept t v
Kept-trans t u v a b = record {
  settled = b.settled;
  unique = b.unique;
  same_orders = record {
    at = λ k o e void. b.same_orders.at k o (a.same_orders.at k o e void) void;
  };
  same_items = record {
    at = λ k i o e e' void.
        b.same_items.at k i o (a.same_items.at k i o e e' void)
          (a.same_orders.at i.order_id o e' void) void;
  };
}

Bodies-Kept : (env : Env) (w : World) → Sound w.tables → Bodies (Kept w.tables) env w
Bodies-Kept env w sound = record {
  decide = λ i s e. decide_order-Kept env w sound i s (ground arith);
  decide_item = λ i s e. decide_line_item-Kept env w sound i s (ground arith);
  cancel = cancel-Kept env w sound;
  nudge = nudge-Kept env w sound;
  retry = retry-Kept env w sound;
  payout = payout-Kept env w sound;
  pickup = pickup-Kept env w sound;
  deliver = deliver-Kept env w sound;
  collect = cash-Kept env w sound;
  expire = expire-Kept env w sound;
}

-- From sound tables, every operation, whether it returns or fails, leaves each canceled or expired
-- order and each of its items as they were, and the tables sound.
pub run-Kept :
    (env : Env) (op : Op) (w : World) → Sound w.tables → Kept w.tables (run env op w).1.tables
run-Kept env op w sound =
    (run-Always (Kept w.tables) env w (Sound-Kept w.tables sound) (Bodies-Kept env w sound) op).on

Reach-Kept : (w : World) {v : World} → Reach w v → Sound w.tables → Kept w.tables v.tables
Reach-Kept w Reach.here sound = Sound-Kept w.tables sound
Reach-Kept w (Reach.next {v = u} r env op) sound =
    let before = Reach-Kept w r sound in
    Kept-trans w.tables u.tables (run env op u).1.tables before
      (run-Kept env op u (record { settled = before.settled; unique = before.unique }))

-- From sound tables, an item of an order that is canceled or expired is final, and after any
-- number of operations, with any failures, the order and the item are found as they were.
pub void_forever :
    (w v : World) (k j : Uuid) (o : VendorOrder) (i : LineItem)
    → Sound w.tables
    → Reach w v
    → order_row k w ≡ some o
    → is_void o.status ≡ true
    → item_row j w ≡ some i
    → i.order_id ≡ k
    → (is_final_item i.status ≡ true) × (order_row k v ≡ some o) × (item_row j v ≡ some i)
void_forever w v k j o i sound reach found void item own =
    let kept = Reach-Kept w reach sound in
    let owner : order_row i.order_id w ≡ some o =
      subst (λ x. order_row x w ≡ some o) (sym own) found in
    (
      sound.settled.at j i o item owner void,
      kept.same_orders.at k o found void,
      kept.same_items.at j i o item owner void,
    )
