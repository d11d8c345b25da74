-- ===== src/Orders/Void/Additions.antt =====
-- A decision on a line item, and a retry, which adds an order and its items.
use mathlib.Core.Path.{subst}
use packfinderz_backend.Prelude.{
  sym, sym, true, false, some, List, [], ◌∷◌, ◌++◌, ◌≡◌, refl, arith, All, map,
}
use packfinderz_backend.Enums.{ItemStatus}
use packfinderz_backend.Store.Tables.{InventoryItem, VendorOrder, LineItem, World, Uuid}
use packfinderz_backend.Store.Rows.{find_all, update, find_key, find-append}
use packfinderz_backend.Store.Columns.{set_item}
use packfinderz_backend.Store.Tx.{Env, ⊤}
use packfinderz_backend.Store.Post.{Post}
use packfinderz_backend.Store.Repo.{order_row}
use packfinderz_backend.Orders.Input.{
  LineItemDecisionInput, ActorInput, can_transition_line_item_status,
}
use packfinderz_backend.Orders.Decision.{tally, decide_line_item}
use packfinderz_backend.Orders.Retry.{retry_in_tx, retried_item}
use packfinderz_backend.Orders.Returns.Decisions.{
  decide_line_item-Post, Decided, open_columns, closed_columns,
}
use packfinderz_backend.Orders.Returns.Retries.{retry_in_tx-Post, created_order}
use packfinderz_backend.Orders.Void.{is_void, is_final_item, order_at, item_at, Kept, Sound}
use packfinderz_backend.Orders.Void.Orders.{Settled-append, SameOrders-append}
use packfinderz_backend.Orders.Void.Items.{
  insert_items-Unique, insert_items-SameItems, insert_items-Settled,
}
use packfinderz_backend.Orders.Void.Steps.{Sound-Kept, Frozen-order, Frozen-item, found_at_id}

module _ (env : Env) (w : World) (sound : Sound w.tables) where
  abbrev Q : ⊤ → World → Type 0
  Q _ v = Kept w.tables v.tables

  abbrev start : Kept w.tables w.tables
  start = Sound-Kept w.tables sound

  -- A decision on an item of a void order never passes: all of them are final.
  Decided-Kept :
      (input : LineItemDecisionInput) (target : ItemStatus) (o : VendorOrder) (i : LineItem)
      (rs : List InventoryItem)
      → is_final_item target ≡ true
      → order_row input.order_id w ≡ some o
      → item_at input.line_item_id w.tables.items ≡ some i
      → i.order_id ≡ o.id
      → can_transition_line_item_status i.status ≡ true
      → Decided env input o i target w Q rs
  Decided-Kept input target o i rs final found item own open_ =
      let owner : order_at i.order_id w.tables.orders ≡ some o =
        subst (λ j. order_at j w.tables.orders ≡ some o) (sym own)
          (found_at_id input.order_id _ found) in
      let here : item_at i.id w.tables.items ≡ some i =
        subst (λ j. item_at j w.tables.items ≡ some i)
          (sym (find_key (λ (x : LineItem). x.id) input.line_item_id w.tables.items item)) item in
      let live : is_void o.status ≡ false =
        ground (arith, sound.settled.at input.line_item_id i o item owner) in
      let mid = Frozen-item _ _ _ _ start target input.notes i.id final here owner live in
      let t = tally (
        find_all (λ x. x.order_id) o.id
          (update (λ x. x.id) i.id (set_item target input.notes) w.tables.items)) in
      record {
        last = λ e.
            Frozen-order _ _ _ _ mid o.id (closed_columns o t) (found_at_id input.order_id _ found)
              live refl;
        more = λ e.
            Frozen-order _ _ _ _ mid o.id (open_columns o t) (found_at_id input.order_id _ found)
              live live;
      }

  pub decide_line_item-Kept :
      (input : LineItemDecisionInput) (target : ItemStatus)
      → is_final_item target ≡ true
      → Post Q (decide_line_item env input target w)
  decide_line_item-Kept input target final =
      decide_line_item-Post env w input target (λ o i found item own same. start)
        (λ o i found item own open_ back rs r.
          Decided-Kept input target o i rs final found item own open_)
        (λ o i found item own open_ other.
          Decided-Kept input target o i w.tables.inventory final found item own open_)

  retried-own :
      (j : Uuid) (is : List LineItem)
      → All (λ (i : LineItem). i.order_id ≡ j) (map (retried_item j) is)
  retried-own j [] = tt
  retried-own j (i ∷ is) = (refl, retried-own j is)

  -- A retry adds an order and its items, under identifiers that no row had.
  pub retry-Kept :
      (input : ActorInput) → Post (λ k v. Kept w.tables v.tables) (retry_in_tx env input w)
  retry-Kept input = retry_in_tx-Post env w input λ o rows rs m found expired new made taken.
      let row = created_order env o in
      let last : order_at row.id (w.tables.orders ++ row ∷ []) ≡ some row =
        ground (arith, find-append (λ (x : VendorOrder). x.id) row.id w.tables.orders (row ∷ [])) in
      record {
        settled =
            insert_items-Settled env.fresh _ row 3 _ w.tables.items last refl
              (retried-own (env.fresh 1) _) made
              (Settled-append w.tables.orders row refl w.tables.items sound.settled);
        unique = insert_items-Unique env.fresh 3 _ w.tables.items made sound.unique;
        same_orders = SameOrders-append w.tables.orders row refl w.tables.orders start.same_orders;
        same_items =
            insert_items-SameItems env.fresh w.tables.orders 3 _ w.tables.items w.tables.items made
              start.same_items;
      }
