-- ===== src/Tests/Others.antt =====
-- Reservations, the scheduled job, the publisher and the quote.
use packfinderz_backend.Cron.Once.{nudge_once, nudges}
use packfinderz_backend.Cron.OrderTtl.{run_order_ttl}
use packfinderz_backend.Prelude.{
  ◌*ᵢ◌, ◌*ℤ◌, wrap, ◌*◌, ◌≤◌, ◌<◌, true, false, some, none, List, [], ◌∷◌, ◌≡◌, refl, arith, pos,
  ◌⊎◌, ◌≤ℤ◌,
}
use packfinderz_backend.Enums.{
  OrderStatus-discrete, ItemStatus-discrete, AggregateType-discrete, OrderStatus, EventType,
  AggregateType,
}
use packfinderz_backend.Errors.{ok}
use packfinderz_backend.Store.Tables.{VendorOrder}
use packfinderz_backend.Store.Tx.{with_tx, call, ◌>>=◌, for_each}
use packfinderz_backend.Store.Repo.{
  find_vendor_order, find_order_line_items_by_order, update_order_line_item_status,
  update_vendor_order, release, emit, order_row, find_pending_orders_before,
}
use packfinderz_backend.Reservation.{
  Request, Reservation, reserve_inventory, reserve_one, take_stock,
}
use packfinderz_backend.Reservation.Exact.{reserve_inventory_ok, Exact}
use packfinderz_backend.Orders.Input.{release_line_item}
use packfinderz_backend.Cron.OrderTtl.{
  expire_order, expire_in_tx, expire_item, expire_pending_orders, order_expiration_days, day,
}
use packfinderz_backend.Cron.Stale.{no_stale_orders, is_stale}
use packfinderz_backend.Publisher.{
  resolve, publish_resolved, publish_to_topic, Row, Outbox, Broker, Outcome, is_published,
}
use packfinderz_backend.Publisher.Batch.{
  mark_terminal, process_events, process_event, dispatch, record_outcome, handle_terminal, Batches,
  process_batch,
}
use packfinderz_backend.Publisher.Fetch.{row_at}
use packfinderz_backend.Publisher.Mark.{Safe, in_sent, in_dlq}
use packfinderz_backend.Publisher.Safety.{no_event_lost}
use packfinderz_backend.Quote.{Line, Tier}
use packfinderz_backend.Quote.{floor_zero, resolve_pricing, has_discount}
use packfinderz_backend.Quote.Prices.{resolve_pricing_lem}
use packfinderz_backend.Checkout.{item_subtotal, CartItem, compute_vendor_order_totals}
use packfinderz_backend.Checkout.Discounts.{total_ignores_discounts}
use packfinderz_backend.Tests.Data.{an_order, quiet, pending_world}

abbrev two_requests : List Request
two_requests =
    record { cart_item_id = 1; product_id = 8; qty = pos 3 }
    ∷ record { cart_item_id = 2; product_id = 8; qty = pos 3 }
    ∷ []

-- There are five: the first three are taken, and the next three are not.
abbrev two_results : List Reservation
two_results =
    record { cart_item_id = 1; product_id = 8; qty = pos 3; reserved = true }
    ∷ record { cart_item_id = 2; product_id = 8; qty = pos 3; reserved = false }
    ∷ []

reservation_returns : (reserve_inventory quiet two_requests pending_world).0 ≡ ok two_results
unfolding reserve_inventory reserve_one take_stock call ◌>>=◌
reservation_returns = refl

reserve_inventory_ok_example :
    Exact pending_world.tables.inventory two_results
      (reserve_inventory quiet two_requests pending_world).1.tables.inventory
reserve_inventory_ok_example =
    reserve_inventory_ok quiet two_requests pending_world two_results (refl, tt) reservation_returns

-- The pending order, as the job leaves it.
abbrev expired_order : VendorOrder
expired_order = record (an_order 1 OrderStatus.expired (pos 500)) {
  balance_due_cents = pos 0;
  expired_at = some 2000000;
}

round_returns : (expire_pending_orders quiet pending_world).0 ≡ ok tt
unfolding expire_pending_orders expire_order expire_in_tx expire_item find_pending_orders_before
    find_vendor_order find_order_line_items_by_order update_order_line_item_status
    update_vendor_order release_line_item release emit for_each with_tx call ◌>>=◌
    OrderStatus-discrete ItemStatus-discrete
round_returns = refl

round_keeps : order_row 1 (expire_pending_orders quiet pending_world).1 ≡ some expired_order
unfolding expire_pending_orders expire_order expire_in_tx expire_item find_pending_orders_before
    find_vendor_order find_order_line_items_by_order update_order_line_item_status
    update_vendor_order release_line_item release emit for_each with_tx call ◌>>=◌
    OrderStatus-discrete ItemStatus-discrete
round_keeps = refl

no_stale_orders_example : is_stale 2000000 (order_expiration_days * day) expired_order ≡ false
no_stale_orders_example =
    no_stale_orders quiet pending_world 1 expired_order round_returns round_keeps

abbrev a_row : Row
a_row = record {
  id = 50;
  event_type = EventType.order_paid;
  aggregate_type = AggregateType.vendor_order;
  aggregate_id = 1;
  payload = 0;
  created_at = 5;
  published_at = none;
  attempt_count = 1;
  last_error = none;
}

abbrev an_outbox : Outbox
an_outbox = record { rows = a_row ∷ []; dlq = []; sent = [] }

-- A broker that refuses every message, at most two times.
abbrev a_broker : Broker
a_broker = record {
  orders_topic = 1;
  notification_topic = 2;
  billing_topic = 3;
  analytics_topic = some 4;
  batch_size = 10;
  max_attempts = 2;
  now = 60;
  fails = λ c. false;
  locked = λ k. false;
  decodes = λ r. true;
  answer = λ t r. Outcome.refused;
  error_text = λ k. some 1;
}

outbox-Safe : Safe 2 an_outbox
outbox-Safe = record {
  at = λ k r e. record { published = λ p. ground arith; given_up = λ p q. ground arith };
  distinct = (refl, tt);
}

abbrev given_up : Row
given_up = record a_row { attempt_count = 2; last_error = some 1 }

batch_gives_up : row_at 50 (process_batch a_broker an_outbox).1.rows ≡ some given_up
unfolding process_batch process_events process_event dispatch resolve publish_resolved
    publish_to_topic record_outcome handle_terminal mark_terminal AggregateType-discrete
batch_gives_up = refl

no_event_lost_example :
    ((in_sent 50 (process_batch a_broker an_outbox).1.sent ≡ true)
      ⊎ (in_dlq 50 (process_batch a_broker an_outbox).1.dlq ≡ true))
    ⊎ ((is_published given_up ≡ false) × (2 < 2))
no_event_lost_example =
    no_event_lost 2 an_outbox (process_batch a_broker an_outbox).1 50 given_up (omega arith)
      outbox-Safe (Batches.batch Batches.start a_broker refl) batch_gives_up

-- A line of 1000 with 100 off, and a promotion of 5000.
abbrev a_line : Line
a_line = record { is_ok = true; subtotal = pos 1000; discounts = pos 100; total = pos 900 }

abbrev a_tier : Tier
a_tier = record { min_qty = pos 10; percent = 5; is_positive = true }

-- The rounding of this example takes 5 from any price.
resolve_pricing_lem_example :
    let p = resolve_pricing (λ p n. pos 5) (pos 100) (pos 12) (some a_tier) in
    ((pos 0 ≤ℤ p.base) × (pos 0 ≤ℤ p.effective))
    × ((p.effective ≤ℤ p.base) × (has_discount (some a_tier) ≡ false → p.effective ≡ p.base))
resolve_pricing_lem_example =
    resolve_pricing_lem (λ p n. pos 5) (λ p n. (ground arith, ground arith)) (pos 100) (pos 12)
      (some a_tier) (ground arith, ground arith)

-- Ten at 100 each, with a discount of 50 on the line.
abbrev a_cart_item : CartItem
a_cart_item = record {
  id = 1;
  unit_price_cents = pos 100;
  quantity = pos 10;
  line_subtotal_cents = pos 1000;
  applied_discount = some (pos 50);
}

quoted : a_cart_item.line_subtotal_cents ≡ item_subtotal a_cart_item
unfolding ◌*ᵢ◌ ◌*ℤ◌ wrap
quoted = refl

total_ignores_discounts_example :
    (compute_vendor_order_totals (λ k. true) (a_cart_item ∷ [])).total_cents
    ≡ floor_zero (compute_vendor_order_totals (λ k. true) (a_cart_item ∷ [])).subtotal_cents
total_ignores_discounts_example =
    total_ignores_discounts (λ k. true) (a_cart_item ∷ []) (quoted, tt)

nudge_once_example : nudges 1 (run_order_ttl quiet pending_world).1.tables.outbox ≤ 1
nudge_once_example = nudge_once quiet 1 pending_world (omega arith)
