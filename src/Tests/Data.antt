-- ===== src/Tests/Data.antt =====
-- A small database, and the environment in which no call fails.
use packfinderz_backend.Prelude.{true, ◌+◌, false, none, some, List, [], ◌∷◌, ℤ, pos}
use packfinderz_backend.Enums.{
  OrderStatus, ItemStatus, FulfillmentStatus, ShippingStatus, PaymentStatus, PaymentMethod,
  RefundStatus, KycStatus,
}
use packfinderz_backend.Store.Tables.{
  VendorOrder, LineItem, ItemCopy, PaymentIntent, Assignment, InventoryItem, World, Uuid, StoreRow,
  SquareAnswer,
}
use packfinderz_backend.Store.Tx.{Env}
use packfinderz_backend.Orders.Input.{ActorInput, AgentInput}

abbrev pub quiet : Env
quiet = record {
  fails = λ c. false;
  now = 2000000;
  fresh = λ k. 100 + k;
  square = λ log c. SquareAnswer.nothing;
}

abbrev pub a_store : Uuid → KycStatus → StoreRow
a_store k s = record { id = k; kyc_status = s; subscription_active = false }

-- An order of store 5 from store 6.
abbrev pub an_order : Uuid → OrderStatus → ℤ → VendorOrder
an_order k s total = record {
  id = k;
  cart_id = 30;
  checkout_group_id = 40;
  buyer_store_id = 5;
  vendor_store_id = 6;
  currency = 0;
  shipping_address = none;
  status = s;
  refund_status = RefundStatus.none;
  subtotal_cents = total;
  discounts_cents = pos 0;
  tax_cents = pos 0;
  transport_fee_cents = pos 0;
  payment_method = PaymentMethod.cash;
  total_cents = total;
  balance_due_cents = total;
  fulfillment_status = FulfillmentStatus.pending;
  shipping_status = ShippingStatus.pending;
  warnings = 0;
  promo = none;
  shipping_line = none;
  attributed_token = none;
  ad_token = none;
  delivered_at = none;
  canceled_at = none;
  expired_at = none;
  created_at = 10;
}

abbrev pub a_copy : ItemCopy
a_copy = record {
  thumbnail = none;
  name = 0;
  category = 0;
  strain = none;
  classification = none;
  unit = 0;
  moq = pos 1;
  max_qty = none;
  warnings = 0;
  applied_volume_discount = none;
  attributed_token = none;
}

-- Two of product 8.
abbrev pub an_item : Uuid → Uuid → ItemStatus → ℤ → LineItem
an_item k order s total = record {
  id = k;
  order_id = order;
  product_id = some 8;
  cart_item_id = none;
  copied = a_copy;
  unit_price_cents = total;
  qty = pos 2;
  discount_cents = pos 0;
  line_subtotal_cents = total;
  total_cents = total;
  ad_token = none;
  status = s;
  notes = none;
}

abbrev pub an_intent : Uuid → PaymentStatus → ℤ → PaymentIntent
an_intent order s amount = record {
  id = 70 + order;
  order_id = order;
  method = PaymentMethod.cash;
  status = s;
  amount_cents = amount;
  cash_collected_at = none;
  vendor_paid_at = none;
  failure_reason = none;
}

abbrev pub an_assignment : Uuid → Assignment
an_assignment order = record {
  id = 80;
  order_id = order;
  agent_user_id = 9;
  active = true;
  pickup_time = none;
  delivery_time = none;
  cash_pickup_time = none;
}

abbrev pub some_stock : List InventoryItem
some_stock = record { product_id = 8; available_qty = 5; reserved_qty = 4 } ∷ []

abbrev pub a_world : VendorOrder → List LineItem → PaymentStatus → ℤ → World
a_world o is s amount = record {
  tables = record {
    orders = o ∷ [];
    items = is;
    intents = an_intent o.id s amount ∷ [];
    assignments = an_assignment o.id ∷ [];
    inventory = some_stock;
    stores = a_store 5 KycStatus.verified ∷ a_store 6 KycStatus.pending_verification ∷ [];
    memberships = [];
    licenses = [];
    media = [];
    attachments = [];
    subscriptions = [];
    outbox = [];
  };
  ledger = [];
  square = [];
}

abbrev pub by_buyer : ActorInput
by_buyer = record { order_id = 1; actor_user_id = 3; actor_store_id = 5; actor_role = 2 }

abbrev pub by_stranger : ActorInput
by_stranger = record { order_id = 1; actor_user_id = 3; actor_store_id = 77; actor_role = 2 }

abbrev pub by_agent : AgentInput
by_agent = record { order_id = 1; agent_user_id = 9 }

-- A canceled order with one item, and a pending one.
abbrev pub canceled_world : World
canceled_world =
    a_world (an_order 1 OrderStatus.canceled (pos 500))
      (an_item 7 1 ItemStatus.rejected (pos 500) ∷ []) PaymentStatus.unpaid (pos 500)

abbrev pub pending_world : World
pending_world =
    a_world (an_order 1 OrderStatus.created_pending (pos 500))
      (an_item 7 1 ItemStatus.pending (pos 200) ∷ an_item 11 1 ItemStatus.fulfilled (pos 300) ∷ [])
      PaymentStatus.unpaid (pos 500)

abbrev pub transit_world : World
transit_world =
    a_world (an_order 1 OrderStatus.in_transit (pos 500))
      (an_item 7 1 ItemStatus.fulfilled (pos 500) ∷ []) PaymentStatus.unpaid (pos 500)

abbrev pub delivered_world : World
delivered_world =
    a_world (an_order 1 OrderStatus.delivered (pos 500))
      (an_item 7 1 ItemStatus.fulfilled (pos 500) ∷ []) PaymentStatus.settled (pos 500)
