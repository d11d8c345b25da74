-- ===== src/Store/Columns.antt =====
-- The `updates` maps that the services hand to the repositories of internal/orders/repo.go: a
-- list of columns with their new values.
use packfinderz_backend.Prelude.{ℕ, ◌≡◌, refl, ◌∙◌, Option, none, some, List, [], ◌∷◌, ℤ}
use packfinderz_backend.Enums.{
  OrderStatus, ItemStatus, FulfillmentStatus, ShippingStatus, PaymentStatus,
}
use packfinderz_backend.Store.Tables.{
  VendorOrder, LineItem, PaymentIntent, Assignment, FailureReason, Blob,
}

pub data OrderColumn : Type 0 where
  status : OrderStatus → OrderColumn
  subtotal_cents total_cents balance_due_cents : ℤ → OrderColumn
  fulfillment_status : FulfillmentStatus → OrderColumn
  shipping_status : ShippingStatus → OrderColumn
  delivered_at canceled_at expired_at : ℕ → OrderColumn

abbrev pub set_order_column : OrderColumn → VendorOrder → VendorOrder
set_order_column (OrderColumn.status v) o = record o { status = v }
set_order_column (OrderColumn.subtotal_cents v) o = record o { subtotal_cents = v }
set_order_column (OrderColumn.total_cents v) o = record o { total_cents = v }
set_order_column (OrderColumn.balance_due_cents v) o = record o { balance_due_cents = v }
set_order_column (OrderColumn.fulfillment_status v) o = record o { fulfillment_status = v }
set_order_column (OrderColumn.shipping_status v) o = record o { shipping_status = v }
set_order_column (OrderColumn.delivered_at v) o = record o { delivered_at = some v }
set_order_column (OrderColumn.canceled_at v) o = record o { canceled_at = some v }
set_order_column (OrderColumn.expired_at v) o = record o { expired_at = some v }

abbrev pub set_order : List OrderColumn → VendorOrder → VendorOrder
set_order [] o = o
set_order (c ∷ cs) o = set_order cs (set_order_column c o)

set_order_column-id : (c : OrderColumn) (o : VendorOrder) → (set_order_column c o).id ≡ o.id
set_order_column-id (OrderColumn.status v) o = refl
set_order_column-id _ o = refl

pub set_order-id : (cs : List OrderColumn) (o : VendorOrder) → (set_order cs o).id ≡ o.id
set_order-id [] o = refl
set_order-id (c ∷ cs) o = set_order-id cs (set_order_column c o) ∙ set_order_column-id c o

pub data IntentColumn : Type 0 where
  status : PaymentStatus → IntentColumn
  cash_collected_at vendor_paid_at : ℕ → IntentColumn
  failure_reason : FailureReason → IntentColumn

abbrev pub set_intent_column : IntentColumn → PaymentIntent → PaymentIntent
set_intent_column (IntentColumn.status v) p = record p { status = v }
set_intent_column (IntentColumn.cash_collected_at v) p = record p { cash_collected_at = some v }
set_intent_column (IntentColumn.vendor_paid_at v) p = record p { vendor_paid_at = some v }
set_intent_column (IntentColumn.failure_reason v) p = record p { failure_reason = some v }

abbrev pub set_intent : List IntentColumn → PaymentIntent → PaymentIntent
set_intent [] p = p
set_intent (c ∷ cs) p = set_intent cs (set_intent_column c p)

set_intent_column-order_id :
    (c : IntentColumn) (p : PaymentIntent) → (set_intent_column c p).order_id ≡ p.order_id
set_intent_column-order_id (IntentColumn.status v) p = refl
set_intent_column-order_id _ p = refl

pub set_intent-order_id :
    (cs : List IntentColumn) (p : PaymentIntent) → (set_intent cs p).order_id ≡ p.order_id
set_intent-order_id [] p = refl
set_intent-order_id (c ∷ cs) p =
    set_intent-order_id cs (set_intent_column c p) ∙ set_intent_column-order_id c p

pub data AssignmentColumn : Type 0 where
  pickup_time delivery_time cash_pickup_time : ℕ → AssignmentColumn

abbrev pub set_assignment_column : AssignmentColumn → Assignment → Assignment
set_assignment_column (AssignmentColumn.pickup_time v) a = record a { pickup_time = some v }
set_assignment_column (AssignmentColumn.delivery_time v) a = record a { delivery_time = some v }
set_assignment_column (AssignmentColumn.cash_pickup_time v) a = record a {
  cash_pickup_time = some v;
}

abbrev pub set_assignment : List AssignmentColumn → Assignment → Assignment
set_assignment [] a = a
set_assignment (c ∷ cs) a = set_assignment cs (set_assignment_column c a)

-- `UpdateOrderLineItemStatus`: the notes are written only if there are any.
abbrev pub set_item : ItemStatus → Option Blob → LineItem → LineItem
set_item s none i = record i { status = s }
set_item s (some n) i = record i { status = s; notes = some n }

pub set_item-id : (s : ItemStatus) (n : Option Blob) (i : LineItem) → (set_item s n i).id ≡ i.id
set_item-id s none i = refl
set_item-id s (some n) i = refl
