-- ===== src/Store/Tables.antt =====
-- The rows of pkg/db/models that the order services read and write. An identifier is a number,
-- and 0 is uuid.Nil; a time is a number; a `Blob` is a value that is only copied.
use packfinderz_backend.Prelude.{ℕ, Bool, Option, List, ℤ}
use packfinderz_backend.Enums.{
  OrderStatus, ItemStatus, FulfillmentStatus, ShippingStatus, PaymentStatus, PaymentMethod,
  RefundStatus, LedgerType, EventType, AggregateType, LicenseStatus,
}
pub use packfinderz_backend.Store.Ids.{Uuid, Blob, Text}
pub use packfinderz_backend.Store.Licensing.{
  StoreRow, Membership, License, Media, EntityType, MediaAttachment,
}
pub use packfinderz_backend.Store.Billing.{
  Metadata, Subscription, SquareAction, SquareItem, SquareSubscription, SquareCall, Refusal,
  SquareAnswer,
}

-- pkg/db/models/vendor_order.go. `notes`, `order_number`, `fulfilled_at` and `updated_at` are
-- neither read nor written by the modelled code; `Items`, `PaymentIntent` and `Assignments` are
-- the tables below.
pub record VendorOrder : Type 0 where
  pub id : Uuid
  pub cart_id : Uuid
  pub checkout_group_id : Uuid
  pub buyer_store_id : Uuid
  pub vendor_store_id : Uuid
  pub currency : Blob
  pub shipping_address : Option Blob
  pub status : OrderStatus
  pub refund_status : RefundStatus
  pub subtotal_cents : ℤ
  pub discounts_cents : ℤ
  pub tax_cents : ℤ
  pub transport_fee_cents : ℤ
  pub payment_method : PaymentMethod
  pub total_cents : ℤ
  pub balance_due_cents : ℤ
  pub fulfillment_status : FulfillmentStatus
  pub shipping_status : ShippingStatus
  pub warnings : Blob
  pub promo : Option Blob
  pub shipping_line : Option Blob
  pub attributed_token : Option Blob
  pub ad_token : Option Blob
  pub delivered_at : Option ℕ
  pub canceled_at : Option ℕ
  pub expired_at : Option ℕ
  pub created_at : ℕ

-- What a line item copies from the cart and the product.
pub record ItemCopy : Type 0 where
  pub thumbnail : Option Blob
  pub name : Blob
  pub category : Blob
  pub strain : Option Blob
  pub classification : Option Blob
  pub unit : Blob
  pub moq : ℤ
  pub max_qty : Option ℤ
  pub warnings : Blob
  pub applied_volume_discount : Option Blob
  pub attributed_token : Option Blob

-- pkg/db/models/order_line_item.go
pub record LineItem : Type 0 where
  pub id : Uuid
  pub order_id : Uuid
  pub product_id : Option Uuid
  pub cart_item_id : Option Uuid
  pub copied : ItemCopy
  pub unit_price_cents : ℤ
  pub qty : ℤ
  pub discount_cents : ℤ
  pub line_subtotal_cents : ℤ
  pub total_cents : ℤ
  pub ad_token : Option Blob
  pub status : ItemStatus
  pub notes : Option Blob

-- Why a payment failed; the program writes a formatted text.
pub data FailureReason : Type 0 where
  not_ready : OrderStatus → FailureReason
  total_differs : ℤ → ℤ → FailureReason

-- pkg/db/models/payment_intent.go
pub record PaymentIntent : Type 0 where
  pub id : Uuid
  pub order_id : Uuid
  pub method : PaymentMethod
  pub status : PaymentStatus
  pub amount_cents : ℤ
  pub cash_collected_at : Option ℕ
  pub vendor_paid_at : Option ℕ
  pub failure_reason : Option FailureReason

-- pkg/db/models/order_assignment.go
pub record Assignment : Type 0 where
  pub id : Uuid
  pub order_id : Uuid
  pub agent_user_id : Uuid
  pub active : Bool
  pub pickup_time : Option ℕ
  pub delivery_time : Option ℕ
  pub cash_pickup_time : Option ℕ

-- pkg/db/models/inventory_item.go; both columns have a CHECK that they are not negative.
pub record InventoryItem : Type 0 where
  pub product_id : Uuid
  pub available_qty : ℕ
  pub reserved_qty : ℕ

-- pkg/outbox: who acted, as the payload of an event carries it
pub record ActorRef : Type 0 where
  pub user_id : Uuid
  pub store_id : Option Uuid
  pub role : Blob

-- The four identifiers that most payloads of pkg/outbox/payloads/events.go begin with.
pub record OrderRef : Type 0 where
  pub order_id : Uuid
  pub checkout_group_id : Uuid
  pub buyer_store_id : Uuid
  pub vendor_store_id : Uuid

-- Why a license has its status: a text of the caller, the warning with the date that it names, or
-- the scheduler's text.
pub data LicenseReason : Type 0 where
  given : Text → LicenseReason
  expires_on : ℕ → LicenseReason
  expired_by_scheduler : LicenseReason

-- pkg/outbox/payloads/events.go
pub data Payload : Type 0 where
  decided : OrderRef → OrderStatus → Payload
  ready_for_dispatch : OrderRef → FulfillmentStatus → ShippingStatus → ℕ → Uuid → Payload
  canceled expired : OrderRef → ℕ → Payload
  nudge : OrderRef → Payload
  pending_nudge : OrderRef → ℕ → Payload
  retried : Uuid → OrderRef → Payload
  cash_collected : Uuid → Uuid → Uuid → ℤ → ℕ → Payload
  payment_status : Uuid → Uuid → Option FailureReason → Payload
  license_status_changed : Uuid → Uuid → LicenseStatus → LicenseReason → Payload
  license_expiring_soon : Uuid → Uuid → ℕ → ℕ → Payload
  license_expired : Uuid → Uuid → ℕ → ℕ → Payload
  paid : Uuid → Uuid → Uuid → Uuid → ℤ → ℕ → Payload

-- pkg/outbox/service.go, `DomainEvent`, and the row and envelope that `Emit` makes of it. A time
-- of 0 is one that is not given. The version is left out.
pub record OutboxEvent : Type 0 where
  pub event_type : EventType
  pub aggregate_type : AggregateType
  pub aggregate_id : Uuid
  pub actor : Option ActorRef
  pub occurred_at : ℕ
  pub payload : Payload

-- pkg/db/models/ledger_event.go
pub record LedgerEvent : Type 0 where
  pub order_id : Uuid
  pub buyer_store_id : Uuid
  pub vendor_store_id : Uuid
  pub actor_user_id : Uuid
  pub type : LedgerType
  pub amount_cents : ℤ

-- The tables that a transaction writes.
pub record Tables : Type 0 where
  pub orders : List VendorOrder
  pub items : List LineItem
  pub intents : List PaymentIntent
  pub assignments : List Assignment
  pub inventory : List InventoryItem
  pub stores : List StoreRow
  pub memberships : List Membership
  pub licenses : List License
  pub media : List Media
  pub attachments : List MediaAttachment
  pub subscriptions : List Subscription
  pub outbox : List OutboxEvent

-- cmd/api/main.go gives the ledger service a repository on the plain connection, so what it
-- writes is no part of the caller's transaction; nor are the requests that Square has got, in the
-- order in which they were made.
pub record World : Type 0 where
  pub tables : Tables
  pub ledger : List LedgerEvent
  pub square : List SquareCall
