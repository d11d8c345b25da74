-- ===== src/Enums.antt =====
-- The enumerations of pkg/enums that the models branch on, each with its decided equality.
use packfinderz_backend.Prelude.{Bool, holds}

-- pkg/enums/vendor_order_status.go
pub data OrderStatus : Type 0 where
  created_pending accepted partially_accepted rejected fulfilled ready_for_dispatch : OrderStatus
  hold hold_for_pickup in_transit delivered closed canceled expired : OrderStatus

-- pkg/enums/line_item_status.go
pub data ItemStatus : Type 0 where
  pending accepted rejected fulfilled hold : ItemStatus

-- pkg/enums/vendor_order_fulfillment_status.go
pub data FulfillmentStatus : Type 0 where
  pending partial fulfilled : FulfillmentStatus

-- pkg/enums/vendor_order_shipping_status.go
pub data ShippingStatus : Type 0 where
  pending dispatched in_transit delivered : ShippingStatus

-- pkg/enums/payment_status.go
pub data PaymentStatus : Type 0 where
  unpaid pending settled paid failed rejected : PaymentStatus

-- pkg/enums/payment_method.go
pub data PaymentMethod : Type 0 where
  cash ach : PaymentMethod

-- pkg/enums/refund_status.go
pub data RefundStatus : Type 0 where
  none partial full : RefundStatus

-- pkg/enums/ledger_event_type.go
pub data LedgerType : Type 0 where
  cash_collected vendor_payout adjustment refund : LedgerType

-- pkg/enums/outbox.go, the events that the modelled code emits or publishes
pub data EventType : Type 0 where
  order_created order_decided order_ready_for_dispatch order_canceled order_expired : EventType
  order_retried order_paid order_pending_nudge notification_requested : EventType
  cash_collected payment_failed payment_rejected checkout_converted : EventType
  license_status_changed license_expiring_soon license_expired other_event : EventType

pub data AggregateType : Type 0 where
  vendor_order checkout_group license other_aggregate : AggregateType

-- pkg/enums/license.go
pub data LicenseStatus : Type 0 where
  pending verified rejected expired : LicenseStatus

-- pkg/enums/license.go; `other_type` is a text that is none of them.
pub data LicenseType : Type 0 where
  producer grower dispensary merchant other_type : LicenseType

-- pkg/enums/store.go
pub data KycStatus : Type 0 where
  pending_verification verified rejected expired suspended : KycStatus

-- pkg/enums/media_status.go
pub data MediaStatus : Type 0 where
  pending uploaded processing ready failed delete_requested deleted delete_failed : MediaStatus

-- pkg/enums/member_role.go
pub data MemberRole : Type 0 where
  owner admin manager viewer agent staff ops : MemberRole

-- pkg/enums/subscription_status.go
pub data SubscriptionStatus : Type 0 where
  trialing active past_due canceled incomplete incomplete_expired unpaid paused : SubscriptionStatus

unfoldable pub OrderStatus-discrete : Discrete OrderStatus
OrderStatus-discrete = hlevel

unfoldable pub ItemStatus-discrete : Discrete ItemStatus
ItemStatus-discrete = hlevel

unfoldable pub ShippingStatus-discrete : Discrete ShippingStatus
ShippingStatus-discrete = hlevel

unfoldable pub PaymentStatus-discrete : Discrete PaymentStatus
PaymentStatus-discrete = hlevel

unfoldable pub LedgerType-discrete : Discrete LedgerType
LedgerType-discrete = hlevel

unfoldable pub EventType-discrete : Discrete EventType
EventType-discrete = hlevel

unfoldable pub AggregateType-discrete : Discrete AggregateType
AggregateType-discrete = hlevel

abbrev pub is_status : OrderStatus → OrderStatus → Bool
is_status s t = holds (OrderStatus-discrete s t)

abbrev pub is_item : ItemStatus → ItemStatus → Bool
is_item s t = holds (ItemStatus-discrete s t)

abbrev pub is_shipping : ShippingStatus → ShippingStatus → Bool
is_shipping s t = holds (ShippingStatus-discrete s t)

abbrev pub is_payment : PaymentStatus → PaymentStatus → Bool
is_payment s t = holds (PaymentStatus-discrete s t)

abbrev pub is_ledger : LedgerType → LedgerType → Bool
is_ledger s t = holds (LedgerType-discrete s t)

abbrev pub is_event : EventType → EventType → Bool
is_event s t = holds (EventType-discrete s t)

abbrev pub is_aggregate : AggregateType → AggregateType → Bool
is_aggregate s t = holds (AggregateType-discrete s t)

unfoldable pub LicenseStatus-discrete : Discrete LicenseStatus
LicenseStatus-discrete = hlevel

abbrev pub is_license : LicenseStatus → LicenseStatus → Bool
is_license s t = holds (LicenseStatus-discrete s t)

unfoldable pub KycStatus-discrete : Discrete KycStatus
KycStatus-discrete = hlevel

abbrev pub is_kyc : KycStatus → KycStatus → Bool
is_kyc s t = holds (KycStatus-discrete s t)

unfoldable pub MediaStatus-discrete : Discrete MediaStatus
MediaStatus-discrete = hlevel

abbrev pub is_media : MediaStatus → MediaStatus → Bool
is_media s t = holds (MediaStatus-discrete s t)

unfoldable pub MemberRole-discrete : Discrete MemberRole
MemberRole-discrete = hlevel

abbrev pub is_role : MemberRole → MemberRole → Bool
is_role s t = holds (MemberRole-discrete s t)

unfoldable pub SubscriptionStatus-discrete : Discrete SubscriptionStatus
SubscriptionStatus-discrete = hlevel

abbrev pub is_subscription : SubscriptionStatus → SubscriptionStatus → Bool
is_subscription s t = holds (SubscriptionStatus-discrete s t)
