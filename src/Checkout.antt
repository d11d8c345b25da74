-- ===== src/Checkout.antt =====
-- `computeVendorOrderTotals` of internal/checkout/service.go and the totals of
-- internal/checkout/helpers/grouping.go: the money of the order that a vendor's cart items become.
pub mod Discounts
use packfinderz_backend.Prelude.{
  if◌then◌else◌, not, Bool, true, false, Option, none, some, List, [], ◌∷◌, ℤ, pos, ltb_ℤ, eqb_ℤ,
  ◌+ᵢ◌, ◌-ᵢ◌, ◌*ᵢ◌,
}
use packfinderz_backend.Store.Tables.{Uuid}
use packfinderz_backend.Quote.{floor_zero, cap}

-- What the totals read of `models.CartItem`; the discount is the amount of the applied volume
-- discount, and `reserved` what the map of reservations says of the item.
pub record CartItem : Type 0 where
  pub id : Uuid
  pub unit_price_cents : ℤ
  pub quantity : ℤ
  pub line_subtotal_cents : ℤ
  pub applied_discount : Option ℤ

-- `vendorOrderTotals`
pub record Totals : Type 0 where
  pub subtotal_cents : ℤ
  pub discounts_cents : ℤ
  pub total_cents : ℤ
  pub has_reserved : Bool

abbrev pub discount_amount : Option ℤ → ℤ
discount_amount none = pos 0
discount_amount (some a) = a

abbrev pub item_subtotal : CartItem → ℤ
item_subtotal i = floor_zero (i.unit_price_cents *ᵢ i.quantity)

abbrev pub item_discount : CartItem → ℤ
item_discount i = cap (item_subtotal i) (floor_zero (discount_amount i.applied_discount))

-- The line's subtotal, and only where that is zero the price less the discount.
abbrev pub item_total : CartItem → ℤ
item_total i = floor_zero (
    if eqb_ℤ i.line_subtotal_cents (pos 0)
    then item_subtotal i -ᵢ item_discount i
    else i.line_subtotal_cents)

module _ (reserved : Uuid → Bool) where
  abbrev pub add_item : CartItem → Totals → Totals
  add_item i t = if not (reserved i.id) then t else record {
    subtotal_cents = t.subtotal_cents +ᵢ item_subtotal i;
    discounts_cents = t.discounts_cents +ᵢ item_discount i;
    total_cents = t.total_cents +ᵢ item_total i;
    has_reserved = true;
  }

  unfoldable pub add_items : List CartItem → Totals → Totals
  add_items [] t = t
  add_items (i ∷ is) t = add_items is (add_item i t)

  -- `computeVendorOrderTotals`
  unfoldable pub compute_vendor_order_totals : List CartItem → Totals
  unfolding add_items
  compute_vendor_order_totals is =
      let t = add_items is (record {
        subtotal_cents = pos 0;
        discounts_cents = pos 0;
        total_cents = pos 0;
        has_reserved = false;
      }) in
      record t {
        discounts_cents = cap t.subtotal_cents t.discounts_cents;
        total_cents = floor_zero t.total_cents;
      }
