-- ===== src/Checkout/Discounts.antt =====
-- What an order's total is, when the cart's lines are as the quote writes them.
use packfinderz_backend.Prelude.{
  Bool, false, List, [], ◌∷◌, ◌≡◌, refl, arith, All, pos, ◌-ᵢ◌, ◌-ℤ◌, wrap, Bool-cases, inl, inr,
}
use packfinderz_backend.Store.Tables.{Uuid}
use packfinderz_backend.Quote.{floor_zero}
use packfinderz_backend.Checkout.{
  CartItem, Totals, item_subtotal, item_total, add_item, add_items, compute_vendor_order_totals,
}

-- The line's subtotal is the price times the quantity, as `preprocessQuoteInput` computes it.
abbrev pub IsQuoted : CartItem → Type 0
IsQuoted i = i.line_subtotal_cents ≡ item_subtotal i

-- A line that is quoted counts in full, whatever its discount.
item_total-quoted : (i : CartItem) → IsQuoted i → item_total i ≡ item_subtotal i
unfolding ◌-ᵢ◌ wrap ◌-ℤ◌
item_total-quoted i q = ground arith

module _ (reserved : Uuid → Bool) where
  add_items-quoted :
      (is : List CartItem) (t : Totals)
      → All IsQuoted is
      → t.total_cents ≡ t.subtotal_cents
      → (add_items reserved is t).total_cents ≡ (add_items reserved is t).subtotal_cents
  unfolding add_items
  add_items-quoted [] t q e = e
  add_items-quoted (i ∷ is) t q e =
      add_items-quoted is (add_item reserved i t) q.1 (elim (Bool-cases (reserved i.id)) [
        | inl yes_ ↦ rw (yes_, item_total-quoted i q.0, e) refl
        | inr no_ ↦ rw no_ e
      ])

  -- The total of an order from a quoted cart is its subtotal, if that is not negative, with the
  -- volume discounts not taken off, whatever they are.
  pub total_ignores_discounts :
      (is : List CartItem)
      → All IsQuoted is
      → (compute_vendor_order_totals reserved is).total_cents
        ≡ floor_zero (compute_vendor_order_totals reserved is).subtotal_cents
  unfolding compute_vendor_order_totals
  total_ignores_discounts is q =
      rw
        (add_items-quoted is
          (record {
            subtotal_cents = pos 0;
            discounts_cents = pos 0;
            total_cents = pos 0;
            has_reserved = false;
          })
          q refl)
        refl
