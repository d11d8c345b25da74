-- ===== src/Quote/Prices.antt =====
-- The quantity and the unit price that a line is quoted.
use packfinderz_backend.Prelude.{
  ℕ, false, Option, none, some, ◌≡◌, refl, arith, ℤ, pos, ◌≤ℤ◌, Fits, Bool-cases, inl, inr, ◌+ℤ◌,
  +ℤ_parts,
}
use packfinderz_backend.Quote.{Tier, resolve_pricing, discount_per_unit, has_discount, floor_zero}
use packfinderz_backend.Quote.Bounds.{floor_zero-Money, cap-Money, sub_exact}

priced_below :
    (left unit base : ℤ)
    → pos 0 ≤ℤ left
    → pos 0 ≤ℤ unit
    → left +ℤ unit ≡ base
    → (pos 0 ≤ℤ floor_zero left) × (floor_zero left ≤ℤ base)
priced_below left unit base l u e = (ground arith, ground (arith, +ℤ_parts left unit))

module _ (rounded : ℤ → ℕ → ℤ) (fits : (p : ℤ) (n : ℕ) → Fits (rounded p n)) where
  -- With a price and rounded discounts that are 64-bit numbers, the base price and the effective
  -- price are not negative, the effective one is no more than the base, and without a discount it is
  -- the base.
  pub resolve_pricing_lem :
      (price qty : ℤ) (tier : Option Tier)
      → Fits price
      → let p = resolve_pricing rounded price qty tier in
        ((pos 0 ≤ℤ p.base) × (pos 0 ≤ℤ p.effective))
        × ((p.effective ≤ℤ p.base) × (has_discount tier ≡ false → p.effective ≡ p.base))
  unfolding resolve_pricing
  resolve_pricing_lem price qty none f =
      let base = floor_zero-Money price f in ((base.0, base.0), (ground arith, λ e. refl))
  resolve_pricing_lem price qty (some t) f =
      let base = floor_zero-Money price f in
      elim (Bool-cases t.is_positive) [
        | inl yes_ ↦
            let (unit, (below, _)) =
              cap-Money (floor_zero (rounded (floor_zero price) t.percent)) (floor_zero price)
                (floor_zero-Money _ (fits _ _)) base in
            let (same, (left, back)) =
              sub_exact (floor_zero price) (discount_per_unit rounded (floor_zero price) t) base
                unit below in
            let less = priced_below _ _ (floor_zero price) left.0 unit.0 back in
            rw yes_ ((base.0, less.0), (less.1, λ e. cc))
        | inr no_ ↦ rw no_ ((base.0, base.0), (ground arith, λ e. refl))
      ]
