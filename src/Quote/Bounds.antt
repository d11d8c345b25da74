-- ===== src/Quote/Bounds.antt =====
-- The bounds of what a cart is quoted.
use packfinderz_backend.Prelude.{
  ◌∷◌, List, some, refl, Option, Bool-cases, inl, inl, Bool-cases, ◌∷◌, some, Option, List, ◌≡◌,
  refl, arith, ℤ, pos, ◌≤ℤ◌, ◌+ℤ◌, ◌-ℤ◌, ◌-ᵢ◌, Fits, wrap_of_Fits, int_laws, -ℤ_parts,
}
use packfinderz_backend.Quote.{Group, floor_zero, cap}

-- A 64-bit number that is not negative.
abbrev pub Money : ℤ → Type 0
Money a = (pos 0 ≤ℤ a) × Fits a

pub floor_zero-Money : (a : ℤ) → Fits a → Money (floor_zero a)
floor_zero-Money a f = ground arith

pub cap-Money : (a b : ℤ) → Money a → Money b → Money (cap b a) × ((cap b a ≤ℤ b) × (cap b a ≤ℤ a))
cap-Money a b h k = ground arith

-- Below a number of money a subtraction is exact.
pub sub_exact :
    (a b : ℤ)
    → Money a
    → Money b
    → b ≤ℤ a
    → (a -ᵢ b ≡ a -ℤ b) × (Money (a -ᵢ b) × (a -ᵢ b +ℤ b ≡ a))
unfolding ◌-ᵢ◌
sub_exact a b h k le =
    let fits : Fits (a -ℤ b) = ground (arith, -ℤ_parts a b) in
    let exact = wrap_of_Fits (a -ℤ b) fits in
    rw exact (refl, ((ground (arith, -ℤ_parts a b), fits), grind int_laws))

-- The sums of money that a vendor's group is given.
pub record Balanced (g : Group) : Type 0 where
  pub subtotal : Money g.subtotal
  pub line_discounts : Money g.line_discounts
  pub promo_discount : Money g.promo_discount
  pub discounts : g.discounts ≡ g.line_discounts +ℤ g.promo_discount
  pub total : Money g.total
  pub sum : g.total +ℤ g.discounts ≡ g.subtotal
