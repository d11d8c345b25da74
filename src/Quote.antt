-- ===== src/Quote.antt =====
-- internal/cart/quote_preprocess.go and `selectVolumeDiscount` of internal/cart/service.go: the
-- quantity, the price and the totals that a cart is quoted.
pub mod Bounds
pub mod Tiers
pub mod Prices
use packfinderz_backend.Prelude.{
  ℕ, if◌then◌else◌, not, Bool, true, false, ◌&&◌, Option, none, some, List, [], ◌∷◌, ◌++◌, ℤ, pos,
  ltb_ℤ, leb_ℤ, eqb_ℤ, ◌+ᵢ◌, ◌-ᵢ◌, ◌*ᵢ◌,
}

-- The kinds of warnings that a normalised quantity brings.
pub data Warning : Type 0 where
  clamped_to_moq clamped_to_max : ℤ → Warning

-- `normalizeQuantity`
abbrev pub raise_to_moq : ℤ → ℤ → ℤ × List Warning
raise_to_moq requested moq =
    if ltb_ℤ requested moq then (moq, Warning.clamped_to_moq moq ∷ []) else (requested, [])

abbrev pub reduce_to_max : ℤ × List Warning → Option ℤ → ℤ × List Warning
reduce_to_max (q, ws) none = (q, ws)
reduce_to_max (q, ws) (some m) =
    if ltb_ℤ m q then (m, ws ++ Warning.clamped_to_max m ∷ []) else (q, ws)

unfoldable pub normalize_quantity : ℤ → ℤ → Option ℤ → ℤ × List Warning
normalize_quantity requested moq max_qty = reduce_to_max (raise_to_moq requested moq) max_qty

-- pkg/db/models/product_volume_discount.go. The percentage is a float; `percent` names it.
pub record Tier : Type 0 where
  pub min_qty : ℤ
  pub percent : ℕ
  pub is_positive : Bool

abbrev pub better_tier : ℤ → Tier → Option Tier → Option Tier
better_tier qty t none = if leb_ℤ t.min_qty qty then some t else none
better_tier qty t (some s) =
    if leb_ℤ t.min_qty qty && ltb_ℤ s.min_qty t.min_qty then some t else some s

unfoldable pub select_from : ℤ → List Tier → Option Tier → Option Tier
select_from qty [] selected = selected
select_from qty (t ∷ ts) selected = select_from qty ts (better_tier qty t selected)

-- `selectVolumeDiscount`
unfoldable pub select_volume_discount : ℤ → List Tier → Option Tier
unfolding select_from
select_volume_discount qty tiers = select_from qty tiers none

-- `if a < 0 { a = 0 }`
abbrev pub floor_zero : ℤ → ℤ
floor_zero a = if ltb_ℤ a (pos 0) then pos 0 else a

-- `if a > b { a = b }`
abbrev pub cap : ℤ → ℤ → ℤ
cap b a = if ltb_ℤ b a then b else a

-- What `resolvePricing` returns.
pub record Pricing : Type 0 where
  pub base : ℤ
  pub line_discounts : ℤ
  pub effective : ℤ
  pub applied : Option ℤ

-- The tier counts if its percentage is positive.
abbrev pub has_discount : Option Tier → Bool
has_discount none = false
has_discount (some t) = t.is_positive

-- `resolvePricing` of a product. `rounded price percent` stands for
-- `int(math.Round(float64(price) * percent / 100.0))`, any number at all.
abbrev pub discount_per_unit : (ℤ → ℕ → ℤ) → ℤ → Tier → ℤ
discount_per_unit rounded base t = cap base (floor_zero (rounded base t.percent))

abbrev pub priced_with : (ℤ → ℕ → ℤ) → ℤ → ℤ → Option Tier → Pricing
priced_with rounded base qty none = record {
  base = base;
  line_discounts = pos 0;
  effective = base;
  applied = none;
}
priced_with rounded base qty (some t) =
    if not t.is_positive
    then record { base = base; line_discounts = pos 0; effective = base; applied = none }
    else (let per_unit = discount_per_unit rounded base t in
        record {
          base = base;
          line_discounts = floor_zero (per_unit *ᵢ qty);
          effective = floor_zero (base -ᵢ per_unit);
          applied = some (floor_zero (per_unit *ᵢ qty));
        })

unfoldable pub resolve_pricing : (ℤ → ℕ → ℤ) → ℤ → ℤ → Option Tier → Pricing
resolve_pricing rounded price qty tier =
    priced_with rounded (floor_zero price) (floor_zero qty) tier

-- The money of one line, as `preprocessQuoteInput` computes it.
pub record Line : Type 0 where
  pub is_ok : Bool
  pub subtotal : ℤ
  pub discounts : ℤ
  pub total : ℤ

unfoldable pub quote_line : Bool → Pricing → ℤ → Line
quote_line ok p qty =
    let subtotal = floor_zero (p.base *ᵢ qty) in
    let total = floor_zero (p.effective *ᵢ qty) in
    record {
      is_ok = ok;
      subtotal = subtotal;
      discounts = floor_zero (subtotal -ᵢ total);
      total = total;
    }

-- What `aggregateVendorGroups` adds up over the lines that are in order.
pub record Sums : Type 0 where
  pub subtotal : ℤ
  pub discounts : ℤ
  pub has_ok : Bool

abbrev pub add_line : Line → Sums → Sums
add_line l s = if not l.is_ok then s else record {
  subtotal = s.subtotal +ᵢ l.subtotal;
  discounts = s.discounts +ᵢ l.discounts;
  has_ok = true;
}

unfoldable pub add_lines : List Line → Sums → Sums
add_lines [] s = s
add_lines (l ∷ ls) s = add_lines ls (add_line l s)

-- `models.CartVendorGroup`, its money and whether it is in order
pub record Group : Type 0 where
  pub is_ok : Bool
  pub subtotal : ℤ
  pub line_discounts : ℤ
  pub promo_discount : ℤ
  pub discounts : ℤ
  pub total : ℤ

-- The promotion's part: what is left of the subtotal at most.
abbrev pub promo_part : Option ℤ → ℤ → ℤ → ℤ
promo_part none subtotal line_discounts = pos 0
promo_part (some amount) subtotal line_discounts =
    if ltb_ℤ (pos 0) amount
    then cap (floor_zero (subtotal -ᵢ line_discounts)) (floor_zero amount)
    else pos 0

abbrev pub group_of : Option ℤ → Sums → Group
group_of promo s =
    let subtotal = floor_zero s.subtotal in
    let line_discounts = cap subtotal (floor_zero s.discounts) in
    let promo_discount = promo_part promo subtotal line_discounts in
    let discounts = cap subtotal (floor_zero (line_discounts +ᵢ promo_discount)) in
    record {
      is_ok = s.has_ok;
      subtotal = subtotal;
      line_discounts = line_discounts;
      promo_discount = promo_discount;
      discounts = discounts;
      total = floor_zero (subtotal -ᵢ discounts);
    }

-- `aggregateVendorGroups`, of one vendor's lines
unfoldable pub aggregate_vendor_group : Option ℤ → List Line → Group
unfolding add_lines
aggregate_vendor_group promo ls =
    group_of promo (add_lines ls (record { subtotal = pos 0; discounts = pos 0; has_ok = false }))
