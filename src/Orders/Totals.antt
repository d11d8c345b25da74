-- ===== src/Orders/Totals.antt =====
-- The money and the counts that `LineItemDecision` gives an order.
use packfinderz_backend.Prelude.{
  inr, inl, Bool-cases, ◌+◌, if◌then◌else◌, Bool, false, List, [], ◌∷◌, ◌≡◌, refl, arith, ℤ, pos,
  ◌+ℤ◌, ◌+ᵢ◌, wrap, count_if, ◌∙◌, ap, int_laws, wrap-wrap-add, sym,
}
use packfinderz_backend.Enums.{ItemStatus, is_item}
use packfinderz_backend.Store.Tables.{LineItem}
use packfinderz_backend.Orders.Decision.{Tally, tally, tally_from, tally_item}

-- The exact sum of the items that are not rejected.
abbrev pub kept_total : List LineItem → ℤ
kept_total [] = pos 0
kept_total (i ∷ is) =
    if is_item i.status ItemStatus.rejected then kept_total is else i.total_cents +ℤ kept_total is

abbrev pub is_pending : LineItem → Bool
is_pending i = is_item i.status ItemStatus.pending

abbrev pub is_rejected : LineItem → Bool
is_rejected i = is_item i.status ItemStatus.rejected

add_assoc : (a b c : ℤ) → a +ℤ b +ℤ c ≡ a +ℤ (b +ℤ c)
add_assoc a b c = grind int_laws

add_zero : (a : ℤ) → a +ℤ pos 0 ≡ a
add_zero a = grind int_laws

zero_add : (a : ℤ) → pos 0 +ℤ a ≡ a
zero_add a = grind int_laws

wrapped_sum : (a b c : ℤ) → wrap (wrap (a +ℤ b) +ℤ c) ≡ wrap (a +ℤ (b +ℤ c))
wrapped_sum a b c = wrap-wrap-add (a +ℤ b) c ∙ ap wrap (add_assoc a b c)

tally_from-pending :
    (is : List LineItem) (t : Tally)
    → (tally_from is t).pending ≡ t.pending + count_if is_pending is
unfolding tally_from
tally_from-pending [] t = omega arith
tally_from-pending (i ∷ is) t = ground (arith, tally_from-pending is (tally_item i t))

tally_from-rejected :
    (is : List LineItem) (t : Tally)
    → (tally_from is t).rejected ≡ t.rejected + count_if is_rejected is
unfolding tally_from
tally_from-rejected [] t = omega arith
tally_from-rejected (i ∷ is) t = ground (arith, tally_from-rejected is (tally_item i t))

tally_from-subtotal :
    (is : List LineItem) (t : Tally) (a : ℤ)
    → t.subtotal ≡ wrap a
    → (tally_from is t).subtotal ≡ wrap (a +ℤ kept_total is)
unfolding tally_from ◌+ᵢ◌
tally_from-subtotal [] t a e = e ∙ ap wrap (sym (add_zero a))
tally_from-subtotal (i ∷ is) t a e = elim (Bool-cases (is_rejected i)) [
  | inl gone ↦ rw gone (tally_from-subtotal is (tally_item i t) a (ground arith))
  | inr kept ↦ rw kept (
      tally_from-subtotal is (tally_item i t) (a +ℤ i.total_cents) (step kept)
      ∙ ap wrap (add_assoc a i.total_cents (kept_total is)))
]
  where
    step : is_rejected i ≡ false → (tally_item i t).subtotal ≡ wrap (a +ℤ i.total_cents)
    step kept = ground (arith, wrap-wrap-add a i.total_cents)

-- The loop counts the pending and the rejected items, and its subtotal is the sum of the totals of
-- the items that are not rejected, taken once to 64 bits, whatever overflows on the way.
pub tally_lem :
    (is : List LineItem)
    → (((tally is).subtotal ≡ wrap (kept_total is)) × ((tally is).pending ≡ count_if is_pending is))
      × ((tally is).rejected ≡ count_if is_rejected is)
unfolding tally wrap
tally_lem is = (
  (
    tally_from-subtotal is zero (pos 0) refl ∙ ap wrap (zero_add (kept_total is)),
    ground (arith, tally_from-pending is zero),
  ),
  ground (arith, tally_from-rejected is zero),
)
  where
    zero : Tally
    zero = record { subtotal = pos 0; pending = 0; rejected = 0 }
