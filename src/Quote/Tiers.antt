-- ===== src/Quote/Tiers.antt =====
-- The volume discount that a quantity gets.
use packfinderz_backend.Prelude.{Bool, true, Option, none, some, ℤ, leb_ℤ}
use packfinderz_backend.Quote.{Tier}

abbrev pub is_eligible : ℤ → Tier → Bool
is_eligible qty t = leb_ℤ t.min_qty qty

abbrev pub is_under : Option Tier → Tier → Bool
is_under none t = true
is_under (some s) t = leb_ℤ s.min_qty t.min_qty

abbrev pub none_or_eligible : ℤ → Option Tier → Bool
none_or_eligible qty none = true
none_or_eligible qty (some s) = is_eligible qty s
