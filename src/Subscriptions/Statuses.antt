-- ===== src/Subscriptions/Statuses.antt =====
-- The statuses of subscriptions as texts: the program's and Square's.

use packfinderz_backend.Prelude.{
  if◌then◌else◌, none, true, arith, ◌↔◌, ◌≡◌, refl, sym, ap, ◌∙◌, Bool, false, not, ◌||◌, some,
  List, [], ◌∷◌,
}
use packfinderz_backend.Enums.{SubscriptionStatus-discrete, SubscriptionStatus}
use packfinderz_backend.Text.{text_eq-eq, to_lower, text_eq, codes, parse_among_sound}
use packfinderz_backend.Store.Tables.{Text}
use packfinderz_backend.Subscriptions.Mapper.{
  status_of_name, status_or_active, status_text, subscription_statuses, parse_subscription_status,
  is_active_status, normalize_square_status, square_status_aliases, map_square_status,
}

status_parses : (s : SubscriptionStatus) → parse_subscription_status (status_text s) ≡ some s
unfolding parse_subscription_status status_text
status_parses SubscriptionStatus.trialing = refl
status_parses SubscriptionStatus.active = refl
status_parses SubscriptionStatus.past_due = refl
status_parses SubscriptionStatus.canceled = refl
status_parses SubscriptionStatus.incomplete = refl
status_parses SubscriptionStatus.incomplete_expired = refl
status_parses SubscriptionStatus.unpaid = refl
status_parses SubscriptionStatus.paused = refl

parse_sound :
    (t : Text) (s : SubscriptionStatus) → parse_subscription_status t ≡ some s → status_text s ≡ t
unfolding parse_subscription_status
parse_sound t s e = parse_among_sound status_text subscription_statuses t e

-- A text is read as a status exactly if it is the text of that status.
pub parse_subscription_status_lem :
    (t : Text) (s : SubscriptionStatus)
    → (parse_subscription_status t ≡ some s) ↔ (status_text s ≡ t)
parse_subscription_status_lem t s =
    (parse_sound t s, λ e. ap parse_subscription_status (sym e) ∙ status_parses s)

abbrev spelled : List Text → Text → Bool
spelled [] t = false
spelled (x ∷ xs) t = text_eq x t || spelled xs t

abbrev stopped : List Text
stopped = codes "canceled" ∷ codes "paused" ∷ []

-- The names of Square's statuses that end or stop a subscription.
abbrev pub stops : Text → Bool
stops t =
    spelled
      (codes "DEACTIVATED"
        ∷ codes "COMPLETED"
        ∷ codes "CANCELING"
        ∷ codes "CANCELLING"
        ∷ codes "CANCELLED"
        ∷ codes "SUSPENDED"
        ∷ [])
      t
    || spelled stopped (to_lower t)

-- The two tables, with a Boolean for each comparison.
by_comparisons :
    (a1 a2 a3 a4 a5 a6 a7 a8 p1 p2 p3 p4 p5 p6 p7 p8 : Bool)
    → (a1 ≡ true
        → (a3 || (a4 || (a5 || (a6 || (a7 || (a8 || false)))))) || (p4 || (p8 || false)) ≡ false)
    → (a2 ≡ true
        → (a3 || (a4 || (a5 || (a6 || (a7 || (a8 || false)))))) || (p4 || (p8 || false)) ≡ false)
    → (p1 ≡ true → p4 || (p8 || false) ≡ false)
    → (p2 ≡ true → p4 || (p8 || false) ≡ false)
    → (p3 ≡ true → p4 || (p8 || false) ≡ false)
    → (p5 ≡ true → p4 || (p8 || false) ≡ false)
    → (p6 ≡ true → p4 || (p8 || false) ≡ false)
    → (p7 ≡ true → p4 || (p8 || false) ≡ false)
    → is_active_status
        (elim (if a1
          then some SubscriptionStatus.trialing
          else if a2
          then some SubscriptionStatus.trialing
          else if a3
          then some SubscriptionStatus.canceled
          else if a4
          then some SubscriptionStatus.canceled
          else if a5
          then some SubscriptionStatus.canceled
          else if a6
          then some SubscriptionStatus.canceled
          else if a7
          then some SubscriptionStatus.canceled
          else if a8
          then some SubscriptionStatus.paused
          else none) [
            | some s ↦ s
            | none ↦ status_or_active (
                if p1
                then some SubscriptionStatus.trialing
                else if p2
                then some SubscriptionStatus.active
                else if p3
                then some SubscriptionStatus.past_due
                else if p4
                then some SubscriptionStatus.canceled
                else if p5
                then some SubscriptionStatus.incomplete
                else if p6
                then some SubscriptionStatus.incomplete_expired
                else if p7
                then some SubscriptionStatus.unpaid
                else if p8
                then some SubscriptionStatus.paused
                else none)
          ])
      ≡ not ((a3 || (a4 || (a5 || (a6 || (a7 || (a8 || false)))))) || (p4 || (p8 || false)))
unfolding SubscriptionStatus-discrete
by_comparisons a1 a2 a3 a4 a5 a6 a7 a8 p1 p2 p3 p4 p5 p6 p7 p8 h1 h2 h3 h4 h5 h6 h7 h8 =
    ground arith

-- A test that fails on a text fails on one that is equal to it.
unlike : (test : Text → Bool) (s t : Text) → text_eq s t ≡ true → test s ≡ false → test t ≡ false
unlike test s t hit miss = ap test (sym (text_eq-eq s t hit)) ∙ miss

status_of_name-stops : (name : Text) → is_active_status (status_of_name name) ≡ not (stops name)
unfolding status_of_name square_status_aliases parse_subscription_status status_text
    SubscriptionStatus-discrete
status_of_name-stops [] = refl
status_of_name-stops (c ∷ cs) =
    by_comparisons (text_eq (codes "PENDING") (c ∷ cs)) (text_eq (codes "TRIAL") (c ∷ cs))
      (text_eq (codes "DEACTIVATED") (c ∷ cs)) (text_eq (codes "COMPLETED") (c ∷ cs))
      (text_eq (codes "CANCELING") (c ∷ cs)) (text_eq (codes "CANCELLING") (c ∷ cs))
      (text_eq (codes "CANCELLED") (c ∷ cs)) (text_eq (codes "SUSPENDED") (c ∷ cs))
      (text_eq (codes "trialing") (to_lower (c ∷ cs)))
      (text_eq (codes "active") (to_lower (c ∷ cs)))
      (text_eq (codes "past_due") (to_lower (c ∷ cs)))
      (text_eq (codes "canceled") (to_lower (c ∷ cs)))
      (text_eq (codes "incomplete") (to_lower (c ∷ cs)))
      (text_eq (codes "incomplete_expired") (to_lower (c ∷ cs)))
      (text_eq (codes "unpaid") (to_lower (c ∷ cs))) (text_eq (codes "paused") (to_lower (c ∷ cs)))
      (λ hit. unlike stops (codes "PENDING") (c ∷ cs) hit refl)
      (λ hit. unlike stops (codes "TRIAL") (c ∷ cs) hit refl)
      (λ hit. unlike (spelled stopped) (codes "trialing") (to_lower (c ∷ cs)) hit refl)
      (λ hit. unlike (spelled stopped) (codes "active") (to_lower (c ∷ cs)) hit refl)
      (λ hit. unlike (spelled stopped) (codes "past_due") (to_lower (c ∷ cs)) hit refl)
      (λ hit. unlike (spelled stopped) (codes "incomplete") (to_lower (c ∷ cs)) hit refl)
      (λ hit. unlike (spelled stopped) (codes "incomplete_expired") (to_lower (c ∷ cs)) hit refl)
      (λ hit. unlike (spelled stopped) (codes "unpaid") (to_lower (c ∷ cs)) hit refl)

-- A subscription is active unless Square's status, trimmed, in upper case and with underscores, is
-- one that stops it: any status that is not known counts as active, also an empty one.
pub is_active-map_square_status :
    (raw : Text)
    → is_active_status (map_square_status raw) ≡ not (stops (normalize_square_status raw))
unfolding map_square_status
is_active-map_square_status raw = status_of_name-stops (normalize_square_status raw)
