-- ===== src/Subscriptions/Mapper.antt =====
-- internal/subscriptions/mapper.go: what Square says of a subscription, as the row that is stored.
use packfinderz_backend.Prelude.{
  ℕ, ◌==◌, if◌then◌else◌, Bool, not, ◌&&◌, Option, some, none, List, [], ◌∷◌,
}
use packfinderz_backend.Enums.{SubscriptionStatus, is_subscription}
use packfinderz_backend.Text.{
  trim_space, to_upper, to_lower, replace_all, is_empty, is_blank, text_eq, codes, parse_among,
}
use packfinderz_backend.Store.Tables.{
  Uuid, Text, Metadata, Subscription, SquareAction, SquareItem, SquareSubscription,
}

-- The texts of pkg/enums/subscription_status.go
unfoldable pub status_text : SubscriptionStatus → Text
status_text SubscriptionStatus.trialing = codes "trialing"
status_text SubscriptionStatus.active = codes "active"
status_text SubscriptionStatus.past_due = codes "past_due"
status_text SubscriptionStatus.canceled = codes "canceled"
status_text SubscriptionStatus.incomplete = codes "incomplete"
status_text SubscriptionStatus.incomplete_expired = codes "incomplete_expired"
status_text SubscriptionStatus.unpaid = codes "unpaid"
status_text SubscriptionStatus.paused = codes "paused"

-- `validSubscriptionStatuses`
abbrev pub subscription_statuses : List SubscriptionStatus
subscription_statuses =
    SubscriptionStatus.trialing ∷ SubscriptionStatus.active ∷ SubscriptionStatus.past_due
    ∷ SubscriptionStatus.canceled ∷ SubscriptionStatus.incomplete
    ∷ SubscriptionStatus.incomplete_expired ∷ SubscriptionStatus.unpaid ∷ SubscriptionStatus.paused
    ∷ []

-- `ParseSubscriptionStatus`
unfoldable pub parse_subscription_status : Text → Option SubscriptionStatus
unfolding status_text
parse_subscription_status = parse_among status_text subscription_statuses

-- `IsActiveStatus`
abbrev pub is_active_status : SubscriptionStatus → Bool
is_active_status s =
    not (is_subscription s SubscriptionStatus.canceled)
    && not (is_subscription s SubscriptionStatus.paused)

-- `normalizeSquareStatus`
unfoldable pub normalize_square_status : Text → Text
unfolding trim_space
normalize_square_status raw =
    replace_all b' ' b'_' (replace_all b'-' b'_' (to_upper (trim_space raw)))

abbrev pub lookup_alias : List (Text × SubscriptionStatus) → Text → Option SubscriptionStatus
lookup_alias [] s = none
lookup_alias ((t, v) ∷ rest) s = if text_eq t s then some v else lookup_alias rest s

-- `squareStatusAliases`
unfoldable pub square_status_aliases : List (Text × SubscriptionStatus)
square_status_aliases =
    (codes "PENDING", SubscriptionStatus.trialing)
    ∷ (codes "TRIAL", SubscriptionStatus.trialing)
    ∷ (codes "DEACTIVATED", SubscriptionStatus.canceled)
    ∷ (codes "COMPLETED", SubscriptionStatus.canceled)
    ∷ (codes "CANCELING", SubscriptionStatus.canceled)
    ∷ (codes "CANCELLING", SubscriptionStatus.canceled)
    ∷ (codes "CANCELLED", SubscriptionStatus.canceled)
    ∷ (codes "SUSPENDED", SubscriptionStatus.paused)
    ∷ []

abbrev pub status_or_active : Option SubscriptionStatus → SubscriptionStatus
status_or_active none = SubscriptionStatus.active
status_or_active (some s) = s

-- `mapSquareStatus` of the normalized text
unfoldable pub status_of_name : Text → SubscriptionStatus
unfolding square_status_aliases parse_subscription_status
status_of_name normalized =
    if is_empty normalized
    then SubscriptionStatus.active
    else elim (lookup_alias square_status_aliases normalized) [
      | some s ↦ s
      | none ↦ status_or_active (parse_subscription_status (to_lower normalized))
    ]

-- `mapSquareStatus`, which never returns an error
unfoldable pub map_square_status : Text → SubscriptionStatus
unfolding normalize_square_status status_of_name
map_square_status raw = status_of_name (normalize_square_status raw)

-- `toTime` and `toTimePtr`
abbrev pub to_time : ℕ → Option ℕ
to_time ts = if ts == 0 then none else some ts

-- `periodFromSubscription`
abbrev pub item_period : List SquareItem → ℕ × ℕ
item_period [] = (0, 0)
item_period (i ∷ is) = (i.current_period_start, i.current_period_end)

abbrev pub period_from_subscription : SquareSubscription → ℕ × ℕ
period_from_subscription sub =
    if not (sub.start_date == 0) && not (sub.charged_through_date == 0)
    then (sub.start_date, sub.charged_through_date)
    else item_period sub.items

-- `scheduleFromActions`: the last pause and the last resumption that have a date.
unfoldable pub schedule_from : Option ℕ → Option ℕ → List SquareAction → Option ℕ × Option ℕ
unfolding trim_space
schedule_from pause resume [] = (pause, resume)
schedule_from pause resume (a ∷ rest) =
    let type = to_upper (trim_space a.type) in
    let given = not (a.effective_date == 0) in
    schedule_from
      (if given && text_eq type (codes "PAUSE") then to_time a.effective_date else pause)
      (if given && text_eq type (codes "RESUME") then to_time a.effective_date else resume) rest

unfoldable pub schedule_from_actions : List SquareAction → Option ℕ × Option ℕ
unfolding schedule_from
schedule_from_actions = schedule_from none none

-- `trimmedPtr`
unfoldable pub trimmed : Text → Option Text
unfolding trim_space
trimmed s = let t = trim_space s in if is_empty t then none else some t

abbrev no_metadata : Metadata
no_metadata = record {
  store_id = none;
  square_customer_id = none;
  square_payment_method_id = none;
  square_card_id = none;
  others = 0;
}

abbrev pub metadata_or_empty : Option Metadata → Metadata
metadata_or_empty none = no_metadata
metadata_or_empty (some m) = m

abbrev override : Text → Option Text → Option Text
override s old = if is_empty s then old else some s

-- `mergeMetadata` with the customer and the payment method, as `BuildSubscriptionFromSquare` calls it
abbrev pub merge_metadata : Option Metadata → Text → Text → Metadata
merge_metadata base customer method = record (metadata_or_empty base) {
  square_customer_id = override customer (metadata_or_empty base).square_customer_id;
  square_payment_method_id = override method (metadata_or_empty base).square_payment_method_id;
  square_card_id = override method (metadata_or_empty base).square_card_id;
}

-- `BuildSubscriptionFromSquare` of a subscription that is not nil
unfoldable pub build_subscription : SquareSubscription → Uuid → Text → Text → Text → Subscription
unfolding map_square_status schedule_from_actions trimmed is_blank
build_subscription sub store_id price customer method =
    let (start, end) = period_from_subscription sub in
    let (pause, resume) = schedule_from_actions sub.actions in
    record {
      id = 0;
      store_id = store_id;
      billing_plan_id = none;
      square_subscription_id = sub.id;
      square_customer_id = trimmed customer;
      square_card_id = trimmed method;
      status = map_square_status sub.status;
      price_id = if is_blank price then none else some price;
      paused_at = none;
      pause_effective_at = pause;
      resume_effective_at = resume;
      current_period_start = to_time start;
      current_period_end = to_time end;
      cancel_at_period_end = sub.cancel_at_period_end;
      canceled_at = to_time sub.canceled_at;
      metadata = merge_metadata sub.metadata customer method;
      created_at = 0;
      updated_at = 0;
    }

-- `if priceID != nil { target.PriceID = priceID }`
abbrev given_or : Option Text → Option Text → Option Text
given_or none old = old
given_or (some p) old = some p

-- `UpdateSubscriptionFromSquare` of a subscription that is not nil
unfoldable pub update_from_square :
    ℕ → Subscription → SquareSubscription → Option Text → Subscription
unfolding map_square_status schedule_from_actions
update_from_square now target sub price =
    let (start, end) = period_from_subscription sub in
    let (pause, resume) = schedule_from_actions sub.actions in
    let status = map_square_status sub.status in
    record target {
      square_subscription_id = sub.id;
      status = status;
      price_id = given_or price target.price_id;
      current_period_start = to_time start;
      current_period_end = to_time end;
      cancel_at_period_end = sub.cancel_at_period_end;
      canceled_at = to_time sub.canceled_at;
      metadata = metadata_or_empty sub.metadata;
      pause_effective_at = pause;
      resume_effective_at = resume;
      paused_at = if is_subscription status SubscriptionStatus.paused then some now else none;
    }
