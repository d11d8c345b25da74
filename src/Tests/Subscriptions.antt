-- ===== src/Tests/Subscriptions.antt =====
-- Runs of the subscription service, the webhook and the job that reconciles.
use packfinderz_backend.Subscriptions.Create.{CreateSubscriptionInput, create}
use packfinderz_backend.Prelude.{◌++◌}
use packfinderz_backend.Cron.SubscriptionReconcile.{reconcile_all}
use packfinderz_backend.Cron.AskedOnce.{requests, reconcile_all_lem}
use packfinderz_backend.Licenses.{find_store}
use packfinderz_backend.Prelude.{◌↔◌, ◌≡◌, refl, true, false, not, none, some, [], ◌∷◌}
use packfinderz_backend.Enums.{SubscriptionStatus-discrete, KycStatus, SubscriptionStatus}
use packfinderz_backend.Errors.{driver}
use packfinderz_backend.Text.{codes}
use packfinderz_backend.Store.Tables.{
  World, Subscription, SquareSubscription, SquareCall, Refusal, SquareAnswer,
}
use packfinderz_backend.Store.Tx.{◌>>=◌, call, with_tx, Env}
use packfinderz_backend.Subscriptions.{
  create_subscription, ask, find_subscription, update_subscription, update_subscription_active,
}
use packfinderz_backend.Subscriptions.Mapper.{
  status_text, parse_subscription_status, is_active_status, normalize_square_status,
  map_square_status,
}
use packfinderz_backend.Subscriptions.Create.{keep_or_cancel}
use packfinderz_backend.Subscriptions.Change.{cancel}
use packfinderz_backend.Subscriptions.Statuses.{
  parse_subscription_status_lem, stops, is_active-map_square_status,
}
use packfinderz_backend.Subscriptions.Kept.{Ended}
use packfinderz_backend.Subscriptions.Ended.{keep_or_cancel_lem}
use packfinderz_backend.Tests.Data.{quiet, a_store, pending_world}

abbrev square_active : SquareSubscription
square_active = record {
  id = codes "sq1";
  status = codes "ACTIVE";
  metadata = none;
  cancel_at_period_end = false;
  canceled_at = 0;
  charged_through_date = 3000000;
  start_date = 1000000;
  actions = [];
  items = [];
}

-- Square has the subscription and refuses to cancel it twice.
abbrev square_env : Env
square_env = record quiet {
  square = λ log c. elim c [
    | SquareCall.create customer price method store ↦ SquareAnswer.found square_active
    | SquareCall.get id store price actions ↦ SquareAnswer.found square_active
    | SquareCall.cancel id ↦ SquareAnswer.refused driver Refusal.cancel_scheduled
    | SquareCall.pause id price date ↦ SquareAnswer.nothing
    | SquareCall.resume id price ↦ SquareAnswer.nothing
    | SquareCall.delete_action id action ↦ SquareAnswer.nothing
  ];
}

abbrev a_subscription : Subscription
a_subscription = record {
  id = 40;
  store_id = 6;
  billing_plan_id = none;
  square_subscription_id = codes "sq1";
  square_customer_id = none;
  square_card_id = none;
  status = SubscriptionStatus.active;
  price_id = none;
  paused_at = none;
  pause_effective_at = none;
  resume_effective_at = none;
  current_period_start = none;
  current_period_end = some 3000000;
  cancel_at_period_end = false;
  canceled_at = none;
  metadata = record {
    store_id = none;
    square_customer_id = none;
    square_payment_method_id = none;
    square_card_id = none;
    others = 0;
  };
  created_at = 10;
  updated_at = 10;
}

abbrev subscribed_world : World
subscribed_world = record pending_world {
  tables = record (pending_world.tables) {
    stores = a_store 6 KycStatus.verified ∷ [];
    subscriptions = a_subscription ∷ [];
  };
}

-- A second cancelation puts the flag up again.
raised_again :
    (cancel square_env 6 subscribed_world).1.tables.stores
    ≡ record (a_store 6 KycStatus.verified) { subscription_active = true } ∷ []
unfolding cancel ◌>>=◌ find_subscription call SubscriptionStatus-discrete ask with_tx
    update_subscription update_subscription_active
raised_again = refl

parse_subscription_status_lem_example :
    (parse_subscription_status (codes "past_due") ≡ some SubscriptionStatus.past_due)
    ↔ (status_text SubscriptionStatus.past_due ≡ codes "past_due")
parse_subscription_status_lem_example =
    parse_subscription_status_lem (codes "past_due") SubscriptionStatus.past_due

is_active-map_square_status_example :
    is_active_status (map_square_status (codes " past-due"))
    ≡ not (stops (normalize_square_status (codes " past-due")))
is_active-map_square_status_example = is_active-map_square_status (codes " past-due")

keep_or_cancel_lem_example :
    let p = keep_or_cancel square_env 6 square_active [] [] [] pending_world in
    Ended square_env 6 square_active.id pending_world p.0 p.1
keep_or_cancel_lem_example = keep_or_cancel_lem square_env 6 square_active [] [] [] pending_world

reconcile_all_lem_example :
    (reconcile_all square_env (a_subscription ∷ a_subscription ∷ []) subscribed_world).1.square
    ≡ subscribed_world.square ++ requests (a_subscription ∷ a_subscription ∷ [])
reconcile_all_lem_example =
    reconcile_all_lem square_env (a_subscription ∷ a_subscription ∷ []) subscribed_world

abbrev an_input : CreateSubscriptionInput
an_input = record {
  square_customer_id = codes "cu";
  square_payment_method_id = codes "card";
  price_id = codes "plan";
}

-- The row is stored and nothing is canceled.
created_calls :
    (create square_env 6 an_input pending_world).1.square
    ≡ SquareCall.create (codes "cu") (codes "plan") (codes "card") 6
      ∷ SquareCall.get (codes "sq1") (some 6) (codes "plan") true
      ∷ []
unfolding create ◌>>=◌ find_subscription call ask with_tx create_subscription find_store
    update_subscription_active
created_calls = refl
