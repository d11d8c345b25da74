-- ===== src/Subscriptions/Create.antt =====
-- internal/subscriptions/service.go: `Create`.
use packfinderz_backend.Licenses.{find_store}
use packfinderz_backend.Prelude.{Bool, true, false, not, ◌&&◌, Option, none, some, ◌==◌}
use packfinderz_backend.Errors.{Code, driver, Result, ok, err}
use packfinderz_backend.Text.{trim_space, is_empty}
use packfinderz_backend.Store.Tables.{
  World, Uuid, Text, Subscription, SquareSubscription, SquareCall, SquareAnswer,
}
use packfinderz_backend.Store.Tx.{
  Call, Env, M, not_found_or, pure, raise, fail, map_error, wrapped, fail_if, ◌>>=◌, ◌>>◌, with_tx,
}
use packfinderz_backend.Subscriptions.{create_subscription, update_subscription_active, ask}
use packfinderz_backend.Subscriptions.Mapper.{is_active_status, build_subscription}
use packfinderz_backend.Subscriptions.Service.{find_active, cancel_square}

pub record CreateSubscriptionInput : Type 0 where
  pub square_customer_id : Text
  pub square_payment_method_id : Text
  pub price_id : Text

-- What the transaction of `Create` came to: a row, or another active one in its way.
pub data Persisted : Type 0 where
  created skipped : Subscription → Persisted

abbrev pub sets_skipped : Result Persisted → Bool
sets_skipped (ok (Persisted.created s)) = false
sets_skipped (ok (Persisted.skipped s)) = true
sets_skipped (err e) = false

module _ (env : Env) where
  -- The transaction of `Create` after the look for an active subscription.
  unfoldable pub create_unless :
      Uuid → SquareSubscription → Text → Text → Text → Option Subscription → M Persisted
  unfolding build_subscription
  create_unless store_id square_sub price customer method (some sub) = pure (Persisted.skipped sub)
  create_unless store_id square_sub price customer method none = do
    sub ← create_subscription env (build_subscription square_sub store_id price customer method)
    store ← map_error (not_found_or Code.not_found) (find_store env store_id)
    wrapped (update_subscription_active env store_id (is_active_status sub.status))
    pure (Persisted.created sub)

  -- The body of the transaction of `Create`.
  unfoldable pub create_in_tx : Uuid → SquareSubscription → Text → Text → Text → M Persisted
  unfolding find_active create_unless
  create_in_tx store_id square_sub price customer method =
      find_active env store_id >>= create_unless store_id square_sub price customer method

  -- The variable `skipped` after the transaction.
  unfoldable pub is_skipped : M Persisted → World → Bool
  is_skipped body w = not (env.fails Call.begin) && sets_skipped (body w).0

  -- `Create` after its transaction, with the identifier of Square's subscription and `skipped`.
  unfoldable pub after_persist : Text → Bool → Result Persisted → M (Subscription × Bool)
  unfolding cancel_square
  after_persist id skip (ok (Persisted.created sub)) = pure (sub, true)
  after_persist id skip (ok (Persisted.skipped sub)) =
      wrapped (cancel_square env id) >> pure (sub, false)
  after_persist id true (err e) = fail Code.dependency
  after_persist id false (err e) = wrapped (cancel_square env id) >> fail Code.dependency

  -- What `Create` does with a subscription that Square has made.
  unfoldable pub keep_or_cancel :
      Uuid → SquareSubscription → Text → Text → Text → M (Subscription × Bool)
  unfolding create_in_tx is_skipped after_persist
  keep_or_cancel store_id square_sub price customer method w =
      let body = create_in_tx store_id square_sub price customer method in
      let (r, v) = with_tx env body w in after_persist square_sub.id (is_skipped body w) r v

  -- `Create` after `square.Get`. Where Square's answer holds no subscription, the read of its
  -- identifier panics, and nothing more is done.
  unfoldable pub refreshed :
      Uuid → Text → Text → Text → Text → SquareAnswer → M (Subscription × Bool)
  unfolding keep_or_cancel
  refreshed store_id price customer method id (SquareAnswer.found fresh) =
      keep_or_cancel store_id fresh price customer method
  refreshed store_id price customer method id SquareAnswer.nothing = raise driver
  refreshed store_id price customer method id (SquareAnswer.refused e why) =
      wrapped (cancel_square env id) >> fail Code.dependency

  -- `Create` after `square.Create`; a missing subscription panics here too.
  unfoldable pub refresh : Uuid → Text → Text → Text → SquareAnswer → M (Subscription × Bool)
  unfolding refreshed
  refresh store_id price customer method (SquareAnswer.found made) =
      ask env (SquareCall.get made.id (some store_id) price true)
      >>= refreshed store_id price customer method made.id
  refresh store_id price customer method SquareAnswer.nothing = raise driver
  refresh store_id price customer method (SquareAnswer.refused e why) = fail Code.dependency

  -- `Create` from `square.Create` on.
  unfoldable pub subscribe : Uuid → Text → Text → Text → M (Subscription × Bool)
  unfolding refresh
  subscribe store_id price customer method =
      ask env (SquareCall.create customer price method store_id)
      >>= refresh store_id price customer method

  -- `Create` after the look for an active subscription.
  unfoldable pub subscribe_unless :
      Uuid → Text → Text → Text → Option Subscription → M (Subscription × Bool)
  unfolding subscribe
  subscribe_unless store_id price customer method (some old) = pure (old, false)
  subscribe_unless store_id price customer method none = subscribe store_id price customer method

  -- `Create`
  unfoldable pub create : Uuid → CreateSubscriptionInput → M (Subscription × Bool)
  unfolding subscribe_unless find_active trim_space
  create store_id input = do
    fail_if (store_id == 0) Code.validation
    fail_if (is_empty (trim_space input.square_customer_id)) Code.validation
    fail_if (is_empty (trim_space input.square_payment_method_id)) Code.validation
    fail_if (is_empty (trim_space input.price_id)) Code.validation
    existing ← find_active env store_id
    subscribe_unless store_id (trim_space input.price_id) (trim_space input.square_customer_id)
        (trim_space input.square_payment_method_id) existing
