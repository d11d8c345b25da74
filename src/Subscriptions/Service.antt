-- ===== src/Subscriptions/Service.antt =====
-- internal/subscriptions/service.go: what its operations share.
use packfinderz_backend.Prelude.{Bool, true, false, not, Option, none, some, [], if◌then◌else◌}
use packfinderz_backend.Errors.{Code, coded}
use packfinderz_backend.Text.{is_empty}
use packfinderz_backend.Store.Tables.{
  Uuid, Text, Subscription, SquareSubscription, SquareCall, SquareAnswer,
}
use packfinderz_backend.Store.Tx.{
  Env, M, ⊤, not_found_or, pure, raise, fail, or_raise, map_error, wrapped, fail_if, ◌>>◌, with_tx,
  ◌>>=◌,
}
use packfinderz_backend.Subscriptions.{
  set_flag, find_subscription, update_subscription, update_subscription_active, ask,
}
use packfinderz_backend.Subscriptions.Mapper.{is_active_status, update_from_square}
use packfinderz_backend.Licenses.{find_store, save_store}

-- A row that counts as active
abbrev pub only_active : Option Subscription → Option Subscription
only_active none = none
only_active (some s) = if is_active_status s.status then some s else none

-- `resolvePriceID`
abbrev pub text_or_empty : Option Text → Text
text_or_empty none = []
text_or_empty (some t) = t

abbrev pub same_flag : Bool → Bool → Bool
same_flag true b = b
same_flag false b = not b

unfoldable pub answered : SquareAnswer → M (Option SquareSubscription)
answered (SquareAnswer.found sub) = pure (some sub)
answered SquareAnswer.nothing = pure none
answered (SquareAnswer.refused e why) = raise e

module _ (env : Env) where
  -- `findSubscription` and `findSubscriptionWithTx`
  unfoldable pub lookup_subscription : Uuid → M (Option Subscription)
  lookup_subscription store_id = wrapped (find_subscription env store_id)

  -- `findActive` and `findActiveWithTx`
  unfoldable pub find_active : Uuid → M (Option Subscription)
  unfolding lookup_subscription
  find_active store_id = do sub ← lookup_subscription store_id; pure (only_active sub)

  -- The answer of the client, with an error raised as it is
  unfoldable pub request : SquareCall → M (Option SquareSubscription)
  unfolding answered
  request c = ask env c >>= answered

  -- `cancelSquare`
  unfoldable pub cancel_square : Text → M ⊤
  unfolding request
  cancel_square id = do answer ← request (SquareCall.cancel id); pure tt

  -- The update of the stored row that `persistSquareUpdate` and `Cancel` begin with.
  unfoldable pub apply_square :
      Option Subscription
      → Option SquareSubscription
      → (Subscription → Subscription)
      → M Subscription
  unfolding update_from_square
  apply_square none square_sub change = fail Code.not_found
  apply_square (some stored) none change = fail Code.dependency
  apply_square (some stored) (some sub) change = do
    let row = change (update_from_square env.now stored sub stored.price_id)
    update_subscription env row
    pure row

  -- `persistSquareUpdate`
  unfoldable pub persist_square_update :
      Uuid → Option SquareSubscription → (Subscription → Subscription) → M ⊤
  unfolding apply_square lookup_subscription
  persist_square_update store_id square_sub change = with_tx env (do
    stored ← lookup_subscription store_id
    row ← apply_square stored square_sub change
    wrapped (update_subscription_active env store_id (is_active_status row.status)))

  -- `syncSquareSubscription`
  unfoldable pub sync_square_subscription : Uuid → Text → Option Text → M ⊤
  unfolding request persist_square_update
  sync_square_subscription store_id square_id price = do
    fail_if (is_empty square_id) Code.validation
    answer ← wrapped (request (SquareCall.get square_id (some store_id) (text_or_empty price) true))
    square_sub ← or_raise answer (coded Code.not_found)
    wrapped (persist_square_update store_id (some square_sub) (λ row. row))

  -- `ensureStoreFlag`
  unfoldable pub ensure_store_flag : Uuid → Bool → M ⊤
  ensure_store_flag store_id active = with_tx env (do
    store ← map_error (not_found_or Code.not_found) (find_store env store_id)
    if same_flag store.subscription_active active
        then pure tt
        else save_store env (set_flag active store))
