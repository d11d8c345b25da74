-- ===== src/Cron/SubscriptionReconcile.antt =====
-- internal/cron/subscription_reconcile_job.go: stored subscriptions are compared with Square's.
-- The first action of a type that has an identifier
use packfinderz_backend.Errors.{ok}
use packfinderz_backend.Prelude.{
  ℕ, Bool, true, false, not, ◌&&◌, ◌||◌, Option, none, some, List, [], ◌∷◌, leb, if◌then◌else◌,
}
use packfinderz_backend.Text.{trim_space, codes, is_blank, text_eq_fold}
use packfinderz_backend.Store.Tables.{
  Text, Subscription, SquareAction, SquareSubscription, SquareCall,
}
use packfinderz_backend.Store.Tx.{◌>>=◌, ◌>>◌, Env, M, ⊤, pure, with_tx}
use packfinderz_backend.Subscriptions.{
  find_where, is_some, list_subscriptions_for_reconciliation, find_subscription_by_square_id,
  update_subscription, update_subscription_active,
}
use packfinderz_backend.Subscriptions.Mapper.{to_time, update_from_square}
use packfinderz_backend.Subscriptions.Service.{request}
use packfinderz_backend.Cron.OrderTtl.{combine}

unfoldable pub pending_action : Text → List SquareAction → Option SquareAction
unfolding is_blank trim_space
pending_action type = find_where (λ a. not (is_blank a.id) && text_eq_fold (trim_space a.type) type)

-- `actionTime` of an action, if there is one
abbrev pub action_time : Option SquareAction → Option ℕ
action_time none = none
action_time (some a) = to_time a.effective_date

abbrev or_else : Option ℕ → Option ℕ → Option ℕ
or_else none old = old
or_else (some t) old = some t

-- `applyPendingActions`
unfoldable pub apply_pending_actions : List SquareAction → Subscription → Subscription
unfolding pending_action
apply_pending_actions actions row =
    let cancel = pending_action (codes "CANCEL") actions in
    let pause = pending_action (codes "PAUSE") actions in
    record row {
      cancel_at_period_end = is_some cancel || row.cancel_at_period_end;
      canceled_at = or_else (action_time cancel) row.canceled_at;
      pause_effective_at = or_else (action_time pause) row.pause_effective_at;
    }

abbrev pub is_over : ℕ → Option ℕ → Bool
is_over now none = false
is_over now (some t) = leb t now

-- `deriveStoreSubscriptionActive` of a subscription that is not nil
unfoldable pub derive_store_subscription_active : ℕ → SquareSubscription → Subscription → Bool
unfolding pending_action
derive_store_subscription_active now sub stored =
    if is_over now (action_time (pending_action (codes "CANCEL") sub.actions))
    then false
    else if is_over now (action_time (pending_action (codes "PAUSE") sub.actions))
    then false
    else elim (or_else (to_time sub.charged_through_date) stored.current_period_end) [
      | none ↦ text_eq_fold sub.status (codes "ACTIVE")
      | some t ↦ leb now t
    ]

module _ (env : Env) where
  -- The transaction's body after the look for the row.
  unfoldable pub apply_reconciled : SquareSubscription → Option Subscription → M ⊤
  unfolding update_from_square apply_pending_actions derive_store_subscription_active
  apply_reconciled sub none = pure tt
  apply_reconciled sub (some stored) = do
    let row =
        apply_pending_actions sub.actions (update_from_square env.now stored sub stored.price_id)
    update_subscription env row
    update_subscription_active env stored.store_id
        (derive_store_subscription_active env.now sub row)

  -- The body of the transaction of `reconcileSubscription`.
  unfoldable pub reconcile_in_tx : SquareSubscription → M ⊤
  unfolding apply_reconciled
  reconcile_in_tx sub = find_subscription_by_square_id env sub.id >>= apply_reconciled sub

  -- `reconcileSubscription`
  unfoldable pub reconcile_subscription : Subscription → M ⊤
  unfolding reconcile_in_tx is_blank request
  reconcile_subscription sub = if is_blank sub.square_subscription_id then pure tt else do
    answer ← request env (SquareCall.get sub.square_subscription_id none [] true)
    elim answer [ none ↦ pure tt | some square_sub ↦ with_tx env (reconcile_in_tx square_sub) ]

  -- The loop of `Run`, which goes on after an error
  unfoldable pub reconcile_all : List Subscription → M ⊤
  unfolding reconcile_subscription
  reconcile_all [] w = (ok tt, w)
  reconcile_all (s ∷ ss) w =
      let (r, v) = reconcile_subscription s w in
      let (r', u) = reconcile_all ss v in (combine r r', u)

  -- `Run`
  unfoldable pub run_subscription_reconcile : ℕ → ℕ → M ⊤
  unfolding reconcile_all
  run_subscription_reconcile limit lookback = do
    snapshot ← list_subscriptions_for_reconciliation env limit lookback
    reconcile_all snapshot
