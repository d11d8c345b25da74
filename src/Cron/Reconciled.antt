-- ===== src/Cron/Reconciled.antt =====
-- What the reconciliation of one subscription comes to.
use packfinderz_backend.Prelude.{◌≡◌, ◌⊎◌, true, none, some, []}
use packfinderz_backend.Text.{is_blank}
use packfinderz_backend.Store.Tables.{
  World, Subscription, SquareSubscription, SquareCall, SquareAnswer,
}
use packfinderz_backend.Store.Tx.{Env}
use packfinderz_backend.Store.Post.{Post}
use packfinderz_backend.Subscriptions.{by_square_id}
use packfinderz_backend.Subscriptions.Mapper.{update_from_square}
use packfinderz_backend.Subscriptions.Followed.{Saved, answer, asked}
use packfinderz_backend.Cron.SubscriptionReconcile.{
  apply_pending_actions, derive_store_subscription_active,
}

-- The request for a subscription that the job makes
abbrev pub job_request : Subscription → SquareCall
job_request s = SquareCall.get s.square_subscription_id none [] true

module _ (env : Env) where
  -- The stored row with Square's identifier is replaced by what the answer and its pending actions
  -- make of it, and the flag of its store is derived from both; without a row nothing is done.
  abbrev pub Applied : SquareSubscription → World → World → Type 0
  Applied sub w v =
      ((by_square_id sub.id w.tables.subscriptions ≡ none) × (v.tables ≡ w.tables))
      ⊎ ((old : Subscription) × (by_square_id sub.id w.tables.subscriptions ≡ some old)
          × (let row =
                apply_pending_actions sub.actions
                  (update_from_square env.now old sub old.price_id) in
              Saved env.now old.store_id row (derive_store_subscription_active env.now sub row)
                w.tables v))

  abbrev pub ReconcileEnd : Subscription → World → World → Type 0
  ReconcileEnd s w v =
      ((is_blank s.square_subscription_id ≡ true) × (v ≡ w))
      ⊎ ((answer env (job_request s) w ≡ SquareAnswer.nothing) × (v.tables ≡ w.tables))
      ⊎ ((sub : SquareSubscription) × (answer env (job_request s) w ≡ SquareAnswer.found sub)
          × Applied sub (asked (job_request s) w) v)
