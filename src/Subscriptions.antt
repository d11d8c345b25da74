-- ===== src/Subscriptions.antt =====
-- Subscriptions of stores: internal/subscriptions, the repository of internal/billing that it
-- stands on, the webhook of internal/webhooks/square and the job that reconciles.
pub mod Mapper
pub mod Service
pub mod Create
pub mod Change
pub mod Statuses
pub mod Flags
pub mod Kept
pub mod Ended
pub mod Charged
pub mod Followed
pub mod Canceled
pub mod Reported
pub mod Webhook
use packfinderz_backend.Pages.{order_desc}
use packfinderz_backend.Enums.{SubscriptionStatus, is_subscription}
use packfinderz_backend.Licenses.{set_stores}
use packfinderz_backend.Prelude.{
  leb, not, ◌&&◌, ℕ, take, select, ◌-◌, Bool, true, false, ◌||◌, Option, none, some, List, [], ◌∷◌,
  ◌++◌, ◌==◌, if◌then◌else◌,
}
use packfinderz_backend.Errors.{record_not_found, driver, ok, err}
use packfinderz_backend.Text.{is_empty, text_eq}
use packfinderz_backend.Store.Tables.{
  World, Uuid, Text, StoreRow, Subscription, SquareCall, SquareAnswer,
}
use packfinderz_backend.Store.Rows.{find, update}
use packfinderz_backend.Store.Tx.{
  Call, update_store_flag, find_by_square_id, Env, M, ⊤, raise, gets, modify, call,
}

-- The first row that passes a test
abbrev pub find_where {ℓ} : {A : Type ℓ} → (A → Bool) → List A → Option A
find_where p [] = none
find_where p (x ∷ xs) = if p x then some x else find_where p xs

abbrev pub set_subscriptions : (List Subscription → List Subscription) → World → World
set_subscriptions f w = record w {
  tables = record (w.tables) { subscriptions = f w.tables.subscriptions };
}

abbrev pub of_store : Uuid → List Subscription → Option Subscription
of_store = find (λ s. s.store_id)

abbrev pub by_square_id : Text → List Subscription → Option Subscription
by_square_id id = find_where (λ s. text_eq s.square_subscription_id id)

abbrev pub is_some {ℓ} : {A : Type ℓ} → Option A → Bool
is_some none = false
is_some (some a) = true

-- A row with the identifier, the store or Square's identifier of the new one: each is unique.
abbrev pub is_taken : Subscription → List Subscription → Bool
is_taken row rows =
    is_some (find (λ s. s.id) row.id rows)
    || is_some (of_store row.store_id rows)
    || is_some (by_square_id row.square_subscription_id rows)

-- `Save`: an update of the row, and an insertion where there is none.
abbrev pub save_subscription : Subscription → List Subscription → List Subscription
save_subscription r rows = elim (find (λ s. s.id) r.id rows) [
  | some old ↦ update (λ s. s.id) r.id (λ s. r) rows
  | none ↦ rows ++ r ∷ []
]

abbrev pub set_flag : Bool → StoreRow → StoreRow
set_flag active r = record r { subscription_active = active }

-- The condition of `ListSubscriptionsForReconciliation`; of the statuses only `canceled` is not in
-- its list.
abbrev pub is_candidate : ℕ → Subscription → Bool
is_candidate cutoff s =
    not (is_empty s.square_subscription_id)
    && (not (is_subscription s.status SubscriptionStatus.canceled)
        || s.cancel_at_period_end
        || is_some s.pause_effective_at
        || (elim s.current_period_end [ none ↦ false | some t ↦ leb cutoff t ]))

module _ (env : Env) where
  -- `FindSubscription`: the newest of the store's, which has at most one.
  unfoldable pub find_subscription : Uuid → M (Option Subscription)
  find_subscription k =
      call env (Call.find_subscription k) (gets λ w. of_store k w.tables.subscriptions)

  -- `ListSubscriptionsForReconciliation`; of rows with one time, whose order the query leaves open,
  -- the one with the greater identifier comes first.
  unfoldable pub list_subscriptions_for_reconciliation : ℕ → ℕ → M (List Subscription)
  unfolding order_desc
  list_subscriptions_for_reconciliation limit lookback =
      let cutoff = env.now - (if lookback == 0 then 604800 else lookback) in
      call env Call.list_subscriptions (
        gets λ w. take (if limit == 0 then 250 else limit) (
          order_desc (λ s. record { created_at = s.updated_at; id = s.id })
            (select (is_candidate cutoff) w.tables.subscriptions)))

  -- `FindSubscriptionBySquareID`
  unfoldable pub find_subscription_by_square_id : Text → M (Option Subscription)
  find_subscription_by_square_id id =
      if is_empty id
      then raise record_not_found
      else call env Call.find_by_square_id (gets λ w. by_square_id id w.tables.subscriptions)

  -- The row with the identifier and the time that the database gives it.
  unfoldable pub create_subscription : Subscription → M Subscription
  create_subscription sub =
      let row = record sub { id = env.fresh 2; created_at = env.now; updated_at = env.now } in
      call env Call.create_subscription (λ w.
        if is_taken row w.tables.subscriptions
        then (err driver, w)
        else (ok row, set_subscriptions (λ rows. rows ++ row ∷ []) w))

  -- That a new identifier of Square's may be another row's is one more way to fail.
  unfoldable pub update_subscription : Subscription → M ⊤
  update_subscription sub =
      call env (Call.update_subscription sub.id)
        (modify (set_subscriptions (save_subscription (record sub { updated_at = env.now }))))

  -- `UpdateSubscriptionActiveWithTx`
  unfoldable pub update_subscription_active : Uuid → Bool → M ⊤
  update_subscription_active k active =
      if k == 0
      then raise driver
      else call env (Call.update_store_flag k) (λ w. elim (find (λ s. s.id) k w.tables.stores) [
        | none ↦ (err record_not_found, w)
        | some r ↦ (ok tt, set_stores (update (λ s. s.id) k (set_flag active)) w)
      ])

  -- A request to Square, which is made whatever becomes of it.
  unfoldable pub ask : SquareCall → M SquareAnswer
  ask c w = (ok (env.square w.square c), record w { square = w.square ++ c ∷ [] })
