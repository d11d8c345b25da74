-- ===== src/Subscriptions/Reported.antt =====
-- What a report of Square's through the webhook comes to.
-- The rows after a report: one more for the store, or the row of that subscription replaced.
use packfinderz_backend.Prelude.{ℕ, ◌≡◌, Option, none, some, List, [], ◌∷◌, ◌++◌}
use packfinderz_backend.Store.Tables.{World, Uuid, StoreRow, Subscription, SquareSubscription}
use packfinderz_backend.Store.Rows.{find}
use packfinderz_backend.Store.Tx.{◌>>=◌, Env}
use packfinderz_backend.Store.Post.{Post}
use packfinderz_backend.Subscriptions.{by_square_id, save_subscription}
use packfinderz_backend.Subscriptions.Mapper.{
  is_active_status, map_square_status, update_from_square,
}
use packfinderz_backend.Subscriptions.Webhook.{determine_price_id, determine_store_id, unless_empty}

abbrev pub Written :
    ℕ
    → SquareSubscription
    → Uuid
    → Option Subscription
    → List Subscription
    → List Subscription
    → Type 0
Written now sub store_id none old new =
    (row : Subscription) × (new ≡ old ++ row ∷ [])
    × (row.store_id ≡ store_id)
    × (row.square_subscription_id ≡ sub.id)
    × (row.status ≡ map_square_status sub.status)
Written now sub store_id (some stored) old new =
    new
    ≡ save_subscription
        (record (update_from_square now stored sub (unless_empty (determine_price_id sub.items))) {
          updated_at = now;
        })
        old

-- The store is there, with the flag that the status of Square's subscription calls for.
pub record Reported (sub : SquareSubscription) (store_id : Uuid) (v : World) : Type 0 where
  pub store : StoreRow
  pub found : find (λ s. s.id) store_id v.tables.stores ≡ some store
  pub flag : store.subscription_active ≡ is_active_status (map_square_status sub.status)

module _ (env : Env) (sub : SquareSubscription) where
  -- The store and the rows after a report, by the row that Square's identifier had before.
  abbrev pub SyncEnd : World → World → Type 0
  SyncEnd w v =
      let stored = by_square_id sub.id w.tables.subscriptions in
      (store_id : Uuid) × (determine_store_id stored sub.metadata ≡ some store_id)
      × Reported sub store_id v
      × Written env.now sub store_id stored w.tables.subscriptions v.tables.subscriptions
