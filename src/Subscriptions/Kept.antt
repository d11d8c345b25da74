-- ===== src/Subscriptions/Kept.antt =====
-- What becomes of a subscription that Square has made: it is stored, or its cancelation is asked.
use packfinderz_backend.Subscriptions.Flags.{
  update_subscription_active-Post, flag_written, only_active_lem,
}
use packfinderz_backend.Errors.{Code}
use packfinderz_backend.Store.Tx.{◌>>◌, not_found_or, pure, map_error, wrapped}
use packfinderz_backend.Store.Rows.{find-append}
use packfinderz_backend.Store.Post.{
  pure-Post, gets-Post, or_raise-Post, map_error-Post, bind-Post, choose-Post,
}
use packfinderz_backend.Subscriptions.{set_subscriptions}
use packfinderz_backend.Subscriptions.Mapper.{build_subscription}
use packfinderz_backend.Prelude.{refl, List}
use packfinderz_backend.Errors.{driver}
use packfinderz_backend.Store.Post.{Post, call-Post}
use packfinderz_backend.Subscriptions.{is_taken}
use packfinderz_backend.Subscriptions.Service.{only_active, lookup_subscription, find_active}
use packfinderz_backend.Subscriptions.Create.{create_unless, Persisted, create_in_tx}
use packfinderz_backend.Prelude.{Option}
use packfinderz_backend.Licenses.{find_store}
use packfinderz_backend.Prelude.{◌≡◌, ◌⊎◌, Bool, true, false, none, some, [], ◌∷◌, ◌++◌, arith}
use packfinderz_backend.Errors.{Result, ok, err}
use packfinderz_backend.Store.Tables.{
  World, Uuid, Text, StoreRow, Subscription, SquareSubscription, SquareCall,
}
use packfinderz_backend.Store.Rows.{find}
use packfinderz_backend.Store.Tx.{◌>>=◌, Call, Env, raise, or_raise, call}
use packfinderz_backend.Store.Silent.{
  Silent, pure-Silent, gets-Silent, call-Silent, map_error-Silent, bind-Silent,
}
use packfinderz_backend.Subscriptions.{
  of_store, find_subscription, create_subscription, update_subscription_active,
}
use packfinderz_backend.Subscriptions.Mapper.{is_active_status}

module _ (env : Env) where
  lookup-Silent : (k : Uuid) → Silent (lookup_subscription env k)
  unfolding lookup_subscription find_subscription
  lookup-Silent k = map_error-Silent _ _ (call-Silent env _ _ (gets-Silent _))

  find_active-Silent : (k : Uuid) → Silent (find_active env k)
  unfolding find_active
  find_active-Silent k = bind-Silent _ _ (lookup-Silent k) λ sub. pure-Silent _

  create_subscription-Silent : (sub : Subscription) → Silent (create_subscription env sub)
  unfolding create_subscription
  create_subscription-Silent sub = call-Silent env _ _ (record { same = λ w. ground arith })

  pub update_subscription_active-Silent :
      (k : Uuid) (active : Bool) → Silent (update_subscription_active env k active)
  unfolding update_subscription_active call raise
  update_subscription_active-Silent k active = record { same = λ w. ground arith }

  find_store-Silent : (k : Uuid) → Silent (find_store env k)
  unfolding find_store call or_raise
  find_store-Silent k = record { same = λ w. ground arith }

  module _ (store_id : Uuid) (square_sub : SquareSubscription) (price customer method : Text) where
    create_unless-Silent :
        (active : Option Subscription)
        → Silent (create_unless env store_id square_sub price customer method active)
    unfolding create_unless
    create_unless-Silent (some sub) = pure-Silent _
    create_unless-Silent none = bind-Silent _ _ (create_subscription-Silent _) λ sub.
        bind-Silent _ _ (map_error-Silent _ _ (find_store-Silent store_id)) λ store.
          bind-Silent _ _ (map_error-Silent _ _ (update_subscription_active-Silent store_id _))
            λ done. pure-Silent _

    pub create_in_tx-Silent : Silent (create_in_tx env store_id square_sub price customer method)
    unfolding create_in_tx
    create_in_tx-Silent = bind-Silent _ _ (find_active-Silent store_id) create_unless-Silent

-- The row is the store's, with Square's identifier, and the store's flag is what its status says.
pub record Stored (store_id : Uuid) (id : Text) (row : Subscription) (v : World) : Type 0 where
  pub found : of_store store_id v.tables.subscriptions ≡ some row
  pub square : row.square_subscription_id ≡ id
  pub flag :
      (s : StoreRow)
      → find (λ r. r.id) store_id v.tables.stores ≡ some s
      → s.subscription_active ≡ is_active_status row.status

-- An active subscription of the store in the world
pub record Active (store_id : Uuid) (sub : Subscription) (u : World) : Type 0 where
  pub found : of_store store_id u.tables.subscriptions ≡ some sub
  pub active : is_active_status sub.status ≡ true

abbrev pub Asked : Text → World → World → Type 0
Asked id u v = v.square ≡ u.square ++ SquareCall.cancel id ∷ []

module _ (env : Env) (store_id : Uuid) (id : Text) (u : World) where
  -- The result and the world that a subscription of Square's ends with, from the world `u`.
  abbrev pub Ended : Result (Subscription × Bool) → World → Type 0
  Ended (ok (row, true)) v = Stored store_id id row v × (v.square ≡ u.square)
  Ended (ok (row, false)) v = (v.tables ≡ u.tables) × Asked id u v × Active store_id row u
  Ended (err e) v =
      (v.tables ≡ u.tables)
      × (Asked id u v
          ⊎ ((sub : Subscription) × Active store_id sub u
              × (env.fails Call.commit ≡ true)
              × (v.square ≡ u.square)))

  abbrev pub Made : Persisted → World → Type 0
  Made (Persisted.created row) v = Stored store_id id row v
  Made (Persisted.skipped sub) v = (v.tables ≡ u.tables) × Active store_id sub u

taken_store :
    (row : Subscription) (rows : List Subscription)
    → is_taken row rows ≡ false
    → of_store row.store_id rows ≡ none
taken_store row rows h = ground arith

module _ (env : Env) (store_id : Uuid) (sub : SquareSubscription) (price customer method : Text)
    (u : World) where
  abbrev row : Subscription
  unfolding build_subscription
  row = record (build_subscription sub store_id price customer method) {
    id = env.fresh 2;
    created_at = env.now;
    updated_at = env.now;
  }

  abbrev with_row : World
  with_row = set_subscriptions (λ rows. rows ++ row ∷ []) u

  row_found :
      is_taken row u.tables.subscriptions ≡ false
      → of_store store_id with_row.tables.subscriptions ≡ some row
  unfolding build_subscription
  row_found h =
      let absent = taken_store row u.tables.subscriptions h in
      let appended = find-append (λ s. s.store_id) store_id u.tables.subscriptions (row ∷ []) in
      ground arith

  after_row-Post :
      is_taken row u.tables.subscriptions ≡ false
      → Post (Made env store_id sub.id u) (
          (do
            store ← map_error (not_found_or Code.not_found) (find_store env store_id)
            wrapped (update_subscription_active env store_id (is_active_status row.status))
            pure (Persisted.created row))
            with_row)
  unfolding find_store build_subscription
  after_row-Post untaken = bind-Post _ _ with_row (
      map_error-Post _ _ with_row (
        call-Post env _ _ with_row (
          or_raise-Post _ _ with_row λ store f. bind-Post _ _ with_row (
            map_error-Post _ _ with_row (
              update_subscription_active-Post env store_id _ with_row λ r g. pure-Post _ _ (record {
                found = row_found untaken;
                square = refl;
                flag = λ s h. flag_written store_id _ u.tables.stores h;
              }))))))

  create_unless-Post :
      (o : Option Subscription)
      → only_active (of_store store_id u.tables.subscriptions) ≡ o
      → Post (Made env store_id sub.id u) (create_unless env store_id sub price customer method o u)
  unfolding create_unless create_subscription
  create_unless-Post (some old) e =
      let both = only_active_lem (of_store store_id u.tables.subscriptions) old e in
      pure-Post _ u (refl, record { found = both.0; active = both.1 })
  create_unless-Post none e = bind-Post _ _ u (
      call-Post env _ _ u (
        choose-Post (is_taken row u.tables.subscriptions) (err driver, u) (ok row, with_row)
          (λ untaken. record { on = after_row-Post untaken }) (record { on = tt })))

  pub create_in_tx-Post :
      Post (Made env store_id sub.id u) (create_in_tx env store_id sub price customer method u)
  unfolding create_in_tx find_active lookup_subscription find_subscription
  create_in_tx-Post = bind-Post _ _ u (
      bind-Post _ _ u (
        map_error-Post _ _ u
          (call-Post env _ _ u (gets-Post _ u (pure-Post _ u (create_unless-Post _ refl))))))
