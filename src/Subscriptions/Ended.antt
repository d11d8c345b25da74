-- ===== src/Subscriptions/Ended.antt =====
-- How `Create` ends for a subscription that Square has made.
use packfinderz_backend.Prelude.{inr, Bool-cases}
use packfinderz_backend.Errors.{driver}
use packfinderz_backend.Store.Tables.{SquareSubscription}
use packfinderz_backend.Store.Tx.{Call, rollback, with_tx}
use packfinderz_backend.Store.Post.{Post}
use packfinderz_backend.Subscriptions.Service.{answered, request, cancel_square}
use packfinderz_backend.Subscriptions.Create.{
  create_in_tx, is_skipped, keep_or_cancel, Persisted, after_persist,
}
use packfinderz_backend.Subscriptions.Kept.{create_in_tx-Silent, Made, create_in_tx-Post}
use packfinderz_backend.Prelude.{inl, Bool, true, false}
use packfinderz_backend.Errors.{Code, Error, Result, err}
use packfinderz_backend.Store.Tables.{Uuid, Subscription}
use packfinderz_backend.Store.Tx.{⊤, fail, ◌>>◌}
use packfinderz_backend.Subscriptions.Kept.{Active, Asked, Ended}
use packfinderz_backend.Prelude.{◌≡◌, refl, [], ◌∷◌, ◌++◌, arith}
use packfinderz_backend.Errors.{ok}
use packfinderz_backend.Store.Tables.{World, Text, SquareCall}
use packfinderz_backend.Store.Tx.{Env, pure, map_error, wrapped, ◌>>=◌}
use packfinderz_backend.Subscriptions.{ask}

module _ (env : Env) (id : Text) where
  -- Whatever Square answers to it, a cancelation adds its request and does nothing else.
  pub cancel_square_lem :
      (v : World)
      → (wrapped (cancel_square env id) v).1
        ≡ record v { square = v.square ++ SquareCall.cancel id ∷ [] }
  unfolding cancel_square request ask ◌>>=◌ answered map_error
  cancel_square_lem v = ground arith

module _ (env : Env) (store_id : Uuid) (id : Text) (u : World) where
  -- What the result is, once the cancelation is asked in a world with the tables of `u`.
  then_return :
      (row : Subscription) (r : Result ⊤) (v : World)
      → v.tables ≡ u.tables
      → Asked id u v
      → Active store_id row u
      → let p = ((λ x. (r, v)) >> pure {A = Subscription × Bool} (row, false)) u in
        Ended env store_id id u p.0 p.1
  unfolding ◌>>=◌ pure
  then_return row (ok t) v same asked active = (same, asked, active)
  then_return row (err e) v same asked active = (same, inl asked)

  then_fail :
      (r : Result ⊤) (v : World)
      → v.tables ≡ u.tables
      → Asked id u v
      → let p = ((λ x. (r, v)) >> fail {A = Subscription × Bool} Code.dependency) u in
        Ended env store_id id u p.0 p.1
  unfolding ◌>>=◌ fail
  then_fail (ok t) v same asked = (same, inl asked)
  then_fail (err e) v same asked = (same, inl asked)

  module _ (v : World) (same : v.tables ≡ u.tables) (silent : v.square ≡ u.square) where
    after_skipped :
        (row : Subscription)
        → Active store_id row u
        → let p = after_persist env id true (ok (Persisted.skipped row)) v in
          Ended env store_id id u p.0 p.1
    unfolding after_persist ◌>>=◌
    after_skipped row active =
        let moved = cancel_square_lem env id v in
        let (r, v') = wrapped (cancel_square env id) v in
        then_return row r v' (ground arith) (ground arith) active

    after_error :
        (e : Error)
        → let p = after_persist env id false (err e) v in Ended env store_id id u p.0 p.1
    unfolding after_persist ◌>>=◌
    after_error e =
        let moved = cancel_square_lem env id v in
        let (r, v') = wrapped (cancel_square env id) v in
        then_fail r v' (ground arith) (ground arith)

  persisted : Result Persisted → World → Result (Subscription × Bool) × World
  persisted r v =
      let run = with_tx env (λ w. (r, v)) u in
      after_persist env id (is_skipped env (λ w. (r, v)) u) run.0 run.1

  -- A case for each way in which the transaction ends.
  persisted-Ended :
      (r : Result Persisted) (v : World)
      → v.square ≡ u.square
      → Post (Made env store_id id u) (r, v)
      → let p = persisted r v in Ended env store_id id u p.0 p.1
  unfolding persisted with_tx is_skipped rollback after_persist fail pure
  persisted-Ended (err e) v silent made = elim (Bool-cases (env.fails Call.begin)) [
    | inl broken ↦ rw broken (after_error u refl refl driver)
    | inr begun ↦ rw begun (after_error (rollback u v) refl silent e)
  ]
  persisted-Ended (ok (Persisted.created row)) v silent made =
      elim (Bool-cases (env.fails Call.begin)) [
        | inl broken ↦ rw broken (after_error u refl refl driver)
        | inr begun ↦ elim (Bool-cases (env.fails Call.commit)) [
          | inl lost ↦ rw begun (rw lost (after_error (rollback u v) refl silent driver))
          | inr kept ↦ rw begun (rw kept (made.on, silent))
        ]
      ]
  persisted-Ended (ok (Persisted.skipped sub)) v silent made =
      elim (Bool-cases (env.fails Call.begin)) [
        | inl broken ↦ rw broken (after_error u refl refl driver)
        | inr begun ↦ elim (Bool-cases (env.fails Call.commit)) [
          | inl lost ↦ rw begun (rw lost (refl, inr (sub, made.on.1, lost, silent)))
          | inr kept ↦ rw begun (rw kept (after_skipped v made.on.0 silent sub made.on.1))
        ]
      ]

-- For a subscription that Square has just made, in any world that the others have come to: either
-- its row is stored for the store, with the flag that its status calls for, and nothing is asked
-- of Square; or no table is changed and its cancelation is asked of Square once; or no table is
-- changed and nothing is asked, which happens only where the store has an active subscription
-- already and the commit fails.
pub keep_or_cancel_lem :
    (env : Env) (store_id : Uuid) (sub : SquareSubscription) (price customer method : Text)
    (u : World)
    → let p = keep_or_cancel env store_id sub price customer method u in
      Ended env store_id sub.id u p.0 p.1
unfolding keep_or_cancel persisted is_skipped with_tx
keep_or_cancel_lem env store_id sub price customer method u =
    let silent = create_in_tx-Silent env store_id sub price customer method in
    let quiet = silent.same u in
    let made = create_in_tx-Post env store_id sub price customer method u in
    let (r, v) = create_in_tx env store_id sub price customer method u in
    persisted-Ended env store_id sub.id u r v quiet made
