-- ===== src/Subscriptions/Followed.antt =====
-- The store's flag and the stored row after an answer of Square's is taken over.
-- The row that is saved, and the flag of the store, which is there.
use packfinderz_backend.Subscriptions.Flags.{update_subscription_active-Post, flagged_lem}
use packfinderz_backend.Prelude.{◌∙◌, ◌++◌}
use packfinderz_backend.Store.Tables.{Tables}
use packfinderz_backend.Store.Post.{raise-Post, or_raise-Post, fail_if-Post, weaken-Post}
use packfinderz_backend.Subscriptions.{ask}
use packfinderz_backend.Subscriptions.Service.{
  answered, request, text_or_empty, lookup_subscription, persist_square_update,
  sync_square_subscription, apply_square,
}
use packfinderz_backend.Prelude.{ap, true, [], ◌∷◌}
use packfinderz_backend.Store.Tables.{Text, SquareCall, SquareAnswer}
use packfinderz_backend.Store.Post.{gets-Post, with_tx-Post}
use packfinderz_backend.Subscriptions.{find_subscription}
use packfinderz_backend.Subscriptions.Mapper.{is_active_status}
use packfinderz_backend.Prelude.{ℕ, ◌≡◌, refl, Bool, Option, none, some}
use packfinderz_backend.Store.Tables.{World, Uuid, StoreRow, Subscription, SquareSubscription}
use packfinderz_backend.Store.Rows.{find}
use packfinderz_backend.Store.Tx.{◌>>=◌, Env, wrapped}
use packfinderz_backend.Store.Post.{
  Post, pure-Post, fail-Post, map_error-Post, bind-Post, modify-Post, call-Post,
}
use packfinderz_backend.Subscriptions.{
  of_store, save_subscription, set_flag, update_subscription, update_subscription_active,
}
use packfinderz_backend.Subscriptions.Mapper.{update_from_square}

pub record Saved (now : ℕ) (k : Uuid) (row : Subscription) (active : Bool) (t : Tables) (v : World)
    : Type 0 where
  pub rows :
      v.tables.subscriptions ≡ save_subscription (record row { updated_at = now }) t.subscriptions
  pub store : StoreRow
  pub found : find (λ s. s.id) k t.stores ≡ some store
  pub flagged : find (λ s. s.id) k v.tables.stores ≡ some (set_flag active store)

-- The store has the row, which is replaced by what Square's answer and the change make of it; its
-- flag is what `active` says of that.
abbrev pub TakenOver :
    ℕ
    → Uuid
    → SquareSubscription
    → (Subscription → Subscription)
    → (Subscription → Bool)
    → Tables
    → World
    → Type 0
TakenOver now k sub change active t v =
    (old : Subscription) × (of_store k t.subscriptions ≡ some old)
    × (let row = change (update_from_square now old sub old.price_id) in
        Saved now k row (active row) t v)

module _ (env : Env) (k : Uuid) (sub : SquareSubscription) (change : Subscription → Subscription)
    (active : Subscription → Bool) (w : World) where
  -- The row of `o` is replaced and the flag is written.
  pub apply-Post :
      (o : Option Subscription)
      → ((old : Subscription) → o ≡ some old → of_store k w.tables.subscriptions ≡ some old)
      → Post
          (λ _ v. TakenOver env.now k sub change active w.tables v)
          ((do
            row ← apply_square env o (some sub) change
            wrapped (update_subscription_active env k (active row)))
            w)
  unfolding apply_square update_subscription
  apply-Post none e = bind-Post _ _ w (fail-Post _ w)
  apply-Post (some old) e = bind-Post _ _ w (
      bind-Post _ _ w (
        call-Post env _ _ w (
          modify-Post _ w (
            pure-Post _ _ (
              map_error-Post _ _ _ (
                update_subscription_active-Post env k _ _ λ r f. (
                  old,
                  e old refl,
                  record {
                    rows = refl;
                    store = r;
                    found = f;
                    flagged = flagged_lem k _ w.tables.stores r f;
                  },
                )))))))

-- What Square answers to a request in the world
abbrev pub answer : Env → SquareCall → World → SquareAnswer
answer env c w = env.square w.square c

abbrev pub asked : SquareCall → World → World
asked c w = record w { square = w.square ++ c ∷ [] }

module _ {Q : Option SquareSubscription → World → Type 0} where
  answered-Post :
      (a : SquareAnswer) (v : World)
      → ((s : SquareSubscription) → a ≡ SquareAnswer.found s → Q (some s) v)
      → (a ≡ SquareAnswer.nothing → Q none v)
      → Post Q (answered a v)
  unfolding answered
  answered-Post (SquareAnswer.found s) v q n = pure-Post _ v (q s refl)
  answered-Post SquareAnswer.nothing v q n = pure-Post _ v (n refl)
  answered-Post (SquareAnswer.refused e why) v q n = raise-Post e v

  pub request-Post :
      (env : Env) (c : SquareCall) (w : World)
      → ((s : SquareSubscription) → answer env c w ≡ SquareAnswer.found s → Q (some s) (asked c w))
      → (answer env c w ≡ SquareAnswer.nothing → Q none (asked c w))
      → Post Q (request env c w)
  unfolding request ask
  request-Post env c w q n =
      bind-Post _ _ w (record { on = answered-Post (answer env c w) (asked c w) q n })

module _ (env : Env) (k : Uuid) where
  pub persist_square_update-Post :
      (sub : SquareSubscription) (change : Subscription → Subscription) (w : World)
      → Post
          (λ _ v. TakenOver env.now k sub change (λ row. is_active_status row.status) w.tables v)
          (persist_square_update env k (some sub) change w)
  unfolding persist_square_update lookup_subscription find_subscription
  persist_square_update-Post sub change w = with_tx-Post env _ w (
      bind-Post _ _ w (
        map_error-Post _ _ w
          (call-Post env _ _ w (gets-Post _ w (apply-Post env k sub change _ w _ λ old e. e)))))

  abbrev pub Synced : Text → Option Text → World → World → Type 0
  Synced id price w v =
      (sub : SquareSubscription) × (answer env
          (SquareCall.get id (some k) (text_or_empty price) true) w
        ≡ SquareAnswer.found sub)
      × TakenOver env.now k sub (λ row. row) (λ row. is_active_status row.status) w.tables v

  pub sync_square_subscription-Post :
      (id : Text) (price : Option Text) (w : World)
      → Post (λ _ v. Synced id price w v) (sync_square_subscription env k id price w)
  unfolding sync_square_subscription
  sync_square_subscription-Post id price w = bind-Post _ _ w (
      fail_if-Post _ _ w λ given. bind-Post _ _ w (
        map_error-Post _ _ w (
          request-Post env _ w
            (λ sub e. bind-Post _ _ _ (
              or_raise-Post _ _ _ λ s same. map_error-Post _ _ _ (
                weaken-Post _
                  (λ _ v t. let eq : sub ≡ s = cc in (s, e ∙ ap SquareAnswer.found eq, t))
                  (persist_square_update-Post s (λ row. row) _))))
            (λ e. bind-Post _ _ _ (or_raise-Post none _ _ λ s f. cc)))))
