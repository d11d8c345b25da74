-- ===== src/Subscriptions/Canceled.antt =====
-- What a cancelation comes to.
use packfinderz_backend.Subscriptions.Service.{same_flag}
use packfinderz_backend.Subscriptions.Change.{cancel}
use packfinderz_backend.Prelude.{Option, none, ◌++◌}
use packfinderz_backend.Licenses.{save_row}
use mathlib.Core.Path.{subst}
use packfinderz_backend.Prelude.{◌≡◌, refl, ◌⊎◌, Bool, true, false, some, List, [], ◌∷◌, arith}
use packfinderz_backend.Store.Tables.{
  World, Uuid, StoreRow, Subscription, SquareSubscription, SquareCall, SquareAnswer,
}
use packfinderz_backend.Store.Rows.{find, update}
use packfinderz_backend.Store.Tx.{Env}
use packfinderz_backend.Store.Post.{Post}
use packfinderz_backend.Subscriptions.{set_flag}
use packfinderz_backend.Subscriptions.Followed.{TakenOver, answer, asked, Synced}

replaced :
    (k : Uuid) (r : StoreRow) (rows : List StoreRow) (old : StoreRow)
    → r.id ≡ k
    → find (λ s. s.id) k rows ≡ some old
    → find (λ s. s.id) k (update (λ s. s.id) k (λ s. r) rows) ≡ some r
replaced k r [] old e f = cc
replaced k r (s ∷ rows) old e f = ground (arith, replaced k r rows old e)

by_found :
    (r : StoreRow) (rows : List StoreRow) (old : StoreRow)
    → find (λ s. s.id) r.id rows ≡ some old
    → (o : Option StoreRow) → o ≡ some old
    → find
        (λ s. s.id)
        r.id
        (elim o [ some x ↦ update (λ s. s.id) r.id (λ s. r) rows | none ↦ rows ++ r ∷ [] ])
      ≡ some r
by_found r rows old f none e = cc
by_found r rows old f (some x) e = replaced r.id r rows old refl f

saved_lem :
    (r : StoreRow) (rows : List StoreRow) (old : StoreRow)
    → find (λ s. s.id) r.id rows ≡ some old
    → find (λ s. s.id) r.id (save_row r rows) ≡ some r
saved_lem r rows old f = by_found r rows old f (find (λ s. s.id) r.id rows) f

pub saved_own :
    (k : Uuid) (active : Bool) (s : StoreRow) (rows : List StoreRow)
    → s.id ≡ k
    → find (λ x. x.id) k rows ≡ some s
    → find (λ x. x.id) k (save_row (set_flag active s) rows) ≡ some (set_flag active s)
saved_own k active s rows own f =
    subst
      (λ j.
        find (λ x. x.id) j rows ≡ some s
        → find (λ x. x.id) j (save_row (set_flag active s) rows) ≡ some (set_flag active s))
      own (saved_lem (set_flag active s) rows s) f

pub same_flag-eq : (a b : Bool) → same_flag a b ≡ true → a ≡ b
same_flag-eq a b h = ground arith

-- The store is there, and its flag is down.
pub record Unflagged (k : Uuid) (v : World) : Type 0 where
  pub store : StoreRow
  pub found : find (λ s. s.id) k v.tables.stores ≡ some store
  pub down : store.subscription_active ≡ false

module _ (env : Env) (k : Uuid) where
  -- The answer of Square to the cancelation is taken over with the flag down, or Square has said
  -- that a cancelation is ahead already, and the subscription is synchronized.
  abbrev pub CancelEnd : Subscription → World → World → Type 0
  CancelEnd old w v =
      ((sub : SquareSubscription) × (answer env (SquareCall.cancel old.square_subscription_id) w
          ≡ SquareAnswer.found sub)
        × TakenOver env.now k sub (λ row. row) (λ row. false) w.tables v)
      ⊎ Synced env k old.square_subscription_id old.price_id
          (asked (SquareCall.cancel old.square_subscription_id) w) v

  CancelLem : World → Option Subscription → World → Type 0
  CancelLem w o v =
      ((o ≡ none) × Unflagged k v) ⊎ ((old : Subscription) × (o ≡ some old) × CancelEnd old w v)
