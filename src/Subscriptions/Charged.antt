-- ===== src/Subscriptions/Charged.antt =====
-- What `Create` has asked of Square and stored, however it ends.
use packfinderz_backend.Prelude.{false, Option}
use packfinderz_backend.Store.Tx.{M}
use packfinderz_backend.Subscriptions.{of_store}
use packfinderz_backend.Subscriptions.Service.{only_active}
use packfinderz_backend.Subscriptions.Kept.{Active}
use packfinderz_backend.Prelude.{◌≡◌, ◌⊎◌, Bool, true, some}
use packfinderz_backend.Errors.{Code, Error, coded, Result, ok, err}
use packfinderz_backend.Store.Tables.{
  World, Uuid, Text, Subscription, SquareSubscription, SquareCall, SquareAnswer,
}
use packfinderz_backend.Store.Tx.{Env}
use packfinderz_backend.Subscriptions.Create.{create}
use packfinderz_backend.Subscriptions.Kept.{Ended}
use packfinderz_backend.Subscriptions.Followed.{answer, asked}

abbrev Fails : {A : Type 0} → Result A → Type 0
Fails r = (e : Error) × (r ≡ err e)

module _ (env : Env) (k : Uuid) (price customer method : Text) (w : World) where
  abbrev pub creation : SquareCall
  creation = SquareCall.create customer price method k

  abbrev pub fetch : Text → SquareCall
  fetch id = SquareCall.get id (some k) price true

  -- After the subscription is made: it is fetched and what is fetched is kept or canceled; or
  -- fetching it fails and it is canceled; or Square has none under the identifier it gave.
  abbrev pub Fetched : SquareSubscription → Result (Subscription × Bool) → World → Type 0
  Fetched made r v =
      let u = asked (fetch made.id) (asked creation w) in
      ((fresh : SquareSubscription) × (answer env (fetch made.id) (asked creation w)
          ≡ SquareAnswer.found fresh)
        × Ended env k fresh.id u r v)
      ⊎ (Fails r × (v ≡ asked (SquareCall.cancel made.id) u))
      ⊎ ((answer env (fetch made.id) (asked creation w) ≡ SquareAnswer.nothing) × Fails r × (v ≡ u))

  abbrev pub Subscribed : Result (Subscription × Bool) → World → Type 0
  Subscribed r v =
      ((made : SquareSubscription) × (answer env creation w ≡ SquareAnswer.found made)
        × Fetched made r v)
      ⊎ (((made : SquareSubscription) → ¬ (answer env creation w ≡ SquareAnswer.found made))
          × Fails r
          × (v ≡ asked creation w))

module _ {B : Type 0} (P : Result B × World → Type 0) (w : World) where
  module _ {A : Type 0} (f : A → M B) where
    abbrev next : Result A × World → Result B × World
    next p = elim p.0 [ ok a ↦ f a p.1 | err e ↦ (err e, p.1) ]

module _ (env : Env) (k : Uuid) (w : World) where
  found_active : Bool → Result (Option Subscription)
  found_active true = err (coded Code.dependency)
  found_active false = ok (only_active (of_store k w.tables.subscriptions))

  -- `Create` that asks nothing: it fails, or the store has an active subscription, which is given.
  abbrev pub Unasked : Result (Subscription × Bool) → World → Type 0
  Unasked r v =
      (v ≡ w) × (Fails r ⊎ ((old : Subscription) × (r ≡ ok (old, false)) × Active k old w))
