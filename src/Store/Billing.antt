-- ===== src/Store/Billing.antt =====
-- The subscription rows of pkg/db/models, and what internal/subscriptions exchanges with Square
-- (square_types.go).
use packfinderz_backend.Prelude.{ℕ, Bool, Option, List}
use packfinderz_backend.Enums.{SubscriptionStatus}
use packfinderz_backend.Errors.{Error}
use packfinderz_backend.Store.Ids.{Uuid, Blob, Text}

-- The keys of a subscription's metadata that the program reads or writes. `store_id` is the
-- identifier that its text is read as, and none if it is missing or no identifier.
pub record Metadata : Type 0 where
  pub store_id : Option Uuid
  pub square_customer_id : Option Text
  pub square_payment_method_id : Option Text
  pub square_card_id : Option Text
  pub others : Blob

-- pkg/db/models/subscription.go; a time that is not set is none.
pub record Subscription : Type 0 where
  pub id : Uuid
  pub store_id : Uuid
  pub billing_plan_id : Option Text
  pub square_subscription_id : Text
  pub square_customer_id : Option Text
  pub square_card_id : Option Text
  pub status : SubscriptionStatus
  pub price_id : Option Text
  pub paused_at : Option ℕ
  pub pause_effective_at : Option ℕ
  pub resume_effective_at : Option ℕ
  pub current_period_start : Option ℕ
  pub current_period_end : Option ℕ
  pub cancel_at_period_end : Bool
  pub canceled_at : Option ℕ
  pub metadata : Metadata
  pub created_at : ℕ
  pub updated_at : ℕ

-- `SquareSubscriptionAction`; a date of 0 is one that is not given.
pub record SquareAction : Type 0 where
  pub id : Text
  pub type : Text
  pub effective_date : ℕ

-- `SquareSubscriptionItem`, with the identifier of its price, empty if it has none
pub record SquareItem : Type 0 where
  pub current_period_start : ℕ
  pub current_period_end : ℕ
  pub price_id : Text

-- `SquareSubscription`; `items` is empty also where the list is nil.
pub record SquareSubscription : Type 0 where
  pub id : Text
  pub status : Text
  pub metadata : Option Metadata
  pub cancel_at_period_end : Bool
  pub canceled_at : ℕ
  pub charged_through_date : ℕ
  pub start_date : ℕ
  pub actions : List SquareAction
  pub items : List SquareItem

-- The requests of `SquareSubscriptionClient`: `create` with the customer, the price, the payment
-- method and the store of the metadata; `get` with the store of the metadata, the price and whether
-- actions are wanted; `pause` and `resume` with the price, and a pause with its date in seconds.
pub data SquareCall : Type 0 where
  create : Text → Text → Text → Uuid → SquareCall
  get : Text → Option Uuid → Text → Bool → SquareCall
  cancel : Text → SquareCall
  pause : Text → Text → ℕ → SquareCall
  resume : Text → Text → SquareCall
  delete_action : Text → Text → SquareCall

-- Why Square refused: the text of its error is looked into for two phrases.
pub data Refusal : Type 0 where
  pause_scheduled cancel_scheduled other_refusal : Refusal

-- An answer of the client: a subscription, none with no error, or an error.
pub data SquareAnswer : Type 0 where
  found : SquareSubscription → SquareAnswer
  nothing : SquareAnswer
  refused : Error → Refusal → SquareAnswer
