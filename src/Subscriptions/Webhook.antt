-- ===== src/Subscriptions/Webhook.antt =====
-- internal/webhooks/square/service.go: what Square reports of subscriptions and invoices.
-- `SquareWebhookEvent` with the object of its data; of the invoice the subscription's identifier.
use packfinderz_backend.Licenses.{find_store, save_store}
use packfinderz_backend.Prelude.{false, Option, none, some, List, [], ◌∷◌, if◌then◌else◌}
use packfinderz_backend.Errors.{Code, coded}
use packfinderz_backend.Text.{trim_space, to_lower, has_prefix, is_empty, codes, is_blank}
use packfinderz_backend.Store.Tables.{
  Uuid, Text, Metadata, Subscription, SquareItem, SquareSubscription, SquareCall,
}
use packfinderz_backend.Store.Tx.{
  ◌>>=◌, Env, M, ⊤, not_found_or, pure, fail, or_raise, map_error, wrapped, fail_if, ◌>>◌, with_tx,
}
use packfinderz_backend.Subscriptions.{
  set_flag, find_subscription_by_square_id, create_subscription, update_subscription,
}
use packfinderz_backend.Subscriptions.Mapper.{
  is_active_status, metadata_or_empty, build_subscription, update_from_square,
}
use packfinderz_backend.Subscriptions.Service.{text_or_empty, same_flag, request}

pub record SquareWebhookEvent : Type 0 where
  pub type : Text
  pub object_id : Text
  pub subscription_id : Text
  pub subscription : Option SquareSubscription
  pub invoice : Option Text

-- The first of the texts that is not blank, trimmed, and the last one trimmed if there is none
unfoldable pub first_given : List Text → Text → Text
unfolding trim_space
first_given [] last_one = trim_space last_one
first_given (t ∷ ts) last_one =
    let trimmed = trim_space t in if is_empty trimmed then first_given ts last_one else trimmed

abbrev pub id_of : Option SquareSubscription → Text
id_of none = []
id_of (some s) = s.id

-- `subscriptionIDFromEvent`
unfoldable pub subscription_id_from_event : SquareWebhookEvent → Text
unfolding first_given
subscription_id_from_event e =
    first_given (id_of e.subscription ∷ e.subscription_id ∷ text_or_empty e.invoice ∷ [])
      e.object_id

-- `determinePriceID`
abbrev pub determine_price_id : List SquareItem → Text
determine_price_id [] = []
determine_price_id (i ∷ is) = i.price_id

-- `StoreIDFromMetadata`: none for each of its three errors
abbrev pub store_id_from_metadata : Option Metadata → Option Uuid
store_id_from_metadata none = none
store_id_from_metadata (some m) = m.store_id

-- `determineStoreID`
abbrev pub determine_store_id : Option Subscription → Option Metadata → Option Uuid
determine_store_id none m = store_id_from_metadata m
determine_store_id (some stored) m = some stored.store_id

-- `if priceID != "" { pricePtr = &priceID }`
abbrev pub unless_empty : Text → Option Text
unless_empty [] = none
unless_empty (c ∷ cs) = some (c ∷ cs)

module _ (env : Env) where
  -- The row that `syncSubscription` creates, or the one that it updates.
  unfoldable pub write_synced : Option Subscription → SquareSubscription → Uuid → M Subscription
  unfolding build_subscription update_from_square
  write_synced none sub store_id =
      let m = metadata_or_empty sub.metadata in
      create_subscription env (
        build_subscription sub store_id (determine_price_id sub.items)
          (text_or_empty m.square_customer_id) (text_or_empty m.square_payment_method_id))
  write_synced (some stored) sub store_id =
      let row =
        update_from_square env.now stored sub (unless_empty (determine_price_id sub.items)) in
      update_subscription env row >> pure row

  -- The body of the transaction of `syncSubscription`.
  unfoldable pub sync_in_tx : SquareSubscription → M ⊤
  unfolding write_synced
  sync_in_tx sub = do
    stored ← find_subscription_by_square_id env sub.id
    store_id ← or_raise (determine_store_id stored sub.metadata) (coded Code.validation)
    row ← write_synced stored sub store_id
    store ← map_error (not_found_or Code.not_found) (find_store env store_id)
    if same_flag store.subscription_active (is_active_status row.status)
        then pure tt
        else wrapped (save_store env (set_flag (is_active_status row.status) store))

  -- `syncSubscription`
  unfoldable pub sync_subscription : Option SquareSubscription → M ⊤
  unfolding sync_in_tx
  sync_subscription none = fail Code.validation
  sync_subscription (some sub) = with_tx env (sync_in_tx sub)

  -- The subscription that an event names, as Square has it now.
  unfoldable pub fetch_and_sync : SquareWebhookEvent → M ⊤
  unfolding sync_subscription subscription_id_from_event request
  fetch_and_sync e = do
    let id = subscription_id_from_event e
    fail_if (is_empty id) Code.validation
    sub ← wrapped (request env (SquareCall.get id none [] false))
    sync_subscription sub

  -- `handleSubscriptionEvent`
  unfoldable pub handle_subscription_event : SquareWebhookEvent → M ⊤
  unfolding fetch_and_sync is_blank
  handle_subscription_event e =
      if is_blank (id_of e.subscription) then fetch_and_sync e else sync_subscription e.subscription

  -- `HandleEvent` of an event; that of an invoice is fetched.
  unfoldable pub handle_event : SquareWebhookEvent → M ⊤
  unfolding handle_subscription_event trim_space
  handle_event e =
      let type = to_lower (trim_space e.type) in
      if has_prefix (codes "subscription.") type
      then handle_subscription_event e
      else if has_prefix (codes "invoice.") type
      then fetch_and_sync e
      else pure tt
