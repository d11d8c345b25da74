-- ===== src/Subscriptions/Change.antt =====
-- internal/subscriptions/service.go: `Cancel`, `Pause`, `Resume` and `GetActive`.
use packfinderz_backend.Licenses.Service.{typed_or_dependency}
use packfinderz_backend.Licenses.Scheduler.{start_of_day}
use packfinderz_backend.Prelude.{
  ℕ, Bool, true, false, not, ◌&&◌, Option, none, some, List, ◌==◌, if◌then◌else◌,
}
use packfinderz_backend.Errors.{Code, coded}
use packfinderz_backend.Text.{
  trim_space, is_empty, text_eq, to_upper, codes, is_blank, text_eq_fold,
}
use packfinderz_backend.Store.Tables.{
  Uuid, Subscription, SquareAction, SquareSubscription, SquareCall, Refusal, SquareAnswer,
}
use packfinderz_backend.Store.Tx.{
  ◌>>◌, Env, M, ⊤, pure, raise, fail, or_raise, map_error, wrapped, fail_if, ◌>>=◌, with_tx,
}
use packfinderz_backend.Subscriptions.{find_where, update_subscription_active, ask}
use packfinderz_backend.Subscriptions.Service.{
  text_or_empty, lookup_subscription, find_active, request, apply_square, persist_square_update,
  sync_square_subscription, ensure_store_flag,
}

abbrev pub is_cancel_scheduled : Refusal → Bool
is_cancel_scheduled Refusal.cancel_scheduled = true
is_cancel_scheduled Refusal.pause_scheduled = false
is_cancel_scheduled Refusal.other_refusal = false

abbrev is_pause_scheduled : Refusal → Bool
is_pause_scheduled Refusal.pause_scheduled = true
is_pause_scheduled Refusal.cancel_scheduled = false
is_pause_scheduled Refusal.other_refusal = false

abbrev time_or : ℕ → Option ℕ → ℕ
time_or now none = now
time_or now (some t) = t

-- `pauseEffectiveDateFor`; the date is given to the day.
abbrev pub pause_effective_date_for : ℕ → SquareSubscription → Subscription → ℕ
pause_effective_date_for now live stored = start_of_day (
    if live.charged_through_date == 0
    then time_or now stored.current_period_end
    else live.charged_through_date)

-- `pendingPauseAction`
unfoldable pub pending_pause_action : List SquareAction → Option SquareAction
unfolding trim_space
pending_pause_action =
    find_where (λ a. not (is_empty a.id) && text_eq_fold (trim_space a.type) (codes "PAUSE"))

module _ (env : Env) where
  -- The body of the transaction of `Cancel`.
  unfoldable pub cancel_in_tx : Uuid → Option SquareSubscription → M ⊤
  unfolding find_active apply_square
  cancel_in_tx store_id square_sub = do
    stored ← find_active env store_id
    row ← apply_square env stored square_sub (λ row. row)
    wrapped (update_subscription_active env store_id false)

  -- `Cancel` after Square's answer.
  unfoldable pub cancel_answered : Uuid → Subscription → SquareAnswer → M ⊤
  unfolding cancel_in_tx sync_square_subscription
  cancel_answered store_id active (SquareAnswer.found sub) =
      wrapped (with_tx env (cancel_in_tx store_id (some sub)))
  cancel_answered store_id active SquareAnswer.nothing =
      wrapped (with_tx env (cancel_in_tx store_id none))
  cancel_answered store_id active (SquareAnswer.refused e why) =
      if is_cancel_scheduled why
      then sync_square_subscription env store_id active.square_subscription_id active.price_id
      else fail Code.dependency

  -- `Cancel` of an active subscription.
  unfoldable pub cancel_active : Uuid → Subscription → M ⊤
  unfolding cancel_answered
  cancel_active store_id active =
      ask env (SquareCall.cancel active.square_subscription_id) >>= cancel_answered store_id active

  -- `Cancel` after the look for an active subscription.
  unfoldable pub cancel_found : Uuid → Option Subscription → M ⊤
  unfolding cancel_active ensure_store_flag
  cancel_found store_id none = ensure_store_flag env store_id false
  cancel_found store_id (some sub) = cancel_active store_id sub

  -- `Cancel`
  unfoldable pub cancel : Uuid → M ⊤
  unfolding find_active cancel_found
  cancel store_id = do
    fail_if (store_id == 0) Code.validation
    active ← find_active env store_id
    cancel_found store_id active

  -- `Pause` of a subscription that Square has as active.
  unfoldable pub pause_live : Uuid → Subscription → SquareSubscription → M ⊤
  unfolding persist_square_update sync_square_subscription
  pause_live store_id sub live = do
    answer ← ask env (
        SquareCall.pause sub.square_subscription_id (text_or_empty sub.price_id)
          (pause_effective_date_for env.now live sub))
    elim answer [
      | SquareAnswer.found paused ↦
          persist_square_update env store_id (some paused)
            (λ row. record row { paused_at = some env.now })
      | SquareAnswer.nothing ↦ persist_square_update env store_id none (λ row. row)
      | SquareAnswer.refused e why ↦
          if is_pause_scheduled why
          then sync_square_subscription env store_id sub.square_subscription_id sub.price_id
          else fail Code.state_conflict
    ]

  -- `Pause`
  unfoldable pub pause : Uuid → M ⊤
  unfolding lookup_subscription request pause_live is_blank
  pause store_id = do
    fail_if (store_id == 0) Code.validation
    stored ← lookup_subscription env store_id
    sub ← or_raise stored (coded Code.not_found)
    fail_if (is_blank sub.square_subscription_id) Code.state_conflict
    answer ← wrapped (
        request env (
          SquareCall.get sub.square_subscription_id (some store_id) (text_or_empty sub.price_id)
            true))
    live ← or_raise answer (coded Code.not_found)
    fail_if (not (text_eq (to_upper live.status) (codes "ACTIVE"))) Code.state_conflict
    pause_live store_id sub live

  -- `Resume` of a subscription that Square has not as active.
  unfoldable pub resume_paused : Uuid → Subscription → M ⊤
  unfolding persist_square_update
  resume_paused store_id sub = do
    answer ← ask env (SquareCall.resume sub.square_subscription_id (text_or_empty sub.price_id))
    elim answer [
      | SquareAnswer.found resumed ↦
          persist_square_update env store_id (some resumed) (λ row. record row { paused_at = none })
      | SquareAnswer.nothing ↦ persist_square_update env store_id none (λ row. row)
      | SquareAnswer.refused e why ↦ raise (typed_or_dependency e)
    ]

  -- `Resume` of one that is active, which may have a pause ahead.
  unfoldable pub resume_active : Uuid → Subscription → SquareSubscription → M ⊤
  unfolding request sync_square_subscription pending_pause_action
  resume_active store_id sub live = elim (pending_pause_action live.actions) [
    | none ↦ pure tt
    | some action ↦ do
      map_error (λ e. coded Code.state_conflict)
          (request env (SquareCall.delete_action sub.square_subscription_id action.id))
      sync_square_subscription env store_id sub.square_subscription_id sub.price_id
  ]

  -- `Resume`
  unfoldable pub resume : Uuid → M ⊤
  unfolding lookup_subscription request resume_active resume_paused
  resume store_id = do
    fail_if (store_id == 0) Code.validation
    stored ← lookup_subscription env store_id
    sub ← or_raise stored (coded Code.not_found)
    answer ← wrapped (
        request env (
          SquareCall.get sub.square_subscription_id (some store_id) (text_or_empty sub.price_id)
            true))
    live ← or_raise answer (coded Code.not_found)
    if text_eq_fold live.status (codes "ACTIVE")
        then resume_active store_id sub live
        else resume_paused store_id sub

  -- `GetActive`
  unfoldable pub get_active : Uuid → M (Option Subscription)
  unfolding find_active sync_square_subscription
  get_active store_id = do
    fail_if (store_id == 0) Code.validation
    stored ← find_active env store_id
    elim stored [
      | none ↦ pure none
      | some sub ↦ do
        sync_square_subscription env store_id sub.square_subscription_id sub.price_id
        find_active env store_id
    ]
