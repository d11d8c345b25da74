-- ===== src/Cron/AskedOnce.antt =====
-- What the reconciliation of all subscriptions asks of Square.
use packfinderz_backend.Prelude.{ap, ◌∙◌}
use mathlib.Core.List.{append-nil, append_assoc}
use packfinderz_backend.Prelude.{sym, inl, inr, Bool-cases}
use packfinderz_backend.Subscriptions.Followed.{asked}
use packfinderz_backend.Cron.SubscriptionReconcile.{reconcile_all}
use packfinderz_backend.Prelude.{◌≡◌, refl, Option, none, some, List, [], ◌∷◌, ◌++◌, if◌then◌else◌}
use packfinderz_backend.Text.{is_empty, is_blank}
use packfinderz_backend.Store.Tables.{
  World, Subscription, SquareSubscription, SquareCall, SquareAnswer,
}
use packfinderz_backend.Store.Tx.{Env, pure, raise, ◌>>=◌, with_tx}
use packfinderz_backend.Store.Silent.{
  Silent, pure-Silent, gets-Silent, raise-Silent, call-Silent, modify-Silent, bind-Silent,
  if-Silent, with_tx-Silent,
}
use packfinderz_backend.Subscriptions.{find_subscription_by_square_id, update_subscription, ask}
use packfinderz_backend.Subscriptions.Service.{answered, request}
use packfinderz_backend.Subscriptions.Kept.{update_subscription_active-Silent}
use packfinderz_backend.Cron.SubscriptionReconcile.{
  apply_reconciled, reconcile_in_tx, reconcile_subscription,
}
use packfinderz_backend.Cron.Reconciled.{job_request}

-- The requests for the subscriptions that have an identifier of Square's
abbrev pub requests : List Subscription → List SquareCall
requests [] = []
requests (s ∷ ss) =
    if is_blank s.square_subscription_id then requests ss else job_request s ∷ requests ss

requests_cons :
    (s : Subscription) (ss : List Subscription)
    → requests (s ∷ []) ++ requests ss ≡ requests (s ∷ ss)
requests_cons s ss = elim (Bool-cases (is_blank s.square_subscription_id)) [
  | inl blank ↦ rw blank refl
  | inr given ↦ rw given refl
]

module _ (env : Env) where
  update_subscription-Silent : (s : Subscription) → Silent (update_subscription env s)
  unfolding update_subscription
  update_subscription-Silent s = call-Silent env _ _ (modify-Silent _ (λ w. refl))

  apply_reconciled-Silent :
      (sub : SquareSubscription) (o : Option Subscription) → Silent (apply_reconciled env sub o)
  unfolding apply_reconciled
  apply_reconciled-Silent sub none = pure-Silent tt
  apply_reconciled-Silent sub (some old) =
      bind-Silent _ _ (update_subscription-Silent _)
        λ done. update_subscription_active-Silent env old.store_id _

  reconcile_in_tx-Silent : (sub : SquareSubscription) → Silent (reconcile_in_tx env sub)
  unfolding reconcile_in_tx find_subscription_by_square_id
  reconcile_in_tx-Silent sub =
      bind-Silent _ _
        (if-Silent (is_empty sub.id) _ _ (raise-Silent _) (call-Silent env _ _ (gets-Silent _)))
        (apply_reconciled-Silent sub)

  after_answer :
      (a : SquareAnswer) (v : World)
      → ((answered a >>= λ answer. elim answer [
        | none ↦ pure tt
        | some sub ↦ with_tx env (reconcile_in_tx env sub)
      ])
          v).1.square
        ≡ v.square
  unfolding ◌>>=◌ answered pure raise
  after_answer (SquareAnswer.found sub) v =
      let silent = with_tx-Silent env _ (reconcile_in_tx-Silent sub) in silent.same v
  after_answer SquareAnswer.nothing v = refl
  after_answer (SquareAnswer.refused e why) v = refl

  reconcile-requests :
      (s : Subscription) (w : World)
      → (reconcile_subscription env s w).1.square ≡ w.square ++ requests (s ∷ [])
  unfolding reconcile_subscription request ask ◌>>=◌
  reconcile-requests s w = elim (Bool-cases (is_blank s.square_subscription_id)) [
    | inl blank ↦ rw blank (sym (append-nil w.square))
    | inr given ↦
        rw given (after_answer (env.square w.square (job_request s)) (asked (job_request s) w))
  ]

  -- The job asks Square once for each subscription of its list that has an identifier there, in
  -- order, whatever any of the requests or updates comes to: one that fails stops no other.
  pub reconcile_all_lem :
      (ss : List Subscription) (w : World)
      → (reconcile_all env ss w).1.square ≡ w.square ++ requests ss
  unfolding reconcile_all
  reconcile_all_lem [] w = sym (append-nil w.square)
  reconcile_all_lem (s ∷ ss) w =
      let one = reconcile-requests s w in
      let rest = reconcile_all_lem ss (reconcile_subscription env s w).1 in
      rest
      ∙ ap (λ (l : List SquareCall). l ++ requests ss) one
      ∙ append_assoc w.square (requests (s ∷ [])) (requests ss)
      ∙ ap (λ (l : List SquareCall). w.square ++ l) (requests_cons s ss)
