-- ===== src/Orders/Unledgered.antt =====
-- The parts of a collection of cash that leave the ledger alone.
use packfinderz_backend.Prelude.{◌==◌, not, Option, none, some, List, [], ◌∷◌, refl}
use packfinderz_backend.Errors.{Code}
use packfinderz_backend.Store.Tables.{
  LedgerEvent, PaymentIntent, Assignment, Uuid, ActorRef, FailureReason, OutboxEvent,
}
use packfinderz_backend.Store.Columns.{OrderColumn, IntentColumn, AssignmentColumn}
use packfinderz_backend.Store.Tx.{Env}
use packfinderz_backend.Store.Repo.{
  find_order_detail, load_store_summary, update_vendor_order, update_payment_intent,
  update_order_assignment, emit,
}
use packfinderz_backend.Orders.Agent.{load_order_detail, own_assignment}
use packfinderz_backend.Orders.Cash.{fail_cash_collection, emit_payment_failed, intent_or}
use packfinderz_backend.Store.Ends.{
  Ends, Same, bind-Ends, pure-Ends, fail-Ends, if-Ends, call-Ends, map_error-Ends, gets-Ends,
  or_raise-Ends, modify-Ends,
}

module _ (env : Env) (es : List LedgerEvent) where
  pub emit-Ends : (e : OutboxEvent) → Ends es (Same es) (emit env e)
  unfolding emit
  emit-Ends e = call-Ends es env _ _ (modify-Ends es _ λ w. refl)

  pub update_vendor_order-Ends :
      (k : Uuid) (cs : List OrderColumn) → Ends es (Same es) (update_vendor_order env k cs)
  unfolding update_vendor_order
  update_vendor_order-Ends k [] = pure-Ends es tt
  update_vendor_order-Ends k (c ∷ cs) = call-Ends es env _ _ (modify-Ends es _ λ w. refl)

  pub update_payment_intent-Ends :
      (k : Uuid) (cs : List IntentColumn) → Ends es (Same es) (update_payment_intent env k cs)
  unfolding update_payment_intent
  update_payment_intent-Ends k [] = pure-Ends es tt
  update_payment_intent-Ends k (c ∷ cs) = call-Ends es env _ _ (modify-Ends es _ λ w. refl)

  pub update_order_assignment-Ends :
      (k : Uuid) (cs : List AssignmentColumn) → Ends es (Same es) (update_order_assignment env k cs)
  unfolding update_order_assignment
  update_order_assignment-Ends k [] = pure-Ends es tt
  update_order_assignment-Ends k (c ∷ cs) = call-Ends es env _ _ (modify-Ends es _ λ w. refl)

  pub load_store_summary-Ends : (k : Uuid) → Ends es (Same es) (load_store_summary env k)
  unfolding load_store_summary
  load_store_summary-Ends k = call-Ends es env _ _ (or_raise-Ends es _ _)

  pub load_order_detail-Ends : (k : Uuid) → Ends es (Same es) (load_order_detail env k)
  unfolding load_order_detail find_order_detail
  load_order_detail-Ends k = map_error-Ends es (Same es) _ _ (
      bind-Ends es (Same es) _ _ refl (call-Ends es env _ _ (or_raise-Ends es _ _)) λ o.
        bind-Ends es (Same es) _ _ refl (load_store_summary-Ends o.buyer_store_id) λ buyer.
          bind-Ends es (Same es) _ _ refl (load_store_summary-Ends o.vendor_store_id)
            λ vendor. gets-Ends es _)

  pub own_assignment-Ends :
      (agent : Uuid) (found : Option Assignment)
      → Ends es (Same es) (own_assignment env agent found)
  own_assignment-Ends agent none = fail-Ends es _
  own_assignment-Ends agent (some a) =
      if-Ends es (Same es) (not (a.agent_user_id == agent)) _ _ (fail-Ends es _) (pure-Ends es a)

  pub intent_or-Ends :
      (found : Option PaymentIntent) (c : Code) → Ends es (Same es) (intent_or found c)
  intent_or-Ends none c = fail-Ends es c
  intent_or-Ends (some p) c = pure-Ends es p

  pub fail_cash_collection-Ends :
      (actor : ActorRef) (k i : Uuid) (r : FailureReason)
      → Ends es (Same es) (fail_cash_collection env actor k i r)
  unfolding fail_cash_collection emit_payment_failed
  fail_cash_collection-Ends actor k i r =
      bind-Ends es (Same es) _ _ refl
        (map_error-Ends es (Same es) _ _ (update_payment_intent-Ends k _))
        λ _.
          bind-Ends es (Same es) _ _ refl
            (map_error-Ends es (Same es) _ _ (update_vendor_order-Ends k _))
            λ _.
              bind-Ends es (Same es) _ _ refl (map_error-Ends es (Same es) _ _ (emit-Ends _))
                λ _. fail-Ends es _
