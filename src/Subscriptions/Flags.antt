-- ===== src/Subscriptions/Flags.antt =====
-- The flag of a store that says whether it has a subscription, and the rows that count as active.
use packfinderz_backend.Licenses.{set_stores}
use packfinderz_backend.Prelude.{
  ◌≡◌, refl, sym, ap, ◌∙◌, inl, inr, Bool, true, Option, none, some, List, [], ◌∷◌, arith, ◌==◌,
  Bool-cases,
}
use packfinderz_backend.Errors.{record_not_found, driver, ok, err}
use packfinderz_backend.Store.Tables.{World, Uuid, StoreRow, Subscription}
use packfinderz_backend.Store.Rows.{find, update}
use packfinderz_backend.Store.Tx.{Env, ⊤}
use packfinderz_backend.Store.Post.{Post, raise-Post, if-Post, call-Post}
use packfinderz_backend.Subscriptions.{set_flag, update_subscription_active}
use packfinderz_backend.Subscriptions.Mapper.{is_active_status}
use packfinderz_backend.Subscriptions.Service.{only_active}

module _ (env : Env) {Q : ⊤ → World → Type 0} (k : Uuid) (active : Bool) (v : World) where
  flag_result :
      (o : Option StoreRow)
      → ((r : StoreRow) → o ≡ some r → Q tt (set_stores (update (λ s. s.id) k (set_flag active)) v))
      → Post Q (elim o [
        | none ↦ (err record_not_found, v)
        | some r ↦ (ok tt, set_stores (update (λ s. s.id) k (set_flag active)) v)
      ])
  flag_result none q = record { on = tt }
  flag_result (some r) q = record { on = q r refl }

  -- The flag is written where the store is there.
  pub update_subscription_active-Post :
      ((r : StoreRow)
        → find (λ s. s.id) k v.tables.stores ≡ some r
        → Q tt (set_stores (update (λ s. s.id) k (set_flag active)) v))
      → Post Q (update_subscription_active env k active v)
  unfolding update_subscription_active
  update_subscription_active-Post q =
      if-Post (k == 0) _ _ v (λ nil. raise-Post driver v)
        (λ some_id. call-Post env _ _ v (flag_result (find (λ s. s.id) k v.tables.stores) q))

-- The store's flag after it is written
pub flag_written :
    (k : Uuid) (active : Bool) (rows : List StoreRow) {s : StoreRow}
    → find (λ r. r.id) k (update (λ r. r.id) k (set_flag active) rows) ≡ some s
    → s.subscription_active ≡ active
flag_written k active [] e = cc
flag_written k active (r ∷ rows) {s} e = ground (arith, flag_written k active rows {s = s})

pub only_active_lem :
    (o : Option Subscription) (sub : Subscription)
    → only_active o ≡ some sub
    → (o ≡ some sub) × (is_active_status sub.status ≡ true)
only_active_lem none sub e = cc
only_active_lem (some s) sub e = elim (Bool-cases (is_active_status s.status)) [
  | inl yes_ ↦
      let same : s ≡ sub = ground arith in
      (ap some same, ap (λ (x : Subscription). is_active_status x.status) (sym same) ∙ yes_)
  | inr no_ ↦ let gone : none ≡ some sub = (rw no_ at e) in cc
]

pub flagged_lem :
    (k : Uuid) (active : Bool) (rows : List StoreRow) (r : StoreRow)
    → find (λ s. s.id) k rows ≡ some r
    → find (λ s. s.id) k (update (λ s. s.id) k (set_flag active) rows) ≡ some (set_flag active r)
flagged_lem k active [] r f = cc
flagged_lem k active (s ∷ rows) r f = ground (arith, flagged_lem k active rows r)
