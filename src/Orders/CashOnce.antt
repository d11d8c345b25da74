-- ===== src/Orders/CashOnce.antt =====
-- The ledger gets one cash event for an order at most, however often its cash is collected and
-- whatever fails.
use mathlib.Core.Path.{subst}
use packfinderz_backend.Prelude.{
  Bool-cases, ℕ, ◌≤◌, ◌==◌, if◌then◌else◌, not, Bool, true, false, ◌&&◌, List, [], ◌∷◌, ◌++◌, ◌≡◌,
  refl, arith, count_if, count_if-append, ℤ, pos, ltb_ℤ, eqb_ℤ, sym, ◌⊎◌, inl, inr, ap,
}
use packfinderz_backend.Enums.{LedgerType, is_ledger}
use packfinderz_backend.Errors.{driver, Result, ok, err}
use packfinderz_backend.Store.Tables.{LedgerEvent, PaymentIntent, Assignment, World, Uuid}
use packfinderz_backend.Store.Tx.{
  raise, Call, Env, M, ⊤, pure, gets, modify, wrapped, map_error, call, with_tx, rollback, ◌>>=◌,
}
use packfinderz_backend.Store.Repo.{OrderDetail}
use packfinderz_backend.Ledger.{RecordInput, has_type, has_event, record_event}
use packfinderz_backend.Orders.Input.{AgentInput}
use packfinderz_backend.Orders.Cash.{
  agent_cash_collected, cash_in_tx, collect_checked, collect_amount, settle_cash, can_collect,
}
use packfinderz_backend.Store.Ends.{
  Ends, Same, bind-Ends, pure-Ends, raise-Ends, if-Ends, map_error-Ends, fail_if-Ends,
}
use packfinderz_backend.Orders.Unledgered.{
  emit-Ends, update_vendor_order-Ends, update_payment_intent-Ends, update_order_assignment-Ends,
  load_order_detail-Ends, own_assignment-Ends, intent_or-Ends, fail_cash_collection-Ends,
}

abbrev pub is_cash : Uuid → LedgerEvent → Bool
is_cash k e = e.order_id == k && is_ledger e.type LedgerType.cash_collected

-- The cash events of an order.
abbrev pub cash_events : Uuid → List LedgerEvent → ℕ
cash_events k es = count_if (is_cash k) es

has_type-cash :
    (k : Uuid) (es : List LedgerEvent)
    → has_type k LedgerType.cash_collected es ≡ false
    → cash_events k es ≡ 0
has_type-cash k [] e = refl
has_type-cash k (x ∷ es) e = ground (arith, has_type-cash k es)

-- One more event at the end, and no cash event for the order before it.
pub record First (k : Uuid) (es es' : List LedgerEvent) : Type 0 where
  pub event : LedgerEvent
  pub absent : has_type k LedgerType.cash_collected es ≡ false
  pub of_order : event.order_id ≡ k
  pub grown : es' ≡ es ++ event ∷ []

-- The ledger as it was, or with the order's first cash event.
abbrev pub Grown : Uuid → List LedgerEvent → List LedgerEvent → Type 0
Grown k es es' = (es' ≡ es) ⊎ First k es es'

module _ (env : Env) (es : List LedgerEvent) (input : AgentInput) where
  abbrev P : List LedgerEvent → Type 0
  P es' = Grown input.order_id es es'

  weaken-Ends : {A : Type 0} (m : M A) → Ends es (Same es) m → Ends es P m
  weaken-Ends m h = record { on = λ w e. inl (h.on w e) }

  record_event-Ends :
      (event : RecordInput)
      → event.order_id ≡ input.order_id
      → has_type input.order_id LedgerType.cash_collected es ≡ false
      → Ends es P (record_event env event)
  unfolding record_event call modify
  record_event-Ends event own absent =
      if-Ends es P (event.order_id == 0) _ _ (weaken-Ends _ (raise-Ends es _)) (
        if-Ends es P (event.buyer_store_id == 0) _ _ (weaken-Ends _ (raise-Ends es _)) (
          if-Ends es P (event.vendor_store_id == 0) _ _ (weaken-Ends _ (raise-Ends es _)) (
            if-Ends es P (event.actor_user_id == 0) _ _ (weaken-Ends _ (raise-Ends es _)) written)))
    where
      choose :
          (down : Bool) (w : World)
          → w.ledger ≡ es
          → let end_ : Result ⊤ × World =
              if down
              then (err driver, w)
              else (ok tt, record w { ledger = w.ledger ++ event ∷ [] }) in
            P end_.1.ledger
      choose true w e = inl e
      choose false w e = inr (record {
        event = event;
        absent = absent;
        of_order = own;
        grown = ap (λ xs. xs ++ event ∷ []) e;
      })

      written : Ends es P (
          call env
            (Call.ledger_record event.order_id)
            (modify λ w. record w { ledger = w.ledger ++ event ∷ [] }))
      written = record { on = λ w e. choose (env.fails (Call.ledger_record event.order_id)) w e }

  settle_cash-Ends :
      (d : OrderDetail) (a : Assignment) (p : PaymentIntent) (amount : ℤ)
      → has_type input.order_id LedgerType.cash_collected es ≡ false
      → Ends es P (settle_cash env input d a p amount)
  unfolding settle_cash
  settle_cash-Ends d a p amount absent =
      bind-Ends es P _ _ (inl refl)
        (map_error-Ends es (Same es) _ _ (update_payment_intent-Ends env es _ _))
        λ _.
          bind-Ends es P _ _ (inl refl)
            (map_error-Ends es (Same es) _ _ (update_vendor_order-Ends env es _ _))
            λ _.
              bind-Ends es P _ _ (inl refl)
                (map_error-Ends es (Same es) _ _ (update_order_assignment-Ends env es _ _))
                λ _.
                  bind-Ends es P _ _ (inl refl)
                    (map_error-Ends es (Same es) _ _ (emit-Ends env es _))
                    λ _. map_error-Ends es P _ _ (record_event-Ends _ refl absent)

  collect_amount-Ends :
      (d : OrderDetail) (a : Assignment) (p : PaymentIntent)
      → has_type input.order_id LedgerType.cash_collected es ≡ false
      → Ends es P (collect_amount env input d a p)
  unfolding collect_amount
  collect_amount-Ends d a p absent =
      if-Ends es P (ltb_ℤ (pos 0) p.amount_cents) _ _
        (if-Ends es P (not (eqb_ℤ d.order.total_cents p.amount_cents)) _ _
          (weaken-Ends _ (fail_cash_collection-Ends env es _ _ _ _))
          (settle_cash-Ends d a p _ absent))
        (settle_cash-Ends d a p _ absent)

  value_known :
      (nil down : Bool) (rest : Bool → M ⊤) (w : World)
      → w.ledger ≡ es
      → ((b : Bool) → has_type input.order_id LedgerType.cash_collected es ≡ b → Ends es P (rest b))
      → P
          ((wrapped (
                if nil then raise driver else λ u.
                if down
                then (err driver, u)
                else (ok (has_type input.order_id LedgerType.cash_collected u.ledger), u))
              >>= rest)
            w).1.ledger
  unfolding ◌>>=◌ map_error
  value_known true down rest w e k = inl e
  value_known false true rest w e k = inl e
  value_known false false rest w e k =
      let next =
        k (has_type input.order_id LedgerType.cash_collected w.ledger)
          (ap (λ xs. has_type input.order_id LedgerType.cash_collected xs) (sym e)) in
      next.on w e

  has_event-Ends :
      (rest : Bool → M ⊤)
      → ((b : Bool) → has_type input.order_id LedgerType.cash_collected es ≡ b → Ends es P (rest b))
      → Ends es P (wrapped (has_event env input.order_id LedgerType.cash_collected) >>= rest)
  unfolding has_event call gets
  has_event-Ends rest k = record {
    on = λ w e.
        value_known (input.order_id == 0) (env.fails (Call.ledger_list input.order_id)) rest w e k;
  }

  known :
      (d : OrderDetail) (a : Assignment) (p : PaymentIntent) (b : Bool)
      → has_type input.order_id LedgerType.cash_collected es ≡ b
      → Ends es P (if b then pure tt else collect_amount env input d a p)
  known d a p true e = weaken-Ends _ (pure-Ends es tt)
  known d a p false e = collect_amount-Ends d a p e

  cash_in_tx-Ends : Ends es P (cash_in_tx env input)
  unfolding cash_in_tx collect_checked
  cash_in_tx-Ends = bind-Ends es P _ _ (inl refl) (load_order_detail-Ends env es _) λ d.
      bind-Ends es P _ _ (inl refl) (own_assignment-Ends env es _ d.active_assignment) λ a.
        bind-Ends es P _ _ (inl refl) (fail_if-Ends es _ _) λ _.
          bind-Ends es P _ _ (inl refl) (intent_or-Ends env es d.intent _) λ p.
            if-Ends es P (not (can_collect d.order.status)) _ _
              (weaken-Ends _ (fail_cash_collection-Ends env es _ _ _ _))
              (bind-Ends es P _ _ (inl refl) (fail_if-Ends es _ _)
                λ _. has_event-Ends _ (known d a p))

  closed :
      (r : Result ⊤) (w v : World)
      → w.ledger ≡ es
      → P v.ledger
      → P (with_tx env (λ u. (r, v)) w).1.ledger
  unfolding with_tx rollback
  closed (ok a) w v e h = elim (Bool-cases (env.fails Call.begin)) [
    | inl down ↦ rw down (inl e)
    | inr up ↦ elim (Bool-cases (env.fails Call.commit)) [
      | inl down ↦ rw (up, down) h
      | inr done ↦ rw (up, done) h
    ]
  ]
  closed (err x) w v e h = elim (Bool-cases (env.fails Call.begin)) [
    | inl down ↦ rw down (inl e)
    | inr up ↦ rw up h
  ]

  agent_cash_collected-Ends : Ends es P (agent_cash_collected env input)
  unfolding agent_cash_collected with_tx
  agent_cash_collected-Ends =
      bind-Ends es P _ _ (inl refl)
        (bind-Ends es (Same es) _ _ refl (fail_if-Ends es _ _) λ _. fail_if-Ends es _ _)
        λ _. record {
          on = λ w e.
              closed (cash_in_tx env input w).0 w (cash_in_tx env input w).1 e
                (let inside = cash_in_tx-Ends in inside.on w e);
        }

Grown-once :
    (j k : Uuid) (es es' : List LedgerEvent)
    → Grown j es es'
    → cash_events k es ≤ 1
    → cash_events k es' ≤ 1
Grown-once j k es es' (inl same) h = subst (λ xs. cash_events k xs ≤ 1) (sym same) h
Grown-once j k es es' (inr f) h =
    subst (λ xs. cash_events k xs ≤ 1) (sym f.grown)
      (one f.event f.of_order (has_type-cash j es f.absent))
  where
    one :
        (e : LedgerEvent) → e.order_id ≡ j → cash_events j es ≡ 0 → cash_events k (es ++ e ∷ []) ≤ 1
    one e own none_before = ground (arith, count_if-append (is_cash k) es (e ∷ []))

-- If the ledger has at most one cash event for an order, then it has at most one after a collection
-- of cash, for that order or another, however it ends.
pub cash_once :
    (env : Env) (input : AgentInput) (w : World) (k : Uuid)
    → cash_events k w.ledger ≤ 1
    → cash_events k (agent_cash_collected env input w).1.ledger ≤ 1
cash_once env input w k h =
    let grown = agent_cash_collected-Ends env w.ledger input in
    Grown-once input.order_id k w.ledger _ (grown.on w refl) h
