-- ===== src/Orders/Payments.antt =====
-- How the status of a payment intent moves: the graph of all operations.
use mathlib.Core.Path.{sym, subst}
use packfinderz_backend.Prelude.{
  inr, inl, Bool-cases, ◌==◌, not, Bool, true, ◌||◌, Option, none, some, List, [], ◌∷◌, ◌++◌, ◌≡◌,
  refl, arith,
}
use packfinderz_backend.Enums.{PaymentStatus, ItemStatus, is_payment}
use packfinderz_backend.Store.Tables.{
  VendorOrder, LineItem, InventoryItem, PaymentIntent, World, Tables, Uuid,
}
use packfinderz_backend.Store.Rows.{find, update, find-update, find-append}
use packfinderz_backend.Store.Columns.{IntentColumn, set_intent, set_intent-order_id}
use packfinderz_backend.Store.Tx.{Env}
use packfinderz_backend.Orders.Input.{LineItemDecisionInput}
use packfinderz_backend.Orders.Cash.{is_finalized, settle_columns}
use packfinderz_backend.Orders.Returns.Decisions.{decide_order-Post, decide_line_item-Post, Decided}
use packfinderz_backend.Orders.Returns.Buyers.{
  cancel_in_tx-Post, cancel_item-Post, nudge_in_tx-Post,
}
use packfinderz_backend.Orders.Returns.Retries.{retry_in_tx-Post}
use packfinderz_backend.Orders.Returns.Agents.{pickup_in_tx-Post, deliver_in_tx-Post}
use packfinderz_backend.Orders.Returns.Money.{cash_in_tx-Post}
use packfinderz_backend.Orders.Returns.Payouts.{payout_in_tx-Post}
use packfinderz_backend.Orders.Returns.Expiry.{expire_in_tx-Post, expire_item-Post}
use packfinderz_backend.Orders.Run.{Op, run}
use packfinderz_backend.Orders.Lift.{Bodies, run-Always}

abbrev pub intent_at : Uuid → List PaymentIntent → Option PaymentIntent
intent_at = find (λ p. p.order_id)

-- The moves of an intent's status. None leads to `failed` from elsewhere.
abbrev pub may_pay : PaymentStatus → PaymentStatus → Bool
may_pay s PaymentStatus.settled = is_payment s PaymentStatus.settled || not (is_finalized s)
may_pay s PaymentStatus.paid = is_payment s PaymentStatus.paid || is_payment s PaymentStatus.settled
may_pay s t = is_payment s t

-- The intent is still there, of the same method and amount, and its status has made a move.
abbrev pub PaidOn : PaymentIntent → Option PaymentIntent → Type 0
PaidOn p none = ⊥
PaidOn p (some p') =
    (may_pay p.status p'.status ≡ true)
    × ((p'.amount_cents ≡ p.amount_cents) × (p'.method ≡ p.method))

pub record Pays (ps ps' : List PaymentIntent) : Type 0 where
  pub at : (k : Uuid) (p : PaymentIntent) → intent_at k ps ≡ some p → PaidOn p (intent_at k ps')

may_pay_refl : (s : PaymentStatus) → may_pay s s ≡ true
may_pay_refl s = ground arith

same_intent : (p : PaymentIntent) → PaidOn p (some p)
same_intent p = (may_pay_refl p.status, (refl, refl))

module _ (ps : List PaymentIntent) where
  Pays-refl : Pays ps ps
  Pays-refl = record { at = λ k p e. rw e (same_intent p) }

  Pays-append : (row : PaymentIntent) → Pays ps (ps ++ row ∷ [])
  Pays-append row = record {
    at = λ k p e.
        rw (find-append (λ (x : PaymentIntent). x.order_id) k ps (row ∷ []), e) (same_intent p);
  }

  Pays-update :
      (j : Uuid) (cs : List IntentColumn) {old : PaymentIntent}
      → intent_at j ps ≡ some old
      → PaidOn old (some (set_intent cs old))
      → Pays ps (update (λ p. p.order_id) j (set_intent cs) ps)
  Pays-update j cs {old} found fine = record {
    at = λ k p e. elim (Bool-cases (k == j)) [
      | inl hit ↦
          let at_j : k ≡ j = ground arith in
          let same : p ≡ old = ground arith in
          rw
            (
              find-update (λ (x : PaymentIntent). x.order_id) (set_intent cs)
                  (set_intent-order_id cs) k j ps,
              hit,
              e,
            )
            (subst (λ x. PaidOn x (some (set_intent cs x))) (sym same) fine)
      | inr miss ↦
          rw
            (
              find-update (λ (x : PaymentIntent). x.order_id) (set_intent cs)
                  (set_intent-order_id cs) k j ps,
              miss,
              e,
            )
            (same_intent p)
    ];
  }

module _ (env : Env) (w : World) where
  abbrev P : Tables → Type 0
  P t = Pays w.tables.intents t.intents

  abbrev same : Pays w.tables.intents w.tables.intents
  same = Pays-refl w.tables.intents

  Decided-Pays :
      (input : LineItemDecisionInput) (target : ItemStatus) (o : VendorOrder) (i : LineItem)
      (rs : List InventoryItem)
      → Decided env input o i target w (λ _ v. P v.tables) rs
  Decided-Pays input target o i rs = record { last = λ _. same; more = λ _. same }

  Bodies-Pays : Bodies P env w
  Bodies-Pays = record {
    decide =
        λ i s e. decide_order-Post env w i s (λ o found own e. same) λ o found own pending. same;
    decide_item = λ i s e.
        decide_line_item-Post env w i s (λ o x found item own e. same)
          (λ o x found item own open_ back rs r. Decided-Pays i s o x rs)
          (λ o x found item own open_ other. Decided-Pays i s o x _);
    cancel = λ i.
        cancel_in_tx-Post env w i (λ o rest v. P v.tables) (λ o found own open_. same)
          (λ o x rest v h. cancel_item-Post env v x (λ e. h) (λ e rs r. h) (λ e f rs r. h))
          (λ o v h. h);
    nudge = λ i. nudge_in_tx-Post env w i λ o found open_. same;
    retry =
        λ i. retry_in_tx-Post env w i λ o rows rs m found expired new made taken. Pays-append _ _;
    payout = λ i.
        payout_in_tx-Post env w i (λ d found closed. same)
          λ d p found pay delivered settled.
            Pays-update _ i.order_id
              (IntentColumn.status PaymentStatus.paid ∷ IntentColumn.vendor_paid_at env.now ∷ [])
              pay (ground arith, (refl, refl));
    pickup = λ i. pickup_in_tx-Post env w i λ o a found act own fine. same;
    deliver = λ i. deliver_in_tx-Post env w i λ o a found act own fine. same;
    collect = λ i. cash_in_tx-Post env w i λ d a p found pay act own fine live. (
      (λ done. same),
      λ fresh exact.
          Pays-update _ i.order_id (settle_columns env.now p) pay
            (ground arith, (ground arith, ground arith)),
    );
    expire = λ order.
        expire_in_tx-Post env w order (λ o rest v. P v.tables) (λ o found other. same)
          (λ o found pending. same)
          (λ o x rest v h. expire_item-Post env v x (λ e. h) (λ e rs r. h)) (λ o v h. h);
  }

-- After any operation, whether it returns or fails, the intent of an order is still there, of the
-- same amount and method, and its status is the same or has made a move of `may_pay`.
pub run-Pays :
    (env : Env) (op : Op) (w : World) → Pays w.tables.intents (run env op w).1.tables.intents
run-Pays env op w =
    (run-Always (λ t. Pays w.tables.intents t.intents) env w (Pays-refl _) (Bodies-Pays env w)
      op).on
