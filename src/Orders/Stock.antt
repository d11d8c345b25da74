-- ===== src/Orders/Stock.antt =====
-- The stock under the order service: what is available and what is reserved always add up to the
-- same, product by product.
use packfinderz_backend.Prelude.{ℤ, ℕ, ◌+◌, List, [], ◌∷◌, ◌≡◌, refl, arith, ◌∙◌, Option}
use packfinderz_backend.Enums.{ItemStatus}
use packfinderz_backend.Store.Tables.{VendorOrder, LineItem, InventoryItem, World, Tables, Uuid}
use packfinderz_backend.Store.Rows.{update}
use packfinderz_backend.Store.Tx.{Env}
use packfinderz_backend.Store.Repo.{release_row}
use packfinderz_backend.Reservation.{reserve_row}
use packfinderz_backend.Reservation.Returns.{Taken}
use packfinderz_backend.Orders.Input.{LineItemDecisionInput}
use packfinderz_backend.Orders.Returns.Loads.{Released}
use packfinderz_backend.Orders.Returns.Decisions.{decide_order-Post, decide_line_item-Post, Decided}
use packfinderz_backend.Orders.Returns.Buyers.{
  cancel_in_tx-Post, cancel_item-Post, nudge_in_tx-Post,
}
use packfinderz_backend.Orders.Returns.Retries.{retry_in_tx-Post}
use packfinderz_backend.Orders.Returns.Agents.{pickup_in_tx-Post, deliver_in_tx-Post}
use packfinderz_backend.Orders.Returns.Money.{cash_in_tx-Post}
use packfinderz_backend.Orders.Returns.Payouts.{payout_in_tx-Post}
use packfinderz_backend.Orders.Returns.Expiry.{expire_in_tx-Post, expire_item-Post}
use packfinderz_backend.Orders.Run.{Op, run, Reach}
use packfinderz_backend.Orders.Lift.{Bodies, run-Always}

-- Each row's product, and all there is of it.
abbrev pub stock : List InventoryItem → List (Uuid × ℕ)
stock [] = []
stock (r ∷ rs) = (r.product_id, r.available_qty + r.reserved_qty) ∷ stock rs

stock-reserve :
    (p : Uuid) (q : ℕ) (rs : List InventoryItem)
    → stock (update (λ r. r.product_id) p (reserve_row q) rs) ≡ stock rs
stock-reserve p q [] = refl
stock-reserve p q (r ∷ rs) = ground (arith, stock-reserve p q rs)

stock-release :
    (p : Uuid) (q : ℕ) (rs : List InventoryItem)
    → stock (update (λ r. r.product_id) p (release_row q) rs) ≡ stock rs
stock-release p q [] = refl
stock-release p q (r ∷ rs) = ground (arith, stock-release p q rs)

stock-Taken : (rs ts : List InventoryItem) → Taken rs ts → stock ts ≡ stock rs
stock-Taken rs ts Taken.none_taken = refl
stock-Taken rs ts (Taken.take {ts = us} p q t more) = stock-reserve p q us ∙ stock-Taken rs us t

stock-Released :
    (p : Option Uuid) (qty : ℤ) (rs ts : List InventoryItem)
    → Released p qty rs ts
    → stock ts ≡ stock rs
stock-Released p qty rs ts Released.kept = refl
stock-Released p qty rs ts (Released.moved k e more) = stock-release k _ rs

module _ (env : Env) (w : World) where
  abbrev P : Tables → Type 0
  P t = stock t.inventory ≡ stock w.tables.inventory

  Decided-stock :
      (input : LineItemDecisionInput) (target : ItemStatus) (o : VendorOrder) (i : LineItem)
      (rs : List InventoryItem)
      → stock rs ≡ stock w.tables.inventory
      → Decided env input o i target w (λ _ v. P v.tables) rs
  Decided-stock input target o i rs e = record { last = λ _. e; more = λ _. e }

  Bodies-stock : Bodies P env w
  Bodies-stock = record {
    decide =
        λ i s e. decide_order-Post env w i s (λ o found own same. refl) λ o found own pending. refl;
    decide_item = λ i s e.
        decide_line_item-Post env w i s (λ o x found item own same. refl)
          (λ o x found item own open_ back rs r.
            Decided-stock i s o x rs (stock-Released _ _ _ _ r))
          (λ o x found item own open_ other. Decided-stock i s o x _ refl);
    cancel = λ i.
        cancel_in_tx-Post env w i (λ o rest v. P v.tables) (λ o found own open_. refl)
          (λ o x rest v h.
            cancel_item-Post env v x (λ e. h) (λ e rs r. stock-Released _ _ _ _ r ∙ h)
              (λ e f rs r. stock-Released _ _ _ _ r ∙ h))
          (λ o v h. h);
    nudge = λ i. nudge_in_tx-Post env w i λ o found open_. refl;
    retry = λ i.
        retry_in_tx-Post env w i λ o rows rs m found expired new made taken. stock-Taken _ _ taken;
    payout = λ i.
        payout_in_tx-Post env w i (λ d found closed. refl) λ d p found pay delivered settled. refl;
    pickup = λ i. pickup_in_tx-Post env w i λ o a found act own fine. refl;
    deliver = λ i. deliver_in_tx-Post env w i λ o a found act own fine. refl;
    collect = λ i.
        cash_in_tx-Post env w i
          λ d a p found pay act own fine live. ((λ done. refl), λ fresh exact. refl);
    expire = λ order.
        expire_in_tx-Post env w order (λ o rest v. P v.tables) (λ o found other. refl)
          (λ o found pending. refl)
          (λ o x rest v h.
            expire_item-Post env v x (λ e. h) (λ e rs r. stock-Released _ _ _ _ r ∙ h))
          (λ o v h. h);
  }

run-stock :
    (env : Env) (op : Op) (w : World)
    → stock (run env op w).1.tables.inventory ≡ stock w.tables.inventory
run-stock env op w =
    (run-Always (λ t. stock t.inventory ≡ stock w.tables.inventory) env w refl (Bodies-stock env w)
      op).on

-- After any number of operations, with any failures, each product's row stands in its place, and
-- what is available and what is reserved of it add up to what they did.
pub Reach-stock :
    (w : World) {v : World} → Reach w v → stock v.tables.inventory ≡ stock w.tables.inventory
Reach-stock w Reach.here = refl
Reach-stock w (Reach.next {v = u} r env op) = run-stock env op u ∙ Reach-stock w r
