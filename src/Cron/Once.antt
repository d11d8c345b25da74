-- ===== src/Cron/Once.antt =====
-- The job nudges an order once at most.
use packfinderz_backend.Prelude.{
  ℕ, ◌≤◌, ◌==◌, if◌then◌else◌, Bool, true, false, ◌&&◌, List, [], ◌∷◌, ◌++◌, ◌≡◌, refl, arith,
  count_if, count_if-append,
}
use packfinderz_backend.Enums.{EventType, AggregateType, is_event, is_aggregate}
use packfinderz_backend.Errors.{driver, Result, ok, err}
use packfinderz_backend.Store.Tables.{VendorOrder, OutboxEvent, Tables, World, Uuid}
use packfinderz_backend.Store.Tx.{Call, Env, M, ⊤, pure, for_each, call, gets, ◌>>=◌}
use packfinderz_backend.Store.Repo.{any_event, outbox_exists, find_pending_orders_before}
use packfinderz_backend.Store.Queries.{emit-Post}
use packfinderz_backend.Store.Always.{Always, with_tx-Always}
use packfinderz_backend.Orders.Returns.Expiry.{expire_in_tx-Post, expire_item-Post}
use packfinderz_backend.Cron.OrderTtl.{
  run_order_ttl, nudge_pending_orders, expire_pending_orders, emit_pending_nudge, expire_order,
}

abbrev pub is_nudge : Uuid → OutboxEvent → Bool
is_nudge k e =
    is_event e.event_type EventType.order_pending_nudge
    && is_aggregate e.aggregate_type AggregateType.vendor_order
    && e.aggregate_id == k

-- The nudges that were ever emitted for an order.
abbrev pub nudges : Uuid → List OutboxEvent → ℕ
nudges k es = count_if (is_nudge k) es

any_event-nudges :
    (k : Uuid) (es : List OutboxEvent)
    → any_event EventType.order_pending_nudge AggregateType.vendor_order k es ≡ false
    → nudges k es ≡ 0
any_event-nudges k [] e = refl
any_event-nudges k (x ∷ es) e = ground (arith, any_event-nudges k es)

-- A property of the tables that a computation keeps, however it ends.
record Keeps {A : Type 0} (P : Tables → Type 0) (m : M A) : Type 0 where
  on : (w : World) → P w.tables → P (m w).1.tables

module _ {A B : Type 0} (P : Tables → Type 0) where
  Keeps-result :
      (r : Result A) (v : World) (f : A → M B)
      → P v.tables
      → ((a : A) → Keeps P (f a))
      → P (((λ u. (r, v)) >>= f) v).1.tables
  unfolding ◌>>=◌
  Keeps-result (ok a) v f h k = (k a).on v h
  Keeps-result (err e) v f h k = h

  bind-Keeps : (m : M A) (f : A → M B) → Keeps P m → ((a : A) → Keeps P (f a)) → Keeps P (m >>= f)
  unfolding ◌>>=◌
  bind-Keeps m f h k = record { on = λ w p. Keeps-result (m w).0 (m w).1 f (h.on w p) k }

for_each-Keeps :
    {A : Type 0} (P : Tables → Type 0) (xs : List A) (f : A → M ⊤)
    → ((x : A) → Keeps P (f x))
    → Keeps P (for_each xs f)
unfolding for_each pure
for_each-Keeps P [] f k = record { on = λ w p. p }
for_each-Keeps P (x ∷ xs) f k = bind-Keeps P (f x) _ (k x) λ _. for_each-Keeps P xs f k

module _ (env : Env) (k : Uuid) where
  abbrev Once : Tables → Type 0
  Once t = nudges k t.outbox ≤ 1

  find_pending_orders_before-Keeps : (age : ℕ) → Keeps Once (find_pending_orders_before env age)
  unfolding find_pending_orders_before call gets
  find_pending_orders_before-Keeps age = record { on = λ w p. ground arith }

  choose_read :
      {A B : Type 0} (down : Bool) (f : World → A) (rest : A → M B) (w : World)
      → Once w.tables
      → Always Once (rest (f w) w)
      → Once (((λ u. if down then (err driver, u) else (ok (f u), u)) >>= rest) w).1.tables
  unfolding ◌>>=◌
  choose_read true f rest w p h = p
  choose_read false f rest w p h = h.on

  -- A read fails and leaves the tables, or gives its value to what follows.
  read-Always :
      {A B : Type 0} (c : Call) (f : World → A) (rest : A → M B) (w : World)
      → Once w.tables
      → Always Once (rest (f w) w)
      → Once ((call env c (gets f) >>= rest) w).1.tables
  unfolding call gets
  read-Always c f rest w p h = choose_read (env.fails c) f rest w p h

  choose-Once :
      (b : Bool) (w : World) (rest : M ⊤)
      → Once w.tables
      → (b ≡ false → Always Once (rest w))
      → Always Once ((if b then pure tt else rest) w)
  unfolding pure
  choose-Once true w rest p h = record { on = p }
  choose-Once false w rest p h = h refl

  first_nudge :
      (e : OutboxEvent) (es : List OutboxEvent) (j : Uuid)
      → e.aggregate_id ≡ j
      → any_event EventType.order_pending_nudge AggregateType.vendor_order j es ≡ false
      → nudges k es ≤ 1
      → nudges k (es ++ e ∷ []) ≤ 1
  first_nudge e es j own absent p =
      ground (arith, any_event-nudges j es absent, count_if-append (is_nudge k) es (e ∷ []))

  other_event :
      (e : OutboxEvent) (es : List OutboxEvent)
      → e.event_type ≡ EventType.order_expired
      → nudges k es ≤ 1
      → nudges k (es ++ e ∷ []) ≤ 1
  other_event e es type p = ground (arith, count_if-append (is_nudge k) es (e ∷ []))

  emit_pending_nudge-Keeps : (order : VendorOrder) → Keeps Once (emit_pending_nudge env order)
  unfolding emit_pending_nudge outbox_exists
  emit_pending_nudge-Keeps order = record {
    on = λ w p. read-Always Call.outbox_exists _ _ w p (
        choose-Once _ w _ p λ absent.
          with_tx-Always Once env _ w p
            (emit-Post env w _ (first_nudge _ w.tables.outbox order.id refl absent p)));
  }

  expire_order-Keeps : (order : VendorOrder) → Keeps Once (expire_order env order)
  unfolding expire_order
  expire_order-Keeps order = record {
    on = λ w p.
        let run = with_tx-Always Once env _ w p (
          expire_in_tx-Post env w order (λ o rest v. Once v.tables) (λ o found other. p)
            (λ o found pending. p) (λ o i rest v h. expire_item-Post env v i (λ e. h) (λ e rs r. h))
            (λ o v h. other_event _ v.tables.outbox refl h)) in
        run.on;
  }

  -- If at most one nudge was emitted for an order so far, then at most one is after a run of the job,
  -- whatever fails on the way.
  pub nudge_once :
      (w : World)
      → nudges k w.tables.outbox ≤ 1
      → nudges k (run_order_ttl env w).1.tables.outbox ≤ 1
  unfolding run_order_ttl nudge_pending_orders expire_pending_orders
  nudge_once w h =
      let first : Keeps Once (nudge_pending_orders env) =
        bind-Keeps Once _ _ (find_pending_orders_before-Keeps _)
          λ os. for_each-Keeps Once os (emit_pending_nudge env) emit_pending_nudge-Keeps in
      let second : Keeps Once (expire_pending_orders env) =
        bind-Keeps Once _ _ (find_pending_orders_before-Keeps _)
          λ os. for_each-Keeps Once os (expire_order env) expire_order-Keeps in
      second.on (nudge_pending_orders env w).1 (first.on w h)
