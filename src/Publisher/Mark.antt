-- ===== src/Publisher/Mark.antt =====
-- A change of one row of the outbox, and what it leaves of the account of the rows.
use packfinderz_backend.Prelude.{
  ℕ, ◌==◌, leb, if◌then◌else◌, Bool, true, false, ◌||◌, some, List, [], ◌∷◌, ◌++◌, ◌≡◌, refl, arith,
  All, Bool-cases, inl, inr,
}
use mathlib.Core.Option
use mathlib.Core.Path.{sym, subst}
use packfinderz_backend.Store.Tables.{Uuid}
use packfinderz_backend.Store.Rows.{update, find-update}
use packfinderz_backend.Publisher.{Row, Outbox, DeadLetter, is_published}
use packfinderz_backend.Publisher.Fetch.{row_at, has_id, Distinct}

abbrev pub in_sent : Uuid → List (ℕ × Uuid) → Bool
in_sent k [] = false
in_sent k (m ∷ ms) = m.1 == k || in_sent k ms

abbrev pub in_dlq : Uuid → List DeadLetter → Bool
in_dlq k [] = false
in_dlq k (d ∷ ds) = d.event_id == k || in_dlq k ds

-- A published row was sent, and one that is given up has a dead letter.
pub record Accounted (max : ℕ) (r : Row) (k : Uuid) (sent : List (ℕ × Uuid)) (dlq : List DeadLetter)
    : Type 0 where
  pub published : is_published r ≡ true → in_sent k sent ≡ true
  pub given_up : is_published r ≡ false → leb max r.attempt_count ≡ true → in_dlq k dlq ≡ true

-- Every row of the table is accounted for, and no identifier stands twice.
pub record Safe (max : ℕ) (s : Outbox) : Type 0 where
  pub at : (k : Uuid) (r : Row) → row_at k s.rows ≡ some r → Accounted max r k s.sent s.dlq
  pub distinct : Distinct s.rows

-- In the middle of a batch: the rows to come are as the table has them, none twice.
pub record Working (max : ℕ) (rest : List Row) (s : Outbox) : Type 0 where
  pub safe : Safe max s
  pub fresh : All (λ r. row_at r.id s.rows ≡ some r) rest
  pub apart : Distinct rest

pub in_dlq-append :
    (k : Uuid) (ds es : List DeadLetter) → in_dlq k (ds ++ es) ≡ (in_dlq k ds || in_dlq k es)
in_dlq-append k [] es = refl
in_dlq-append k (d ∷ ds) es = ground (arith, in_dlq-append k ds es)

module _ (j : Uuid) (f : Row → Row) (keep : (r : Row) → (f r).id ≡ r.id) where
  row_at-update :
      (k : Uuid) (rs : List Row)
      → row_at k (update (λ r. r.id) j f rs)
        ≡ (if k == j then Option.map f (row_at k rs) else row_at k rs)
  row_at-update k rs = find-update (λ r. r.id) f keep k j rs

  has_id-update : (k : Uuid) (rs : List Row) → has_id k (update (λ r. r.id) j f rs) ≡ has_id k rs
  has_id-update k [] = refl
  has_id-update k (r ∷ rs) = ground (arith, has_id-update k rs, keep r)

  Distinct-update : (rs : List Row) → Distinct rs → Distinct (update (λ r. r.id) j f rs)
  Distinct-update [] d = tt
  Distinct-update (r ∷ rs) d = ground (arith, Distinct-update rs, has_id-update r.id rs, keep r)

  fresh-update :
      (rest rows : List Row)
      → has_id j rest ≡ false
      → All (λ r. row_at r.id rows ≡ some r) rest
      → All (λ r. row_at r.id (update (λ x. x.id) j f rows) ≡ some r) rest
  fresh-update [] rows new h = tt
  fresh-update (x ∷ rest) rows new h =
      (ground (arith, row_at-update x.id rows, h.0), fresh-update rest rows (ground arith) h.1)

-- One row of the batch is changed, and is accounted for.
pub Working-update :
    (max : ℕ) (r : Row) (rest : List Row) (s : Outbox) (f : Row → Row)
    → ((x : Row) → (f x).id ≡ x.id)
    → (dlq : List DeadLetter) → ((k : Uuid) → in_dlq k s.dlq ≡ true → in_dlq k dlq ≡ true)
    → Accounted max (f r) r.id s.sent dlq
    → Working max (r ∷ rest) s
    → Working max rest (record s { rows = update (λ x. x.id) r.id f s.rows; dlq = dlq })
Working-update max r rest s f keep dlq more fine h = record {
  safe = record {
    at = λ k x e. elim (Bool-cases (k == r.id)) [
      | inl hit ↦
          let same : k ≡ r.id = ground arith in
          let here : row_at k s.rows ≡ some r =
            subst (λ j. row_at j s.rows ≡ some r) (sym same) h.fresh.0 in
          let new : x ≡ f r = ground (arith, row_at-update r.id f keep k s.rows) in
          subst (λ j. Accounted max x j s.sent dlq) (sym same)
            (subst (λ y. Accounted max y r.id s.sent dlq) (sym new) fine)
      | inr miss ↦
          let old : row_at k s.rows ≡ some x = ground (arith, row_at-update r.id f keep k s.rows) in
          let was = h.safe.at k x old in
          record { published = was.published; given_up = λ a b. more k (was.given_up a b) }
    ];
    distinct = Distinct-update r.id f keep s.rows h.safe.distinct;
  };
  fresh = fresh-update r.id f keep rest s.rows h.apart.0 h.fresh.1;
  apart = h.apart.1;
}
