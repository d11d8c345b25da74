-- ===== src/Pages/Order.antt =====
-- The order of the lists: what the sort by cursor does, and what a cursor cuts off.
use packfinderz_backend.Prelude.{
  ◌==◌, if◌then◌else◌, Bool, true, false, List, [], ◌∷◌, ◌++◌, ◌≡◌, refl, arith, select, count_if,
  All, Bool-cases, inl, inr,
}
use packfinderz_backend.Pages.{Cursor, is_before, insert_desc, order_desc}

module _ {ℓ} {A : Type ℓ} (key : A → Cursor) where
  -- Every later row is before every earlier one.
  abbrev pub Descends : List A → Type 0
  Descends [] = Unit
  Descends (x ∷ xs) = All (λ y. is_before (key y) (key x) ≡ true) xs × Descends xs

  -- No two rows have one identifier.
  abbrev pub Distinct : List A → Type 0
  Distinct [] = Unit
  Distinct (x ∷ xs) = All (λ y. ((key y).id == (key x).id) ≡ false) xs × Distinct xs

  All-insert_desc {κ} :
      (P : A → Type κ) (x : A) (ys : List A) → P x → All P ys → All P (insert_desc key x ys)
  unfolding insert_desc
  All-insert_desc P x [] p h = (p, tt)
  All-insert_desc P x (y ∷ ys) p h = elim (Bool-cases (is_before (key y) (key x))) [
    | inl first ↦ rw first (p, h)
    | inr later ↦ rw later (h.0, All-insert_desc P x ys p h.1)
  ]

  All-order_desc {κ} : (P : A → Type κ) (xs : List A) → All P xs → All P (order_desc key xs)
  unfolding order_desc
  All-order_desc P [] h = tt
  All-order_desc P (x ∷ xs) h =
      All-insert_desc P x (order_desc key xs) h.0 (All-order_desc P xs h.1)

  -- What is behind a row that is behind another.
  behind_both :
      (x y : A) (ys : List A)
      → is_before (key y) (key x) ≡ true
      → All (λ z. is_before (key z) (key y) ≡ true) ys
      → All (λ z. is_before (key z) (key x) ≡ true) ys
  behind_both x y [] h k = tt
  behind_both x y (z ∷ ys) h k = (ground arith, behind_both x y ys h k.1)

  insert_desc-Descends :
      (x : A) (ys : List A)
      → All (λ y. ((key y).id == (key x).id) ≡ false) ys
      → Descends ys
      → Descends (insert_desc key x ys)
  unfolding insert_desc
  insert_desc-Descends x [] d h = (tt, tt)
  insert_desc-Descends x (y ∷ ys) d h = elim (Bool-cases (is_before (key y) (key x))) [
    | inl first ↦ rw first ((first, behind_both x y ys first h.0), h)
    | inr later ↦
        let other = d.0 in
        rw later (
          All-insert_desc (λ z. is_before (key z) (key y) ≡ true) x ys (ground arith) h.0,
          insert_desc-Descends x ys d.1 h.1,
        )
  ]

  -- The sort puts every row behind those that are after it.
  pub order_desc-Descends : (xs : List A) → Distinct xs → Descends (order_desc key xs)
  unfolding order_desc
  order_desc-Descends [] d = tt
  order_desc-Descends (x ∷ xs) d =
      insert_desc-Descends x (order_desc key xs) (All-order_desc _ xs d.0)
        (order_desc-Descends xs d.1)

  count_if-insert_desc :
      (p : A → Bool) (x : A) (ys : List A) → count_if p (insert_desc key x ys) ≡ count_if p (x ∷ ys)
  unfolding insert_desc
  count_if-insert_desc p x [] = refl
  count_if-insert_desc p x (y ∷ ys) = elim (Bool-cases (is_before (key y) (key x))) [
    | inl first ↦ rw first
    | inr later ↦ rw later (ground (arith, count_if-insert_desc p x ys))
  ]

  -- And it loses and repeats none.
  pub count_if-order_desc :
      (p : A → Bool) (xs : List A) → count_if p (order_desc key xs) ≡ count_if p xs
  unfolding order_desc
  count_if-order_desc p [] = refl
  count_if-order_desc p (x ∷ xs) =
      ground (arith, count_if-insert_desc p x (order_desc key xs), count_if-order_desc p xs)

  select-insert_desc :
      (c : Cursor) (x : A) (ys : List A)
      → select (λ y. is_before (key y) c) (insert_desc key x ys) ≡ (
          if is_before (key x) c
          then insert_desc key x (select (λ y. is_before (key y) c) ys)
          else select (λ y. is_before (key y) c) ys)
  unfolding insert_desc
  select-insert_desc c x [] = ground arith
  select-insert_desc c x (y ∷ ys) =
      let rest = select-insert_desc c x ys in
      elim (Bool-cases (is_before (key y) (key x))) [
        | inl first ↦ elim (Bool-cases (is_before (key x) c)) [
          | inl in_ ↦
              let down : is_before (key y) c ≡ true = ground arith in
              rw first (rw in_ (rw down (rw first)))
          | inr out ↦ rw first (rw out)
        ]
        | inr later ↦ elim (Bool-cases (is_before (key x) c)) [
          | inl in_ ↦ elim (Bool-cases (is_before (key y) c)) [
            | inl y_in ↦ rw later (rw in_ (rw y_in (rw later (ground (arith, rest)))))
            | inr y_out ↦ rw later (rw in_ (rw y_out (ground (arith, rest))))
          ]
          | inr out ↦ rw later (rw out (ground (arith, rest)))
        ]
      ]

  -- The condition of a cursor and the sort can be taken in either order.
  pub order_desc-select :
      (c : Cursor) (xs : List A)
      → order_desc key (select (λ y. is_before (key y) c) xs)
        ≡ select (λ y. is_before (key y) c) (order_desc key xs)
  unfolding order_desc
  order_desc-select c [] = refl
  order_desc-select c (x ∷ xs) =
      let rest = order_desc-select c xs in
      let step = select-insert_desc c x (order_desc key xs) in
      elim (Bool-cases (is_before (key x) c)) [
        | inl in_ ↦ rw in_ (rw rest (ground (arith, step)))
        | inr out ↦ rw out (rw rest (ground (arith, step)))
      ]

  whole_behind :
      (c : Cursor) (zs : List A)
      → All (λ z. is_before (key z) c ≡ true) zs
      → select (λ y. is_before (key y) c) zs ≡ zs
  whole_behind c [] h = refl
  whole_behind c (z ∷ zs) h = ground (arith, whole_behind c zs h.1)

  -- The cursor of a row cuts off that row and those that stand before it.
  pub select_behind :
      (xs : List A) (y : A) (zs : List A)
      → Descends (xs ++ y ∷ zs)
      → select (λ x. is_before (key x) (key y)) (xs ++ y ∷ zs) ≡ zs
  select_behind [] y zs h = ground (arith, whole_behind (key y) zs h.0)
  select_behind (x ∷ xs) y zs h =
      let front = front_of x xs y zs h.0 in ground (arith, select_behind xs y zs h.1)
    where
      front_of :
          (x : A) (xs : List A) (y : A) (zs : List A)
          → All (λ w. is_before (key w) (key x) ≡ true) (xs ++ y ∷ zs)
          → is_before (key y) (key x) ≡ true
      front_of x [] y zs h = h.0
      front_of x (w ∷ xs) y zs h = front_of x xs y zs h.1
