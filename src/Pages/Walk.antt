-- ===== src/Pages/Walk.antt =====
-- To follow the cursors of a list of orders or of media is to read every row once.
use packfinderz_backend.Prelude.{
  ℕ, zero, suc, ◌+◌, ◌<◌, ◌≤◌, ltb, Bool, true, Option, some, none, List, [], ◌∷◌, ◌++◌, ◌≡◌, refl,
  sym, ap, ◌∙◌, arith, select, count_if, ℤ, Bool-cases, inl, inr, length, take, last, length-append,
}
use mathlib.Core.Path.{subst}
use mathlib.Core.List.{append_assoc, append-nil}
use packfinderz_backend.Pages.{
  Cursor, is_before, order_desc, is_after, list_rows, normalize_limit, limit_with_buffer, page,
  cut_page,
}
use packfinderz_backend.Pages.Order.{
  Descends, Distinct, order_desc-Descends, order_desc-select, select_behind, count_if-order_desc,
}

-- The limit that a client gives is brought between 1 and 100.
pub normalize_limit_bounds :
    (limit : ℤ) → (1 ≤ normalize_limit limit) × (normalize_limit limit ≤ 100)
unfolding normalize_limit
normalize_limit_bounds limit = ground arith

module _ {ℓ} {A : Type ℓ} where
  abbrev pub concat : List (List A) → List A
  concat [] = []
  concat (xs ∷ xss) = xs ++ concat xss

  pub select_every : (xs : List A) → select (λ x. true) xs ≡ xs
  select_every [] = refl
  select_every (x ∷ xs) = ap (λ ys. x ∷ ys) (select_every xs)

  pub take_all : (n : ℕ) (xs : List A) → length xs ≤ n → take n xs ≡ xs
  take_all zero [] h = refl
  take_all zero (x ∷ xs) h = absurd (omega arith)
  take_all (suc n) [] h = refl
  take_all (suc n) (x ∷ xs) h = ap (λ ys. x ∷ ys) (take_all n xs (omega arith))

  -- A list of more than `suc n` elements, cut behind the first `suc n`.
  pub cut :
      (n : ℕ) (xs : List A)
      → suc n < length xs
      → (ys : List A) × (y : A) × (zs : List A) × (xs ≡ ys ++ y ∷ zs)
        × (length ys ≡ n)
        × (0 < length zs)
  cut n [] h = absurd (omega arith)
  cut zero (x ∷ xs) h = ([], x, xs, refl, omega arith, omega arith)
  cut (suc n) (x ∷ xs) h =
      let (ys, y, zs, e, l, p) = cut n xs (omega arith) in
      (x ∷ ys, y, zs, ap (λ ws. x ∷ ws) e, omega (arith, l), p)

  pub take_front :
      (ys : List A) (y : A) (zs : List A) → take (suc (length ys)) (ys ++ y ∷ zs) ≡ ys ++ y ∷ []
  take_front [] y zs = refl
  take_front (x ∷ ys) y zs = ap (λ ws. x ∷ ws) (take_front ys y zs)

  pub length-take : (n : ℕ) (xs : List A) → n ≤ length xs → length (take n xs) ≡ n
  length-take zero xs h = omega arith
  length-take (suc n) [] h = absurd (omega arith)
  length-take (suc n) (x ∷ xs) h = omega (arith, length-take n xs)

  pub take-take : (n : ℕ) (xs : List A) → take n (take (suc n) xs) ≡ take n xs
  take-take zero xs = refl
  take-take (suc n) [] = refl
  take-take (suc n) (x ∷ xs) = ap (λ ws. x ∷ ws) (take-take n xs)

  pub last_append : (ys : List A) (y : A) → last (ys ++ y ∷ []) ≡ some y
  last_append [] y = refl
  last_append (x ∷ []) y = refl
  last_append (x ∷ z ∷ ys) y = last_append (z ∷ ys) y

module _ {ℓ} {A : Type ℓ} (key : A → Cursor) where
  -- A client that follows the cursors until there is none, on at most `fuel` pages.
  unfoldable pub walk : ℕ → ℤ → Option Cursor → List A → List (List A)
  walk zero limit cursor rows = []
  walk (suc fuel) limit cursor rows =
      let p = page key limit cursor rows in
      p.items ∷ (elim p.next [ none ↦ [] | some c ↦ walk fuel limit (some c) rows ])

  -- The rows from the cursor on, where the sorted rows are cut.
  pub rows_behind :
      (xs : List A) (y : A) (zs rows : List A)
      → Distinct key rows
      → order_desc key rows ≡ xs ++ y ∷ zs
      → order_desc key (select (is_after key (some (key y))) rows) ≡ zs
  rows_behind xs y zs rows d e =
      order_desc-select key (key y) rows
      ∙ ap (select (λ x. is_before (key x) (key y))) e
      ∙ select_behind key xs y zs (subst (λ ws. Descends key ws) e (order_desc-Descends key rows d))

  cut_last :
      (size : ℕ) (rest : List A)
      → length rest ≤ size
      → cut_page key size (take (size + 1) rest) ≡ record { items = rest; next = none }
  unfolding cut_page
  cut_last size rest h = rw (take_all (size + 1) rest (omega arith)) (ground arith)

  cut_more :
      (ys : List A) (y : A) (zs : List A)
      → 0 < length zs
      → cut_page key (suc (length ys)) (take (suc (length ys) + 1) (ys ++ y ∷ zs))
        ≡ record { items = ys ++ y ∷ []; next = some (key y) }
  unfolding cut_page
  cut_more ys y zs p =
      let n = suc (length ys) in
      let all = ys ++ y ∷ zs in
      let long = length-take (suc n) all (omega (arith, length-append ys (y ∷ zs))) in
      let front : take n (take (suc n) all) ≡ ys ++ y ∷ [] = take-take n all ∙ take_front ys y zs in
      let more : ltb n (length (take (suc n) all)) ≡ true = ground arith in
      let end = last_append ys y in
      let one : n + 1 ≡ suc n = omega arith in rw one (rw more (rw front (rw end)))

  page-eq :
      (limit : ℤ) (cursor : Option Cursor) (rows rest : List A)
      → order_desc key (select (is_after key cursor) rows) ≡ rest
      → page key limit cursor rows
        ≡ cut_page key (normalize_limit limit) (take (normalize_limit limit + 1) rest)
  unfolding page limit_with_buffer list_rows
  page-eq limit cursor rows rest e = rw e

  count_every : (xs : List A) → count_if (λ x. true) xs ≡ length xs
  count_every [] = refl
  count_every (x ∷ xs) = omega (arith, count_every xs)

  pub length-order_desc : (xs : List A) → length (order_desc key xs) ≡ length xs
  length-order_desc xs =
      sym (count_every (order_desc key xs))
      ∙ count_if-order_desc key (λ x. true) xs
      ∙ count_every xs

  pub positive : (n : ℕ) → 1 ≤ n → (m : ℕ) × (n ≡ suc m)
  positive zero h = absurd (omega arith)
  positive (suc m) h = (m, refl)

  module _ (limit : ℤ) (rows : List A) (d : Distinct key rows) where
    -- The rows are those before the cursor and those that are left.
    walk_rest :
        (fuel : ℕ) (cursor : Option Cursor) (front rest : List A)
        → length rest < fuel
        → order_desc key rows ≡ front ++ rest
        → order_desc key (select (is_after key cursor) rows) ≡ rest
        → concat (walk fuel limit cursor rows) ≡ rest
    unfolding walk
    walk_rest zero cursor front rest h whole left = absurd (omega arith)
    walk_rest (suc fuel) cursor front rest h whole left =
        elim (Bool-cases (ltb (normalize_limit limit) (length rest))) [
          | inl more ↦
              let (m, size) = positive (normalize_limit limit) (normalize_limit_bounds limit).0 in
              let (ys, y, zs, e, l, p) = cut m rest (ground arith) in
              let n : suc (length ys) ≡ normalize_limit limit = omega arith in
              let shown : page key limit cursor rows
                  ≡ record { items = ys ++ y ∷ []; next = some (key y) } =
                page-eq limit cursor rows rest left ∙ rw (← n) (rw e (cut_more ys y zs p)) in
              let whole' : order_desc key rows ≡ (front ++ ys) ++ y ∷ zs =
                whole ∙ ap (λ ws. front ++ ws) e ∙ sym (append_assoc front ys (y ∷ zs)) in
              let left' = rows_behind (front ++ ys) y zs rows d whole' in
              let next =
                walk_rest fuel (some (key y)) ((front ++ ys) ++ y ∷ []) zs
                  (omega (arith, ap length e, length-append ys (y ∷ zs)))
                  (whole' ∙ sym (append_assoc (front ++ ys) (y ∷ []) zs)) left' in
              rw shown (rw next (append_assoc ys (y ∷ []) zs ∙ sym e))
          | inr last_ ↦
              let shown : page key limit cursor rows ≡ record { items = rest; next = none } =
                page-eq limit cursor rows rest left
                ∙ cut_last (normalize_limit limit) rest (ground arith) in
              rw shown (append-nil rest)
        ]

    -- Where no two rows have one identifier, to follow the cursors from the first page on, for at
    -- most one page more than there are rows, reads the rows from the latest to the earliest, and
    -- every row exactly once, whatever limit the client gives.
    pub walk_lem :
        Descends key (concat (walk (suc (length rows)) limit none rows))
        × ((p : A → Bool)
            → count_if p (concat (walk (suc (length rows)) limit none rows)) ≡ count_if p rows)
    walk_lem =
        let all =
          walk_rest (suc (length rows)) none [] (order_desc key rows)
            (omega (arith, length-order_desc rows)) refl
            (ap (order_desc key) (select_every rows)) in
        (rw all (order_desc-Descends key rows d), λ p. rw all (count_if-order_desc key p rows))
