-- ===== src/Pages/Skips.antt =====
-- To follow the cursors of `ListLicenses` is to miss a row at the end of every page but the last:
-- the cursor is that of the first row that was not shown, and the next page starts behind it.
use packfinderz_backend.Prelude.{
  ℕ, zero, suc, ◌+◌, ◌<◌, ◌≤◌, ltb, true, Option, some, none, List, [], ◌∷◌, ◌++◌, ◌≡◌, refl, sym,
  ap, ◌∙◌, arith, select, ℤ, Bool-cases, inl, inr, length, take, get_elem?, length-append,
}
use mathlib.Core.List.{append_assoc}
use packfinderz_backend.Pages.{
  Cursor, order_desc, is_after, list_rows, normalize_limit, limit_with_buffer, license_page,
  cut_license_page,
}
use packfinderz_backend.Pages.Order.{Distinct}
use packfinderz_backend.Pages.Walk.{
  concat, cut, take_all, take_front, length-take, take-take, rows_behind, select_every,
  normalize_limit_bounds, positive, length-order_desc,
}

module _ {ℓ} {A : Type ℓ} where
  get_elem-front :
      (ys : List A) (y z : A) (zs : List A)
      → get_elem? (ys ++ y ∷ z ∷ zs) (suc (length ys)) ≡ some z
  get_elem-front [] y z zs = refl
  get_elem-front (x ∷ ys) y z zs = get_elem-front ys y z zs

  get_elem-take : (n : ℕ) (xs : List A) → get_elem? (take (suc n) xs) n ≡ get_elem? xs n
  get_elem-take n [] = refl
  get_elem-take zero (x ∷ xs) = refl
  get_elem-take (suc n) (x ∷ xs) = get_elem-take n xs

  uncons : (zs : List A) → 0 < length zs → (z : A) × (tail : List A) × (zs ≡ z ∷ tail)
  uncons [] h = absurd (omega arith)
  uncons (z ∷ tail) h = (z, tail, refl)

module _ {ℓ} {A : Type ℓ} (key : A → Cursor) where
  -- A client that follows the cursors until there is none, on at most `fuel` pages.
  unfoldable pub license_walk : ℕ → ℤ → Option Cursor → List A → List (List A)
  license_walk zero limit cursor rows = []
  license_walk (suc fuel) limit cursor rows =
      let p = license_page key limit cursor rows in
      p.items ∷ (elim p.next [ none ↦ [] | some c ↦ license_walk fuel limit (some c) rows ])

  license_cut_last :
      (size : ℕ) (rest : List A)
      → length rest ≤ size
      → cut_license_page key size (take (size + 1) rest) ≡ record { items = rest; next = none }
  unfolding cut_license_page
  license_cut_last size rest h = rw (take_all (size + 1) rest (omega arith)) (ground arith)

  license_cut_more :
      (ys : List A) (y z : A) (zs : List A)
      → cut_license_page key (suc (length ys)) (take (suc (length ys) + 1) (ys ++ y ∷ z ∷ zs))
        ≡ record { items = ys ++ y ∷ []; next = some (key z) }
  unfolding cut_license_page
  license_cut_more ys y z zs =
      let n = suc (length ys) in
      let all = ys ++ y ∷ z ∷ zs in
      let long = length-take (suc n) all (omega (arith, length-append ys (y ∷ z ∷ zs))) in
      let front : take n (take (suc n) all) ≡ ys ++ y ∷ [] =
        take-take n all ∙ take_front ys y (z ∷ zs) in
      let more : ltb n (length (take (suc n) all)) ≡ true = ground arith in
      let end : get_elem? (take (suc n) all) n ≡ some z =
        get_elem-take n all ∙ get_elem-front ys y z zs in
      let one : n + 1 ≡ suc n = omega arith in rw one (rw more (rw front (rw end)))

  license_page-eq :
      (limit : ℤ) (cursor : Option Cursor) (rows rest : List A)
      → order_desc key (select (is_after key cursor) rows) ≡ rest
      → license_page key limit cursor rows
        ≡ cut_license_page key (normalize_limit limit) (take (normalize_limit limit + 1) rest)
  unfolding license_page limit_with_buffer list_rows
  license_page-eq limit cursor rows rest e = rw e

  -- The rows on the pages, and the row that is lost between two pages.
  abbrev pub Counted : List (List A) → ℕ → Type 0
  Counted pages n = (length (concat pages) + length pages ≡ n + 1) × (0 < length pages)

  module _ (limit : ℤ) (rows : List A) (d : Distinct key rows) where
    license_walk_rest :
        (fuel : ℕ) (cursor : Option Cursor) (front rest : List A)
        → length rest < fuel
        → order_desc key rows ≡ front ++ rest
        → order_desc key (select (is_after key cursor) rows) ≡ rest
        → Counted (license_walk fuel limit cursor rows) (length rest)
    unfolding license_walk
    license_walk_rest zero cursor front rest h whole left = absurd (omega arith)
    license_walk_rest (suc fuel) cursor front rest h whole left =
        elim (Bool-cases (ltb (normalize_limit limit) (length rest))) [
          | inl more ↦
              let (m, size) =
                positive key (normalize_limit limit) (normalize_limit_bounds limit).0 in
              let (ys, y, zs, e, l, p) = cut m rest (ground arith) in
              let (z, tail, t) = uncons zs p in
              let n : suc (length ys) ≡ normalize_limit limit = omega arith in
              let e' : rest ≡ ys ++ y ∷ z ∷ tail = e ∙ ap (λ ws. ys ++ y ∷ ws) t in
              let shown : license_page key limit cursor rows
                  ≡ record { items = ys ++ y ∷ []; next = some (key z) } =
                license_page-eq limit cursor rows rest left
                ∙ rw (← n) (rw e' (license_cut_more ys y z tail)) in
              let before = (front ++ ys) ++ y ∷ [] in
              let whole' : order_desc key rows ≡ before ++ z ∷ tail =
                whole
                ∙ ap (λ ws. front ++ ws) e'
                ∙ sym (append_assoc front ys (y ∷ z ∷ tail))
                ∙ sym (append_assoc (front ++ ys) (y ∷ []) (z ∷ tail)) in
              let left' = rows_behind key before z tail rows d whole' in
              let count = ap length e' in
              let count' = length-append ys (y ∷ z ∷ tail) in
              let next =
                license_walk_rest fuel (some (key z)) (before ++ z ∷ []) tail (omega arith)
                  (whole' ∙ sym (append_assoc before (z ∷ []) tail)) left' in
              let pages = license_walk fuel limit (some (key z)) rows in
              let shown_count = length-append (ys ++ y ∷ []) (concat pages) in
              let items_count = length-append ys (y ∷ []) in rw shown (omega arith, omega arith)
          | inr last_ ↦
              let shown : license_page key limit cursor rows
                  ≡ record { items = rest; next = none } =
                license_page-eq limit cursor rows rest left
                ∙ license_cut_last (normalize_limit limit) rest (ground arith) in
              rw shown (omega (arith, length-append rest []), omega arith)
        ]

    -- Where no two licenses have one identifier, to follow the cursors of `ListLicenses` shows one
    -- license less than there are for each page after the first, whatever limit the client gives.
    pub license_walk_lem :
        let pages = license_walk (suc (length rows)) limit none rows in
        (length (concat pages) + length pages ≡ length rows + 1) × (0 < length pages)
    license_walk_lem =
        let n = length-order_desc key rows in
        let all =
          license_walk_rest (suc (length rows)) none [] (order_desc key rows) (omega arith) refl
            (ap (order_desc key) (select_every rows)) in
        (omega arith, all.1)
