-- ===== src/Pages.antt =====
-- The lists that are read page by page: pkg/pagination/pagination.go, the queries by a cursor, and
-- the two ways in which the services make the next cursor. A cursor's text (base64 of a time in
-- RFC 3339 and a UUID) stands here for the time and the identifier that it is read back to.
pub mod Order
pub mod Walk
pub mod Skips
use packfinderz_backend.Prelude.{
  ℕ, zero, suc, ◌+◌, ◌==◌, ltb, if◌then◌else◌, Bool, true, false, ◌&&◌, ◌||◌, Option, some, none,
  List, [], ◌∷◌, select, ℤ, pos, leb_ℤ, ltb_ℤ, pos_part, length, take, get_elem?, last,
}
use mathlib.Core.Option
use packfinderz_backend.Store.Tables.{Uuid}

-- `DefaultLimit` and `MaxLimit`
abbrev pub default_limit : ℕ
default_limit = 25

abbrev pub max_limit : ℕ
max_limit = 100

-- `NormalizeLimit`
unfoldable pub normalize_limit : ℤ → ℕ
normalize_limit limit =
    if leb_ℤ limit (pos 0)
    then default_limit
    else if ltb_ℤ (pos max_limit) limit
    then max_limit
    else pos_part limit

-- `LimitWithBuffer`
unfoldable pub limit_with_buffer : ℤ → ℕ
limit_with_buffer limit = normalize_limit limit + 1

-- `Cursor`, and the two columns that a list is ordered by
pub record Cursor : Type 0 where
  pub created_at : ℕ
  pub id : Uuid

-- `(created_at < ?) OR (created_at = ? AND id < ?)`
abbrev pub is_before : Cursor → Cursor → Bool
is_before a b = ltb a.created_at b.created_at || (a.created_at == b.created_at && ltb a.id b.id)

pub record Page {ℓ} (A : Type ℓ) : Type ℓ where
  pub items : List A
  pub next : Option Cursor

module _ {ℓ} {A : Type ℓ} (key : A → Cursor) where
  -- `ORDER BY created_at DESC, id DESC`
  unfoldable pub insert_desc : A → List A → List A
  insert_desc x [] = x ∷ []
  insert_desc x (y ∷ ys) =
      let rest = insert_desc x ys in if is_before (key y) (key x) then x ∷ y ∷ ys else y ∷ rest

  unfoldable pub order_desc : List A → List A
  unfolding insert_desc
  order_desc [] = []
  order_desc (x ∷ xs) = insert_desc x (order_desc xs)

  -- The condition of the cursor, if there is one.
  abbrev pub is_after : Option Cursor → A → Bool
  is_after none x = true
  is_after (some c) x = is_before (key x) c

  -- `List` of a repository, on the rows that its filters let through
  unfoldable pub list_rows : Option Cursor → ℕ → List A → List A
  unfolding order_desc
  list_rows cursor limit rows = take limit (order_desc (select (is_after cursor) rows))

  -- What the lists of orders and of media make of the rows that they found: the next cursor is that
  -- of the last row on the page.
  unfoldable pub cut_page : ℕ → List A → Page A
  cut_page size found =
      if ltb size (length found)
      then record { items = take size found; next = Option.map key (last (take size found)) }
      else record { items = found; next = none }

  unfoldable pub page : ℤ → Option Cursor → List A → Page A
  page limit cursor rows =
      cut_page (normalize_limit limit) (list_rows cursor (limit_with_buffer limit) rows)

  -- What `ListLicenses` makes of them: the next cursor is that of the row behind the page.
  unfoldable pub cut_license_page : ℕ → List A → Page A
  cut_license_page size found =
      if ltb size (length found)
      then record { items = take size found; next = Option.map key (get_elem? found size) }
      else record { items = found; next = none }

  unfoldable pub license_page : ℤ → Option Cursor → List A → Page A
  license_page limit cursor rows =
      cut_license_page (normalize_limit limit) (list_rows cursor (limit_with_buffer limit) rows)
