-- ===== src/Orders/Void.antt =====
-- Orders that are canceled or expired: no operation touches them or their items again. Here are
-- the invariant that this rests on, and what becomes of it when a table changes.
pub mod Orders
pub mod Items
pub mod Closing
pub mod Steps
pub mod Additions
use packfinderz_backend.Prelude.{
  ℕ, ◌==◌, if◌then◌else◌, Bool, true, false, Option, none, some, List, [], ◌∷◌, ◌≡◌,
}
use packfinderz_backend.Enums.{OrderStatus, ItemStatus}
use packfinderz_backend.Store.Tables.{VendorOrder, LineItem, Tables, Uuid}
use packfinderz_backend.Store.Rows.{find}

abbrev pub is_void : OrderStatus → Bool
is_void OrderStatus.canceled = true
is_void OrderStatus.expired = true
is_void _ = false

-- Fulfilled and rejected items, which no decision changes.
abbrev pub is_final_item : ItemStatus → Bool
is_final_item ItemStatus.fulfilled = true
is_final_item ItemStatus.rejected = true
is_final_item _ = false

abbrev pub order_at : Uuid → List VendorOrder → Option VendorOrder
order_at = find (λ o. o.id)

abbrev pub item_at : Uuid → List LineItem → Option LineItem
item_at = find (λ i. i.id)

-- Every item of a void order is final.
pub record Settled (os : List VendorOrder) (is : List LineItem) : Type 0 where
  pub at :
      (k : Uuid) (i : LineItem) (o : VendorOrder)
      → item_at k is ≡ some i
      → order_at i.order_id os ≡ some o
      → is_void o.status ≡ true
      → is_final_item i.status ≡ true

-- The primary key of the line items.
abbrev pub Unique : List LineItem → Type 0
Unique [] = Unit {0}
Unique (i ∷ is) = (item_at i.id is ≡ none) × Unique is

-- Void orders are as they were.
pub record SameOrders (os os' : List VendorOrder) : Type 0 where
  pub at :
      (k : Uuid) (o : VendorOrder)
      → order_at k os ≡ some o
      → is_void o.status ≡ true
      → order_at k os' ≡ some o

-- The items of the orders that are void in `os` are as they were.
pub record SameItems (os : List VendorOrder) (is is' : List LineItem) : Type 0 where
  pub at :
      (k : Uuid) (i : LineItem) (o : VendorOrder)
      → item_at k is ≡ some i
      → order_at i.order_id os ≡ some o
      → is_void o.status ≡ true
      → item_at k is' ≡ some i

-- What every step keeps, seen from the orders and items that it began with.
pub record Frozen (os : List VendorOrder) (is : List LineItem) (os' : List VendorOrder)
    (is' : List LineItem) : Type 0 where
  pub settled : Settled os' is'
  pub unique : Unique is'
  pub same_orders : SameOrders os os'
  pub same_items : SameItems os is is'

abbrev pub Kept : Tables → Tables → Type 0
Kept t t' = Frozen t.orders t.items t'.orders t'.items

-- The tables that the invariant is about.
pub record Sound (t : Tables) : Type 0 where
  pub settled : Settled t.orders t.items
  pub unique : Unique t.items
