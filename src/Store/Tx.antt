-- ===== src/Store/Tx.antt =====
-- A service method as a state-passing computation on the world: a result or an error, and the
-- world after it.
use packfinderz_backend.Prelude.{
  ℕ, Bool, if◌then◌else◌, Option, none, some, List, [], ◌∷◌, ◌≡◌, arith,
}
use packfinderz_backend.Enums.{EventType}
use packfinderz_backend.Errors.{Code, Error, coded, record_not_found, driver, Result, ok, err}
use packfinderz_backend.Store.Tables.{World, Uuid, SquareCall, SquareAnswer}

-- The calls that leave the process, each with the row that it is about.
pub data Call : Type 0 where
  begin commit create_order create_items find_intent create_intent : Call
  find_order update_order find_detail load_store find_item find_items update_item : Uuid → Call
  reserve release update_intent update_assignment ledger_list ledger_record : Uuid → Call
  outbox_exists find_pending : Call
  emit : EventType → Call
  has_role create_license list_licenses : Call
  find_license update_license delete_license list_statuses count_valid : Uuid → Call
  find_store update_store find_media delete_media list_attachments : Uuid → Call
  create_attachment delete_attachment delete_object : Uuid → Call
  find_subscription update_subscription update_store_flag : Uuid → Call
  find_by_square_id create_subscription list_subscriptions : Call

-- What the database decides: the calls that fail, for whatever reason (the connection, a column's
-- range, a constraint), the clock, and the identifiers that it gives to new rows; and what
-- Square answers to a request, after the requests before it.
pub record Env : Type 0 where
  pub fails : Call → Bool
  pub now : ℕ
  pub fresh : ℕ → Uuid
  pub square : List SquareCall → SquareCall → SquareAnswer

abbrev pub M : Type 0 → Type 0
M A = World → Result A × World

abbrev pub ⊤ : Type 0
⊤ = Unit

-- `if err == gorm.ErrRecordNotFound { New(c) } else { Wrap(CodeDependency) }`
abbrev pub not_found_or : Code → Error → Error
not_found_or c record_not_found = coded c
not_found_or c driver = coded Code.dependency
not_found_or c (coded d) = coded Code.dependency

module _ {A : Type 0} where
  unfoldable pub pure : A → M A
  pure a w = (ok a, w)

  unfoldable pub raise : Error → M A
  raise e w = (err e, w)

  unfoldable pub fail : Code → M A
  fail c w = (err (coded c), w)

  unfoldable pub gets : (World → A) → M A
  gets f w = (ok (f w), w)

  unfoldable pub or_raise : Option A → Error → M A
  or_raise none e w = (err e, w)
  or_raise (some a) e w = (ok a, w)

  -- The body with its error, if there is one, put through `f`.
  unfoldable pub map_error : (Error → Error) → M A → M A
  map_error f m w = let (r, w') = m w in elim r [ ok a ↦ (ok a, w') | err e ↦ (err (f e), w') ]

-- `pkgerrors.Wrap(CodeDependency, err, …)`
abbrev pub wrapped : {A : Type 0} → M A → M A
wrapped = map_error (λ e. coded Code.dependency)

-- `if c { return New(code) }`
unfoldable pub fail_if : Bool → Code → M ⊤
fail_if c code w = (if c then err (coded code) else ok tt, w)

unfoldable pub modify : (World → World) → M ⊤
modify f w = (ok tt, f w)

-- The first part of a block, and the rest where it returned. To open this is to open the parts
-- that blocks are made of.
infixl 5 ◌>>=◌ ◌>>◌
unfoldable pub ◌>>=◌ : {A B : Type 0} → M A → (A → M B) → M B
unfolding pure raise fail gets or_raise map_error fail_if modify
◌>>=◌ m f w = let (r, w') = m w in elim r [ ok a ↦ f a w' | err e ↦ (err e, w') ]

abbrev pub ◌>>◌ : {A B : Type 0} → M A → M B → M B
m >> k = m >>= λ _. k

-- `for _, x := range xs { if err := f(x); err != nil { return err } }`
unfoldable pub for_each {ℓ} : {A : Type ℓ} → List A → (A → M ⊤) → M ⊤
for_each [] f = pure tt
for_each (x ∷ xs) f = f x >> for_each xs f

-- After a rollback the tables are as they were; the ledger is written on another connection, and
-- what Square was asked is done.
unfoldable pub rollback : World → World → World
rollback w w' = record w { ledger = w'.ledger; square = w'.square }

module _ (env : Env) where
  -- A call that fails touches nothing.
  unfoldable pub call : {A : Type 0} → Call → M A → M A
  call c m w = if env.fails c then (err driver, w) else m w

  -- `Client.WithTx` of pkg/db/client.go. A commit that fails leaves the tables as they were.
  unfoldable pub with_tx : {A : Type 0} → M A → M A
  unfolding rollback
  with_tx m w =
      if env.fails Call.begin
      then (err driver, w)
      else let (r, w') = m w in
        elim r [
          | ok a ↦ if env.fails Call.commit then (err driver, rollback w w') else (ok a, w')
          | err e ↦ (err e, rollback w w')
        ]

  -- A transaction that reports an error has not touched a table.
  pub with_tx_atomic :
      {A : Type 0} (m : M A) (w : World) {e : Error}
      → (with_tx m w).0 ≡ err e
      → (with_tx m w).1.tables ≡ w.tables
  unfolding with_tx
  with_tx_atomic m w h = ground arith
