-- ===== src/Store/Ends.antt =====
-- What becomes of the ledger: it is written on its own connection, so also a computation that fails
-- may have written it.
use packfinderz_backend.Prelude.{
  if◌then◌else◌, Bool, true, false, Option, List, ◌≡◌, arith, ◌∙◌, sym,
}
use mathlib.Core.Path.{subst}
use packfinderz_backend.Errors.{Code, Error, driver, Result, ok, err}
use packfinderz_backend.Store.Tables.{LedgerEvent, World}
use packfinderz_backend.Store.Tx.{
  Call, Env, M, pure, raise, fail, fail_if, gets, or_raise, modify, map_error, call, ◌>>=◌,
}

-- From the ledger `es`, the computation ends with a ledger of `P`, whether it returns or fails.
pub record Ends {A : Type 0} (es : List LedgerEvent) (P : List LedgerEvent → Type 0) (m : M A)
    : Type 0 where
  pub on : (w : World) → w.ledger ≡ es → P (m w).1.ledger

module _ (es : List LedgerEvent) where
  abbrev pub Same : List LedgerEvent → Type 0
  Same es' = es' ≡ es

  module _ {A B : Type 0} (P : List LedgerEvent → Type 0) where
    ends_result :
        (r : Result A) (v : World) (f : A → M B)
        → P es
        → v.ledger ≡ es
        → ((a : A) → Ends es P (f a))
        → P (((λ u. (r, v)) >>= f) v).1.ledger
    unfolding ◌>>=◌
    ends_result (ok a) v f p e k = (k a).on v e
    ends_result (err x) v f p e k = subst P (sym e) p

    -- A part that leaves the ledger, and then the rest.
    pub bind-Ends :
        (m : M A) (f : A → M B)
        → P es
        → Ends es Same m
        → ((a : A) → Ends es P (f a))
        → Ends es P (m >>= f)
    unfolding ◌>>=◌
    bind-Ends m f p h k = record { on = λ w e. ends_result (m w).0 (m w).1 f p (h.on w e) k }

  module _ {A : Type 0} where
    pub pure-Ends : (a : A) → Ends es Same (pure a)
    unfolding pure
    pure-Ends a = record { on = λ w e. e }

    pub raise-Ends : (x : Error) → Ends es Same (raise {A = A} x)
    unfolding raise
    raise-Ends x = record { on = λ w e. e }

    pub fail-Ends : (c : Code) → Ends es Same (fail {A = A} c)
    unfolding fail
    fail-Ends c = record { on = λ w e. e }

    pub if-Ends :
        (P : List LedgerEvent → Type 0) (b : Bool) (m n : M A)
        → Ends es P m
        → Ends es P n
        → Ends es P (if b then m else n)
    if-Ends P true m n h k = h
    if-Ends P false m n h k = k

    choose_call :
        (down : Bool) (m : M A)
        → Ends es Same m
        → Ends es Same (λ w. if down then (err driver, w) else m w)
    choose_call true m h = record { on = λ w e. e }
    choose_call false m h = record { on = λ w e. h.on w e }

    pub call-Ends : (env : Env) (c : Call) (m : M A) → Ends es Same m → Ends es Same (call env c m)
    unfolding call
    call-Ends env c m h = let k = choose_call (env.fails c) m h in record { on = λ w e. k.on w e }

    mapped :
        (f : Error → Error) (r : Result A) (v : World) (P : List LedgerEvent → Type 0)
        → P v.ledger
        → P (map_error f (λ u. (r, v)) v).1.ledger
    unfolding map_error
    mapped f (ok a) v P h = h
    mapped f (err x) v P h = h

    pub map_error-Ends :
        (P : List LedgerEvent → Type 0) (f : Error → Error) (m : M A)
        → Ends es P m
        → Ends es P (map_error f m)
    unfolding map_error
    map_error-Ends P f m h = record { on = λ w e. mapped f (m w).0 (m w).1 P (h.on w e) }

    pub gets-Ends : (f : World → A) → Ends es Same (gets f)
    unfolding gets
    gets-Ends f = record { on = λ w e. e }

    pub or_raise-Ends : (o : World → Option A) (x : Error) → Ends es Same (λ w. or_raise (o w) x w)
    unfolding or_raise
    or_raise-Ends o x = record { on = λ w e. ground arith }

  pub fail_if-Ends : (b : Bool) (c : Code) → Ends es Same (fail_if b c)
  unfolding fail_if
  fail_if-Ends b c = record { on = λ w e. e }

  pub modify-Ends :
      (f : World → World) → ((w : World) → (f w).ledger ≡ w.ledger) → Ends es Same (modify f)
  unfolding modify
  modify-Ends f keep = record { on = λ w e. keep w ∙ e }
