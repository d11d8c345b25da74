-- ===== src/Store/Atomic.antt =====
-- A computation that reports an error has written no table. Outside the tables stands the ledger.
use packfinderz_backend.Prelude.{◌≡◌, refl, ap, sym}
use mathlib.Core.Path.{subst}
use packfinderz_backend.Errors.{Error, Result, ok, err}
use packfinderz_backend.Store.Tables.{World}
use packfinderz_backend.Store.Tx.{Env, M, pure, with_tx, with_tx_atomic, ◌>>=◌}
use packfinderz_backend.Store.Always.{Still}

pub record Atomic {A : Type 0} (run : Result A × World) (w : World) : Type 0 where
  pub at : {e : Error} → run.0 ≡ err e → run.1.tables ≡ w.tables

module _ {A : Type 0} where
  pub with_tx-Atomic : (env : Env) (m : M A) (w : World) → Atomic (with_tx env m w) w
  with_tx-Atomic env m w = record { at = λ e. with_tx_atomic env m w e }

module _ {A B : Type 0} where
  still-Atomic :
      (r : Result A) (v w : World) (f : A → M B)
      → v ≡ w
      → ((a : A) → Atomic (f a w) w)
      → Atomic (((λ u. (r, v)) >>= f) w) w
  unfolding ◌>>=◌
  still-Atomic (ok a) v w f same k = subst (λ u. Atomic (f a u) w) (sym same) (k a)
  still-Atomic (err x) v w f same k = record { at = λ e. ap (λ u. u.tables) same }

  -- Checks that write nothing, and then the rest.
  pub bind-Atomic :
      (m : M A) (f : A → M B) (w : World)
      → Still m
      → ((a : A) → Atomic (f a w) w)
      → Atomic ((m >>= f) w) w
  unfolding ◌>>=◌
  bind-Atomic m f w quiet k =
      let (r, v) = m w in let same = still-Atomic r v w f (quiet.at w) k in record { at = same.at }

  pure-Atomic' :
      (r : Result A) (v w : World) (f : A → B)
      → Atomic (r, v) w
      → Atomic (((λ u. (r, v)) >>= λ a. pure (f a)) w) w
  unfolding ◌>>=◌ pure
  pure-Atomic' (ok a) v w f h = record { at = λ e. cc }
  pure-Atomic' (err x) v w f h = record { at = λ e. h.at refl }

  -- A last part that only returns.
  pub pure-Atomic :
      (m : M A) (f : A → B) (w : World) → Atomic (m w) w → Atomic ((m >>= λ a. pure (f a)) w) w
  unfolding ◌>>=◌
  pure-Atomic m f w h =
      let (r, v) = m w in let same = pure-Atomic' r v w f h in record { at = same.at }
