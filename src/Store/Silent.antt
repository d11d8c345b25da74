-- ===== src/Store/Silent.antt =====
-- Computations that ask Square nothing, whether they return or fail.
use packfinderz_backend.Prelude.{Bool, true, false, if◌then◌else◌}
use packfinderz_backend.Store.Tx.{rollback, with_tx}
use packfinderz_backend.Prelude.{◌≡◌, refl, ◌∙◌, arith}
use packfinderz_backend.Errors.{Error, Result, ok, err}
use packfinderz_backend.Store.Tables.{World}
use packfinderz_backend.Store.Tx.{Call, Env, M, pure, raise, gets, map_error, modify, ◌>>=◌, call}

pub record Silent {A : Type 0} (m : M A) : Type 0 where
  pub same : (w : World) → (m w).1.square ≡ w.square

module _ {A : Type 0} where
  pub pure-Silent : (a : A) → Silent (pure a)
  unfolding pure
  pure-Silent a = record { same = λ w. refl }

  pub gets-Silent : (f : World → A) → Silent (gets f)
  unfolding gets
  gets-Silent f = record { same = λ w. refl }

  pub raise-Silent : (e : Error) → Silent {A = A} (raise e)
  unfolding raise
  raise-Silent e = record { same = λ w. refl }

  pub call-Silent : (env : Env) (c : Call) (m : M A) → Silent m → Silent (call env c m)
  unfolding call
  call-Silent env c m h = record { same = λ w. let kept = h.same w in ground arith }

  pub map_error-Silent : (f : Error → Error) (m : M A) → Silent m → Silent (map_error f m)
  unfolding map_error
  map_error-Silent f m h = record { same = λ w. let kept = h.same w in ground arith }

pub modify-Silent :
    (f : World → World) → ((w : World) → (f w).square ≡ w.square) → Silent (modify f)
unfolding modify
modify-Silent f h = record { same = h }

module _ {A B : Type 0} where
  bind_result :
      (f : A → M B) (r : Result A) (v w : World)
      → ((a : A) → Silent (f a))
      → v.square ≡ w.square
      → (((λ u. (r, v)) >>= f) w).1.square ≡ w.square
  unfolding ◌>>=◌
  bind_result f (ok a) v w k h = let step = k a in step.same v ∙ h
  bind_result f (err e) v w k h = h

  pub bind-Silent : (m : M A) (f : A → M B) → Silent m → ((a : A) → Silent (f a)) → Silent (m >>= f)
  unfolding ◌>>=◌
  bind-Silent m f h k = record {
    same = λ w. let kept = h.same w in let (r, v) = m w in bind_result f r v w k kept;
  }

module _ {A : Type 0} where
  pub if-Silent : (b : Bool) (m n : M A) → Silent m → Silent n → Silent (if b then m else n)
  if-Silent true m n yes_ no_ = yes_
  if-Silent false m n yes_ no_ = no_

  pub with_tx-Silent : (env : Env) (m : M A) → Silent m → Silent (with_tx env m)
  unfolding with_tx rollback
  with_tx-Silent env m h = record { same = λ w. let kept = h.same w in ground arith }
