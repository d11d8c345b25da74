-- ===== src/Store/Always.antt =====
-- What holds of the tables after an operation, whether it returned or failed: outside a
-- transaction nothing is written, and a transaction that fails is undone.
use packfinderz_backend.Prelude.{Bool, true, false, if◌then◌else◌, ◌≡◌, refl, sym, ◌∙◌}
use mathlib.Core.Path.{subst}
use packfinderz_backend.Errors.{Code, driver, Result, ok, err}
use packfinderz_backend.Store.Tables.{Tables, World}
use packfinderz_backend.Store.Tx.{Call, Env, M, pure, fail, fail_if, with_tx, rollback, ◌>>=◌}
use packfinderz_backend.Store.Post.{Post}

pub record Always {A : Type 0} (P : Tables → Type 0) (run : Result A × World) : Type 0 where
  pub on : P run.1.tables

-- A part that reads no more than its arguments and writes nothing.
pub record Still {A : Type 0} (m : M A) : Type 0 where
  pub at : (w : World) → (m w).1 ≡ w

pub fail_if-Still : (c : Bool) (code : Code) → Still (fail_if c code)
unfolding fail_if
fail_if-Still c code = record { at = λ w. refl }

module _ {A : Type 0} where
  pub pure-Still : (a : A) → Still (pure a)
  unfolding pure
  pure-Still a = record { at = λ w. refl }

  pub fail-Still : (c : Code) → Still (fail {A = A} c)
  unfolding fail
  fail-Still c = record { at = λ w. refl }

module _ {A B : Type 0} where
  Still-result :
      (r : Result A) (v w : World) (f : A → M B)
      → v ≡ w
      → ((a : A) → Still (f a))
      → (((λ u. (r, v)) >>= f) w).1 ≡ w
  unfolding ◌>>=◌
  Still-result (ok a) v w f e k = (k a).at v ∙ e
  Still-result (err x) v w f e k = e

  pub bind-Still : (m : M A) (f : A → M B) → Still m → ((a : A) → Still (f a)) → Still (m >>= f)
  unfolding ◌>>=◌
  bind-Still m f h k = record { at = λ w. let (r, v) = m w in Still-result r v w f (h.at w) k }

module _ {A : Type 0} (P : Tables → Type 0) where
  choose-Always :
      (b : Bool) (p q : Result A × World)
      → (b ≡ false → Always P q)
      → Always P p
      → Always P (if b then p else q)
  choose-Always true p q hq hp = hp
  choose-Always false p q hq hp = hq refl

  commit-Always :
      (env : Env) (r : Result A) (w v : World)
      → P w.tables
      → Post (λ a u. P u.tables) (r, v)
      → Always P (with_tx env (λ u. (r, v)) w)
  unfolding with_tx
  commit-Always env (ok a) w v before h =
      choose-Always (env.fails Call.begin) (err driver, w) _
        (λ _.
          choose-Always (env.fails Call.commit) (err driver, rollback w v) (ok a, v)
            (λ _. record { on = h.on }) (record { on = before }))
        (record { on = before })
  commit-Always env (err e) w v before h =
      choose-Always (env.fails Call.begin) (err driver, w) (err e, rollback w v)
        (λ _. record { on = before }) (record { on = before })

  -- What a successful body keeps, the transaction keeps in any case.
  pub with_tx-Always :
      (env : Env) (m : M A) (w : World)
      → P w.tables
      → Post (λ a u. P u.tables) (m w)
      → Always P (with_tx env m w)
  unfolding with_tx
  with_tx-Always env m w before h =
      let (r, v) = m w in let same = commit-Always env r w v before h in record { on = same.on }

module _ {A B : Type 0} (P : Tables → Type 0) where
  still-Always :
      (r : Result A) (v w : World) (f : A → M B)
      → v ≡ w
      → P w.tables
      → ((a : A) → Always P (f a w))
      → Always P (((λ u. (r, v)) >>= f) w)
  unfolding ◌>>=◌
  still-Always (ok a) v w f e before h = record {
    on = subst (λ u. P (f a u).1.tables) (sym e) (h a).on;
  }
  still-Always (err x) v w f e before h = record { on = subst (λ u. P u.tables) (sym e) before }

  -- The checks before a transaction leave the world as it is.
  pub bind-Always :
      (m : M A) (f : A → M B) (w : World)
      → Still m
      → P w.tables
      → ((a : A) → Always P (f a w))
      → Always P ((m >>= f) w)
  unfolding ◌>>=◌
  bind-Always m f w quiet before h =
      let (r, v) = m w in
      let same = still-Always r v w f (quiet.at w) before h in record { on = same.on }

module _ {A B : Type 0} (P : Tables → Type 0) where
  quiet_result :
      (r : Result A) (v : World) (f : A → M B)
      → P v.tables
      → ((a : A) → Still (f a))
      → Always P (((λ u. (r, v)) >>= f) v)
  unfolding ◌>>=◌
  quiet_result (ok a) v f h k = record { on = subst (λ u. P u.tables) (sym ((k a).at v)) h }
  quiet_result (err e) v f h k = record { on = h }

  -- A part that writes nothing may follow.
  pub then-Always :
      (m : M A) (f : A → M B) (w : World)
      → Always P (m w)
      → ((a : A) → Still (f a))
      → Always P ((m >>= f) w)
  unfolding ◌>>=◌
  then-Always m f w h k =
      let (r, v) = m w in let same = quiet_result r v f h.on k in record { on = same.on }

  -- A part that is known to return, or to fail.
  pub pure-Always :
      (a : A) (f : A → M B) (w : World) → Always P (f a w) → Always P ((pure a >>= f) w)
  unfolding ◌>>=◌
  pure-Always a f w h = record { on = h.on }

  pub fail-Always : (c : Code) (f : A → M B) (w : World) → P w.tables → Always P ((fail c >>= f) w)
  unfolding ◌>>=◌
  fail-Always c f w h = record { on = h }
