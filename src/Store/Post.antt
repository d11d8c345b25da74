-- ===== src/Store/Post.antt =====
-- What a computation has done where it returns: a postcondition, and a rule for each part of a
-- block.
use mathlib.Core.Path.{subst}
use packfinderz_backend.Prelude.{
  Bool, true, false, if◌then◌else◌, Option, none, some, List, [], ◌∷◌, ◌≡◌, refl, arith,
}
use packfinderz_backend.Errors.{Code, Error, driver, Result, ok, err}
use packfinderz_backend.Store.Tables.{World}
use packfinderz_backend.Store.Tx.{
  Call, Env, M, ⊤, pure, raise, fail, gets, or_raise, map_error, fail_if, modify, call, for_each,
  with_tx, rollback, ◌>>=◌,
}

-- `Q`, if the run came to a value.
abbrev pub OnReturn : {A : Type 0} → (A → World → Type 0) → Result A → World → Type 0
OnReturn Q (ok a) w = Q a w
OnReturn Q (err e) w = ⊤

-- `Q` holds of the value and the world that a run came to, if it came to a value.
pub record Post {A : Type 0} (Q : A → World → Type 0) (run : Result A × World) : Type 0 where
  pub on : OnReturn Q run.0 run.1

module _ {A : Type 0} {Q : A → World → Type 0} where
  pub pure-Post : (a : A) (w : World) → Q a w → Post Q (pure a w)
  unfolding pure
  pure-Post a w q = record { on = q }

  pub fail-Post : (c : Code) (w : World) → Post Q (fail c w)
  unfolding fail
  fail-Post c w = record { on = tt }

  pub raise-Post : (e : Error) (w : World) → Post Q (raise e w)
  unfolding raise
  raise-Post e w = record { on = tt }

  pub gets-Post : (f : World → A) (w : World) → Q (f w) w → Post Q (gets f w)
  unfolding gets
  gets-Post f w q = record { on = q }

  pub or_raise-Post :
      (o : Option A) (e : Error) (w : World)
      → ((a : A) → o ≡ some a → Q a w)
      → Post Q (or_raise o e w)
  unfolding or_raise
  or_raise-Post none e w q = record { on = tt }
  or_raise-Post (some a) e w q = record { on = q a refl }

  pub if-Post :
      (b : Bool) (m n : M A) (w : World)
      → (b ≡ true → Post Q (m w))
      → (b ≡ false → Post Q (n w))
      → Post Q ((if b then m else n) w)
  if-Post true m n w yes_ no_ = yes_ refl
  if-Post false m n w yes_ no_ = no_ refl

  map_error_result :
      (f : Error → Error) (r : Result A) (w : World)
      → Post Q (r, w)
      → Post Q (map_error f (λ v. (r, w)) w)
  unfolding map_error
  map_error_result f (ok a) w h = record { on = h.on }
  map_error_result f (err e) w h = record { on = tt }

  pub map_error-Post :
      (f : Error → Error) (m : M A) (w : World) → Post Q (m w) → Post Q (map_error f m w)
  unfolding map_error
  map_error-Post f m w h =
      let (r, w') = m w in let same = map_error_result f r w' h in record { on = same.on }

module _ {A B : Type 0} {Q : B → World → Type 0} where
  bind_result :
      (r : Result A) (v : World) (f : A → M B) (w : World)
      → Post (λ a u. Post Q (f a u)) (r, v)
      → Post Q (((λ u. (r, v)) >>= f) w)
  unfolding ◌>>=◌
  bind_result (ok a) v f w h = record { on = h.on.on }
  bind_result (err e) v f w h = record { on = tt }

  pub bind-Post :
      (m : M A) (f : A → M B) (w : World)
      → Post (λ a v. Post Q (f a v)) (m w)
      → Post Q ((m >>= f) w)
  unfolding ◌>>=◌
  bind-Post m f w h =
      let (r, v) = m w in let same = bind_result r v f w h in record { on = same.on }

module _ {Q : ⊤ → World → Type 0} where
  pub fail_if-Post :
      (c : Bool) (code : Code) (w : World) → (c ≡ false → Q tt w) → Post Q (fail_if c code w)
  unfolding fail_if
  fail_if-Post true code w q = record { on = tt }
  fail_if-Post false code w q = record { on = q refl }

  pub modify-Post : (f : World → World) (w : World) → Q tt (f w) → Post Q (modify f w)
  unfolding modify
  modify-Post f w q = record { on = q }

module _ {A : Type 0} {Q : A → World → Type 0} where
  pub choose-Post :
      (b : Bool) (p q : Result A × World)
      → (b ≡ false → Post Q q)
      → Post Q p
      → Post Q (if b then p else q)
  choose-Post true p q hq hp = hp
  choose-Post false p q hq hp = hq refl

  -- A call that fails returns nothing.
  pub call-Post :
      (env : Env) (c : Call) (m : M A) (w : World) → Post Q (m w) → Post Q (call env c m w)
  unfolding call
  call-Post env c m w h =
      choose-Post (env.fails c) (err driver, w) (m w) (λ _. h) (record { on = tt })

  commit_result :
      (env : Env) (m : M A) (r : Result A) (w v : World)
      → Post Q (r, v)
      → Post Q (with_tx env (λ u. (r, v)) w)
  unfolding with_tx
  commit_result env m (ok a) w v h =
      choose-Post (env.fails Call.begin) (err driver, w) _
        (λ _.
          choose-Post (env.fails Call.commit) (err driver, rollback w v) (ok a, v) (λ _. h)
            (record { on = tt }))
        (record { on = tt })
  commit_result env m (err e) w v h =
      choose-Post (env.fails Call.begin) (err driver, w) (err e, rollback w v)
        (λ _. record { on = tt }) (record { on = tt })

  -- A transaction that commits has done what its body did.
  pub with_tx-Post : (env : Env) (m : M A) (w : World) → Post Q (m w) → Post Q (with_tx env m w)
  unfolding with_tx
  with_tx-Post env m w h =
      let (r, v) = m w in let same = commit_result env m r w v h in record { on = same.on }

module _ {A : Type 0} {P Q : A → World → Type 0} where
  weaken_result :
      (r : Result A) (v : World)
      → ((a : A) (u : World) → P a u → Q a u)
      → Post P (r, v)
      → Post Q (r, v)
  weaken_result (ok a) v k h = record { on = k a v h.on }
  weaken_result (err e) v k h = record { on = tt }

  pub weaken-Post :
      (p : Result A × World) → ((a : A) (u : World) → P a u → Q a u) → Post P p → Post Q p
  weaken-Post p k h = let (r, v) = p in let same = weaken_result r v k h in record { on = same.on }

module _ {A : Type 0} {Q : A → World → Type 0} where
  result_on : (r : Result A) (v : World) {a : A} → Post Q (r, v) → r ≡ ok a → Q a v
  result_on (ok x) v {a} h e = let same : x ≡ a = ground arith in subst (λ y. Q y v) same h.on
  result_on (err x) v h e = cc

  -- What holds where a run returns, read off the value that it returned.
  pub Post-ok : (p : Result A × World) {a : A} → Post Q p → p.0 ≡ ok a → Q a p.1
  Post-ok p h e = let (r, v) = p in result_on r v h e

-- A loop keeps an invariant over the elements that are left.
module _ {ℓ} {A : Type ℓ} (I : List A → World → Type 0) (f : A → M ⊤) where
  pub for_each-Post :
      ((x : A) (rest : List A) (v : World) → I (x ∷ rest) v → Post (λ _ u. I rest u) (f x v))
      → {Q : ⊤ → World → Type 0} (xs : List A) (w : World) → I xs w
      → ((v : World) → I [] v → Q tt v)
      → Post Q (for_each xs f w)
  unfolding for_each
  for_each-Post round [] w h done = pure-Post tt w (done w h)
  for_each-Post round (x ∷ xs) w h done =
      bind-Post (f x) (λ _. for_each xs f) w
        (weaken-Post (f x w) (λ _ u i. for_each-Post round xs u i done) (round x xs w h))
