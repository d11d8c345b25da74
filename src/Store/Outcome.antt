-- ===== src/Store/Outcome.antt =====
-- What holds after a run in either case: `Q` of the value and the world where it returned, and `E`
-- of the world where it failed.
use packfinderz_backend.Prelude.{
  Bool, true, false, if◌then◌else◌, Option, none, some, List, [], ◌∷◌, ◌≡◌, refl,
}
use packfinderz_backend.Errors.{Code, Error, driver, Result, ok, err}
use packfinderz_backend.Store.Tables.{Tables, World}
use packfinderz_backend.Store.Tx.{
  Call, Env, M, ⊤, pure, fail, gets, or_raise, map_error, fail_if, modify, call, for_each, with_tx,
  rollback, ◌>>=◌,
}
use packfinderz_backend.Store.Post.{Post}

abbrev pub Either :
    {A : Type 0} → (A → World → Type 0) → (Tables → Type 0) → Result A → World → Type 0
Either Q E (ok a) w = Q a w
Either Q E (err e) w = E w.tables

pub record Outcome {A : Type 0} (Q : A → World → Type 0) (E : Tables → Type 0)
    (run : Result A × World) : Type 0 where
  pub on : Either Q E run.0 run.1

module _ (E : Tables → Type 0) where
  module _ {A : Type 0} {Q : A → World → Type 0} where
    pub pure-Outcome : (a : A) (w : World) → Q a w → Outcome Q E (pure a w)
    unfolding pure
    pure-Outcome a w q = record { on = q }

    pub fail-Outcome : (c : Code) (w : World) → E w.tables → Outcome Q E (fail c w)
    unfolding fail
    fail-Outcome c w e = record { on = e }

    pub gets-Outcome : (f : World → A) (w : World) → Q (f w) w → Outcome Q E (gets f w)
    unfolding gets
    gets-Outcome f w q = record { on = q }

    pub or_raise-Outcome :
        (o : Option A) (e : Error) (w : World)
        → E w.tables
        → ((a : A) → o ≡ some a → Q a w)
        → Outcome Q E (or_raise o e w)
    unfolding or_raise
    or_raise-Outcome none e w h q = record { on = h }
    or_raise-Outcome (some a) e w h q = record { on = q a refl }

    pub if-Outcome :
        (b : Bool) (m n : M A) (w : World)
        → (b ≡ true → Outcome Q E (m w))
        → (b ≡ false → Outcome Q E (n w))
        → Outcome Q E ((if b then m else n) w)
    if-Outcome true m n w yes_ no_ = yes_ refl
    if-Outcome false m n w yes_ no_ = no_ refl

    map_result :
        (f : Error → Error) (r : Result A) (w : World)
        → Outcome Q E (r, w)
        → Outcome Q E (map_error f (λ v. (r, w)) w)
    unfolding map_error
    map_result f (ok a) w h = record { on = h.on }
    map_result f (err e) w h = record { on = h.on }

    pub map_error-Outcome :
        (f : Error → Error) (m : M A) (w : World)
        → Outcome Q E (m w)
        → Outcome Q E (map_error f m w)
    unfolding map_error
    map_error-Outcome f m w h =
        let (r, v) = m w in let same = map_result f r v h in record { on = same.on }

    choose-Outcome :
        (b : Bool) (p q : Result A × World)
        → (b ≡ false → Outcome Q E q)
        → Outcome Q E p
        → Outcome Q E (if b then p else q)
    choose-Outcome true p q hq hp = hp
    choose-Outcome false p q hq hp = hq refl

    pub call-Outcome :
        (env : Env) (c : Call) (m : M A) (w : World)
        → E w.tables
        → Outcome Q E (m w)
        → Outcome Q E (call env c m w)
    unfolding call
    call-Outcome env c m w e h =
        choose-Outcome (env.fails c) (err driver, w) (m w) (λ _. h) (record { on = e })

    tx_result :
        (env : Env) (r : Result A) (w v : World)
        → E w.tables
        → Post Q (r, v)
        → Outcome Q E (with_tx env (λ u. (r, v)) w)
    unfolding with_tx
    tx_result env (ok a) w v e h =
        choose-Outcome (env.fails Call.begin) (err driver, w) _
          (λ _.
            choose-Outcome (env.fails Call.commit) (err driver, rollback w v) (ok a, v)
              (λ _. record { on = h.on }) (record { on = e }))
          (record { on = e })
    tx_result env (err x) w v e h =
        choose-Outcome (env.fails Call.begin) (err driver, w) (err x, rollback w v)
          (λ _. record { on = e }) (record { on = e })

    -- A transaction returns as its body does, or leaves the tables as they were.
    pub with_tx-Outcome :
        (env : Env) (m : M A) (w : World)
        → E w.tables
        → Post Q (m w)
        → Outcome Q E (with_tx env m w)
    unfolding with_tx
    with_tx-Outcome env m w e h =
        let (r, v) = m w in let same = tx_result env r w v e h in record { on = same.on }

  module _ {A B : Type 0} {Q : B → World → Type 0} where
    bind_result :
        (r : Result A) (v : World) (f : A → M B) (w : World)
        → Outcome (λ a u. Outcome Q E (f a u)) E (r, v)
        → Outcome Q E (((λ u. (r, v)) >>= f) w)
    unfolding ◌>>=◌
    bind_result (ok a) v f w h = record { on = h.on.on }
    bind_result (err e) v f w h = record { on = h.on }

    pub bind-Outcome :
        (m : M A) (f : A → M B) (w : World)
        → Outcome (λ a v. Outcome Q E (f a v)) E (m w)
        → Outcome Q E ((m >>= f) w)
    unfolding ◌>>=◌
    bind-Outcome m f w h =
        let (r, v) = m w in let same = bind_result r v f w h in record { on = same.on }

  module _ {Q : ⊤ → World → Type 0} where
    pub fail_if-Outcome :
        (c : Bool) (code : Code) (w : World)
        → E w.tables
        → (c ≡ false → Q tt w)
        → Outcome Q E (fail_if c code w)
    unfolding fail_if
    fail_if-Outcome true code w e q = record { on = e }
    fail_if-Outcome false code w e q = record { on = q refl }

    pub modify-Outcome : (f : World → World) (w : World) → Q tt (f w) → Outcome Q E (modify f w)
    unfolding modify
    modify-Outcome f w q = record { on = q }

  module _ {A : Type 0} {P Q : A → World → Type 0} where
    weaken_result :
        (r : Result A) (v : World)
        → ((a : A) (u : World) → P a u → Q a u)
        → Outcome P E (r, v)
        → Outcome Q E (r, v)
    weaken_result (ok a) v k h = record { on = k a v h.on }
    weaken_result (err e) v k h = record { on = h.on }

    pub weaken-Outcome :
        (p : Result A × World)
        → ((a : A) (u : World) → P a u → Q a u)
        → Outcome P E p
        → Outcome Q E p
    weaken-Outcome p k h =
        let (r, v) = p in let same = weaken_result r v k h in record { on = same.on }

  -- A loop keeps an invariant over the elements that are left.
  module _ {ℓ} {A : Type ℓ} (I : List A → World → Type 0) (f : A → M ⊤) where
    pub for_each-Outcome :
        ((x : A) (rest : List A) (v : World) → I (x ∷ rest) v → Outcome (λ _ u. I rest u) E (f x v))
        → (xs : List A) (w : World) → I xs w
        → Outcome (λ _ u. I [] u) E (for_each xs f w)
    unfolding for_each
    for_each-Outcome round [] w h = pure-Outcome tt w h
    for_each-Outcome round (x ∷ xs) w h =
        bind-Outcome (f x) (λ _. for_each xs f) w
          (weaken-Outcome (f x w) (λ _ u i. for_each-Outcome round xs u i) (round x xs w h))

module _ {A : Type 0} (E : Tables → Type 0) where
  tables_result : (r : Result A) (v : World) → Outcome (λ a u. E u.tables) E (r, v) → E v.tables
  tables_result (ok a) v h = h.on
  tables_result (err e) v h = h.on

  -- What holds in either case.
  pub Outcome-tables : (p : Result A × World) → Outcome (λ a u. E u.tables) E p → E p.1.tables
  Outcome-tables p h = let (r, v) = p in tables_result r v h
