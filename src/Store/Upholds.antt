-- ===== src/Store/Upholds.antt =====
-- Invariants of the process: of its database, its open session and its log together.
use agentic_analyst.Prelude.{ℕ, suc, ◌≡◌, refl, sym, subst, ◌∷◌, none, some}
use agentic_analyst.Domain.Errors.{Error, Result, ok, err, Ensures}
use agentic_analyst.Store.Tables.{Db}
use agentic_analyst.Store.Session.{
  Event, World, Env, M, and_then, handle, ask, lift, raise, pure, emit, try_except, base_of,
  observe, query, execute, written, now, uuid4, close_session, session_scope, ◌>>=◌,
}
use agentic_analyst.Store.Logs.{Quiet, Anything, Ensures-Anything}

-- The computation leaves `J` as it holds, on every path, and a value that it returns satisfies `R`.
pub record Upholds {κ ℓ μ} (J : World → Type κ) {A : Type ℓ} (R : A → Type μ) (m : M A)
    : Type (κ ⊔ (ℓ ⊔ μ)) where
  pub run : (w : World) → J w → J (m w).1 × Ensures R (m w).0

-- What every step that is no write and no event does to the process.
pub record Steady {κ} (e : Env) (J : World → Type κ) : Type κ where
  pub ticked : (w : World) (n : ℕ) → J w → J (record w { tick = n })
  pub observed : (w : World) → J w → J (observe e w)
  pub committed : (w : World) → J w → J (record w { snapshot = none })
  pub rolled_back :
      (w : World) → J w → J (record w { db = base_of w.snapshot w.db; snapshot = none })

-- The statement leaves `J` as it holds.
abbrev pub Writes {κ} : {A : Type 0} → (World → Type κ) → (Db → Result (A × Db)) → Type κ
Writes {A} J f =
    (w : World) (a : A) (d : Db)
    → J w
    → f w.db ≡ ok (a, d)
    → J (record w { db = d; snapshot = some (base_of w.snapshot w.db) })

pub Ensures-eq {ℓ κ} :
    {A : Type ℓ} {P : A → Type κ} (r : Result A) → ((a : A) → r ≡ ok a → P a) → Ensures P r
Ensures-eq (ok a) h = h a refl
Ensures-eq (err x) h = tt

module _ {κ} (J : World → Type κ) where
  pub Upholds-bind {ℓ μ ν ξ} :
      {A : Type ℓ} {B : Type μ} {Q : A → Type ν} {R : B → Type ξ} (m : M A) (f : A → M B)
      → Upholds J Q m
      → ((a : A) → Q a → Upholds J R (f a))
      → Upholds J R (m >>= f)
  Upholds-bind {A} {B} {Q} {R} m f um uf = record {
    run = λ w h. let (h', q) = um.run w h in continued (m w).0 (m w).1 h' q;
  }
    where
      continued :
          (r : Result A) (w' : World)
          → J w'
          → Ensures Q r
          → J (and_then r f w').1 × Ensures R (and_then r f w').0
      continued (ok a) w' h' q = (uf a q).run w' h'
      continued (err x) w' h' q = (h', tt)

  pub Upholds-try {ℓ μ} :
      {A : Type ℓ} {R : A → Type μ} (m : M A) (f : Error → M A)
      → Upholds J R m
      → ((x : Error) → Upholds J R (f x))
      → Upholds J R (try_except m f)
  Upholds-try {A} {R} m f um uf = record {
    run = λ w h. let (h', q) = um.run w h in handled (m w).0 (m w).1 h' q;
  }
    where
      handled :
          (r : Result A) (w' : World)
          → J w'
          → Ensures R r
          → J (handle r f w').1 × Ensures R (handle r f w').0
      handled (ok a) w' h' q = (h', q)
      handled (err x) w' h' q = (uf x).run w' h'

  pub Upholds-lift {ℓ μ} :
      {A : Type ℓ} {R : A → Type μ} (r : Result A) → Ensures R r → Upholds J R (lift r)
  Upholds-lift r q = record { run = λ w h. (h, q) }

  pub Upholds-pure {ℓ μ} : {A : Type ℓ} {R : A → Type μ} (a : A) → R a → Upholds J R (pure a)
  Upholds-pure a q = record { run = λ w h. (h, q) }

  pub Upholds-raise {ℓ μ} : {A : Type ℓ} {R : A → Type μ} (x : Error) → Upholds J R (raise x)
  Upholds-raise x = record { run = λ w h. (h, tt) }

  pub Upholds-emit :
      (event : Event)
      → ((w : World) → J w → J (record w { log = event ∷ w.log }))
      → Upholds J Anything (emit event)
  Upholds-emit event k = record { run = λ w h. (k w h, tt) }

  module _ (e : Env) (steady : Steady e J) where
    -- A quiet computation, with what it knows of its own result.
    pub Upholds-Quiet {ℓ μ} :
        {A : Type ℓ} {R : A → Type μ} (m : M A)
        → Quiet m
        → ((w : World) (a : A) → (m w).0 ≡ ok a → R a)
        → Upholds J R m
    Upholds-Quiet m q k = record {
      run = λ w h.
          let (n, same) = q.run w in
          (subst J (sym same) (steady.ticked w n h), Ensures-eq (m w).0 (k w));
    }

    pub Upholds-ask {ℓ} : {A : Type ℓ} (answer : ℕ → Result A) → Upholds J Anything (ask answer)
    unfolding ask
    Upholds-ask answer = record {
      run = λ w h. (steady.ticked w (suc w.tick) h, Ensures-Anything _);
    }

    pub Upholds-now : Upholds J Anything (now e)
    unfolding now
    Upholds-now = record { run = λ w h. (steady.ticked w (suc w.tick) h, tt) }

    pub Upholds-uuid4 : Upholds J Anything (uuid4 e)
    unfolding uuid4
    Upholds-uuid4 = record { run = λ w h. (steady.ticked w (suc w.tick) h, tt) }

    pub Upholds-query {ℓ} : {A : Type ℓ} (f : Db → Result A) → Upholds J Anything (query e f)
    unfolding query
    Upholds-query f = record { run = λ w h. (steady.observed w h, Ensures-Anything _) }

    pub Upholds-session {ℓ μ} :
        {A : Type ℓ} {R : A → Type μ} (m : M A) → Upholds J R m → Upholds J R (session_scope m)
    unfolding session_scope
    Upholds-session {A} {R} m um = record {
      run = λ w h. let (h', q) = um.run w h in closed (m w).0 (m w).1 h' q;
    }
      where
        closed :
            (r : Result A) (w' : World)
            → J w'
            → Ensures R r
            → J (close_session (r, w')).1 × Ensures R (close_session (r, w')).0
        closed (ok a) w' h' q = (steady.committed w' h', q)
        closed (err x) w' h' q = (steady.rolled_back w' h', tt)

    pub Upholds-execute :
        {A : Type 0} (f : Db → Result (A × Db)) → Writes J f → Upholds J Anything (execute e f)
    unfolding execute
    Upholds-execute {A} f k = record {
      run = λ w h. let h' = steady.observed w h in after (f (observe e w).db) (observe e w) h' refl;
    }
      where
        after :
            (r : Result (A × Db)) (w' : World)
            → J w'
            → f w'.db ≡ r
            → J (written e r w').1 × Ensures (Anything {A = A}) (written e r w').0
        after (ok (a, d)) w' h' same = (k w' a d h' same, tt)
        after (err x) w' h' same = (h', tt)
