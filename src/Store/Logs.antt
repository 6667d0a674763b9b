-- ===== src/Store/Logs.antt =====
-- What a computation adds to the log, and what holds of the value that it returns.
use agentic_analyst.Prelude.{ℕ, suc, ap, ◌+◌, ◌≤◌, ◌≡◌, refl, sym, subst, ◌∙◌, Bool, All, arith}
use agentic_analyst.Prelude.Counting.{count_if}
use agentic_analyst.Domain.Errors.{Error, Result, ok, err, Ensures}
use agentic_analyst.Store.Session.{
  Event, World, M, and_then, handle, ask, lift, raise, pure, emit, try_except, ◌>>=◌,
}

-- Where all events of the log satisfy `P`, they still do behind the computation, on every path; and
-- a value that it returns satisfies `R`.
pub record Logs {κ ℓ μ} (P : Event → Type κ) {A : Type ℓ} (R : A → Type μ) (m : M A)
    : Type (κ ⊔ (ℓ ⊔ μ)) where
  pub run : (w : World) → All P w.log → All P (m w).1.log × Ensures R (m w).0

module _ {κ} (P : Event → Type κ) where
  pub Logs-bind {ℓ μ ν ξ} :
      {A : Type ℓ} {B : Type μ} {Q : A → Type ν} {R : B → Type ξ} (m : M A) (f : A → M B)
      → Logs P Q m
      → ((a : A) → Q a → Logs P R (f a))
      → Logs P R (m >>= f)
  Logs-bind {A} {B} {Q} {R} m f lm lf = record {
    run = λ w h. let (h', q) = lm.run w h in continued (m w).0 (m w).1 h' q;
  }
    where
      continued :
          (r : Result A) (w' : World)
          → All P w'.log
          → Ensures Q r
          → All P (and_then r f w').1.log × Ensures R (and_then r f w').0
      continued (ok a) w' h' q = (lf a q).run w' h'
      continued (err x) w' h' q = (h', tt)

  pub Logs-try {ℓ μ} :
      {A : Type ℓ} {R : A → Type μ} (m : M A) (f : Error → M A)
      → Logs P R m
      → ((x : Error) → Logs P R (f x))
      → Logs P R (try_except m f)
  Logs-try {A} {R} m f lm lf = record {
    run = λ w h. let (h', q) = lm.run w h in handled (m w).0 (m w).1 h' q;
  }
    where
      handled :
          (r : Result A) (w' : World)
          → All P w'.log
          → Ensures R r
          → All P (handle r f w').1.log × Ensures R (handle r f w').0
      handled (ok a) w' h' q = (h', q)
      handled (err x) w' h' q = (lf x).run w' h'

  pub Logs-ask {ℓ μ} :
      {A : Type ℓ} {R : A → Type μ} (answer : ℕ → Result A)
      → ((n : ℕ) → Ensures R (answer n))
      → Logs P R (ask answer)
  unfolding ask
  Logs-ask answer q = record { run = λ w h. (h, q w.tick) }

  pub Logs-lift {ℓ μ} :
      {A : Type ℓ} {R : A → Type μ} (r : Result A) → Ensures R r → Logs P R (lift r)
  Logs-lift r q = record { run = λ w h. (h, q) }

  pub Logs-raise {ℓ μ} : {A : Type ℓ} {R : A → Type μ} (x : Error) → Logs P R (raise x)
  Logs-raise x = record { run = λ w h. (h, tt) }

  pub Logs-pure {ℓ μ} : {A : Type ℓ} {R : A → Type μ} (a : A) → R a → Logs P R (pure a)
  Logs-pure a q = record { run = λ w h. (h, q) }

  pub Logs-emit : (event : Event) → P event → Logs P (λ _. Unit {0}) (emit event)
  Logs-emit event p = record { run = λ w h. ((p, h), tt) }

-- The number of events of a kind grows by at most `bound`.
pub record Costs {ℓ} (test : Event → Bool) (bound : ℕ) {A : Type ℓ} (m : M A) : Type 0 where
  pub run : (w : World) → count_if test (m w).1.log ≤ bound + count_if test w.log

module _ (test : Event → Bool) where
  pub Costs-bind {ℓ μ} :
      {A : Type ℓ} {B : Type μ} (j k : ℕ) (m : M A) (f : A → M B)
      → Costs test j m
      → ((a : A) → Costs test k (f a))
      → Costs test (j + k) (m >>= f)
  Costs-bind {A} {B} j k m f cm cf = record {
    run = λ w. let h = cm.run w in let h' = continued (m w).0 (m w).1 in omega arith;
  }
    where
      continued :
          (r : Result A) (w' : World)
          → count_if test (and_then r f w').1.log ≤ k + count_if test w'.log
      continued (ok a) w' = (cf a).run w'
      continued (err x) w' = omega arith

  pub Costs-try {ℓ} :
      {A : Type ℓ} (k : ℕ) (m : M A) (f : Error → M A)
      → Costs test k m
      → ((x : Error) → Costs test 0 (f x))
      → Costs test k (try_except m f)
  Costs-try {A} k m f cm cf = record {
    run = λ w. let h = cm.run w in let h' = handled (m w).0 (m w).1 in omega arith;
  }
    where
      handled :
          (r : Result A) (w' : World) → count_if test (handle r f w').1.log ≤ count_if test w'.log
      handled (ok a) w' = omega arith
      handled (err x) w' = let h = (cf x).run w' in omega arith

  pub Costs-weaken {ℓ} : {A : Type ℓ} {m : M A} (j k : ℕ) → j ≤ k → Costs test j m → Costs test k m
  Costs-weaken j k le c = record { run = λ w. let h = c.run w in omega arith }

  pub Costs-emit : (event : Event) → Costs test 1 (emit event)
  Costs-emit event = record { run = λ w. ground arith }

-- The computation changes nothing of the process but the count of the meetings.
pub record Quiet {ℓ} {A : Type ℓ} (m : M A) : Type 0 where
  pub run : (w : World) → (n : ℕ) × ((m w).1 ≡ record w { tick = n })

pub Quiet-bind {ℓ μ} :
    {A : Type ℓ} {B : Type μ} (m : M A) (f : A → M B)
    → Quiet m
    → ((a : A) → Quiet (f a))
    → Quiet (m >>= f)
Quiet-bind {A} {B} m f qm qf = record {
  run = λ w.
      let (j, first) = qm.run w in
      let (k, second) = continued (m w).0 (m w).1 in
      (k, second ∙ ap (λ (w' : World). record w' { tick = k }) first);
}
  where
    continued :
        (r : Result A) (w' : World) → (n : ℕ) × ((and_then r f w').1 ≡ record w' { tick = n })
    continued (ok a) w' = (qf a).run w'
    continued (err x) w' = (w'.tick, refl)

pub Quiet-ask {ℓ} : {A : Type ℓ} (answer : ℕ → Result A) → Quiet (ask answer)
unfolding ask
Quiet-ask answer = record { run = λ w. (suc w.tick, refl) }

pub Quiet-lift {ℓ} : {A : Type ℓ} (r : Result A) → Quiet (lift r)
Quiet-lift r = record { run = λ w. (w.tick, refl) }

-- What holds of every value.
abbrev pub Anything {ℓ} : {A : Type ℓ} → A → Type 0
Anything a = Unit

pub Ensures-Anything {ℓ} : {A : Type ℓ} (r : Result A) → Ensures Anything r
Ensures-Anything (ok a) = tt
Ensures-Anything (err x) = tt

pub Logs-Quiet {κ ℓ} : (P : Event → Type κ) {A : Type ℓ} (m : M A) → Quiet m → Logs P Anything m
Logs-Quiet P m q = record {
  run = λ w h. (subst (λ (w' : World). All P w'.log) (sym (q.run w).1) h, Ensures-Anything (m w).0);
}

pub Costs-Quiet {ℓ} : (test : Event → Bool) {A : Type ℓ} (m : M A) → Quiet m → Costs test 0 m
Costs-Quiet test m q = record { run = λ w. rw ((q.run w).1) (omega arith) }
