-- ===== src/Store/Returns.antt =====
-- What holds of every value that a computation returns, whatever the process and its environment.
use agentic_analyst.Domain.Errors.{Error, Result, ok, err, Ensures}
use agentic_analyst.Store.Tables.{Db}
use agentic_analyst.Store.Keeps.{Keeps, Stands}
use agentic_analyst.Store.Session.{
  World, M, and_then, handle, lift, raise, pure, try_except, close_session, session_scope, ◌>>=◌,
}
use agentic_analyst.Store.Logs.{Anything, Ensures-Anything}

pub record Returns {ℓ μ} {A : Type ℓ} (R : A → Type μ) (m : M A) : Type μ where
  pub run : (w : World) → Ensures R (m w).0

module _ {ℓ} {A : Type ℓ} where
  -- Nothing is asked of the value.
  pub Returns-Anything : (m : M A) → Returns Anything m
  Returns-Anything m = record { run = λ w. Ensures-Anything (m w).0 }

module _ {ℓ μ} {A : Type ℓ} {R : A → Type μ} where
  pub Returns-bind {κ ν} :
      {B : Type κ} {Q : B → Type ν} (m : M B) (f : B → M A)
      → Returns Q m
      → ((b : B) → Q b → Returns R (f b))
      → Returns R (m >>= f)
  Returns-bind {B} {Q} m f rm rf = record { run = λ w. continued (m w).0 (m w).1 (rm.run w) }
    where
      continued : (r : Result B) (w' : World) → Ensures Q r → Ensures R (and_then r f w').0
      continued (ok b) w' q = (rf b q).run w'
      continued (err x) w' q = tt

  -- The first part of the computation does not matter.
  pub Returns-then {κ} :
      {B : Type κ} (m : M B) (f : B → M A) → ((b : B) → Returns R (f b)) → Returns R (m >>= f)
  Returns-then m f rf = Returns-bind {Q = Anything} m f (Returns-Anything m) (λ b _. rf b)

  pub Returns-try :
      (m : M A) (f : Error → M A)
      → Returns R m
      → ((x : Error) → Returns R (f x))
      → Returns R (try_except m f)
  Returns-try m f rm rf = record { run = λ w. handled (m w).0 (m w).1 (rm.run w) }
    where
      handled : (r : Result A) (w' : World) → Ensures R r → Ensures R (handle r f w').0
      handled (ok a) w' q = q
      handled (err x) w' q = (rf x).run w'

  pub Returns-session : (m : M A) → Returns R m → Returns R (session_scope m)
  unfolding session_scope
  Returns-session m rm = record { run = λ w. closed (m w).0 (m w).1 (rm.run w) }
    where
      closed : (r : Result A) (w' : World) → Ensures R r → Ensures R (close_session (r, w')).0
      closed (ok a) w' q = q
      closed (err x) w' q = tt

  pub Returns-lift : (r : Result A) → Ensures R r → Returns R (lift r)
  Returns-lift r q = record { run = λ w. q }

  pub Returns-pure : (a : A) → R a → Returns R (pure a)
  Returns-pure a q = record { run = λ w. q }

  pub Returns-raise : (x : Error) → Returns R (raise x)
  Returns-raise x = record { run = λ w. tt }

module _ {ℓ μ ν} {A : Type ℓ} {Q : A → Type ν} {R : A → Type μ} where
  pub Returns-weaken : {m : M A} → Returns Q m → ((a : A) → Q a → R a) → Returns R m
  Returns-weaken {m} rm f = record { run = λ w. weakened (m w).0 (rm.run w) }
    where
      weakened : (r : Result A) → Ensures Q r → Ensures R r
      weakened (ok a) q = f a q
      weakened (err x) q = tt

module _ {κ} (I : Db → Type κ) where
  -- What the value of the first part is known to satisfy may be used for the second part.
  pub Keeps-bind_of {ℓ μ ν} :
      {A : Type ℓ} {B : Type μ} {Q : A → Type ν} (m : M A) (f : A → M B)
      → Keeps I m
      → Returns Q m
      → ((a : A) → Q a → Keeps I (f a))
      → Keeps I (m >>= f)
  Keeps-bind_of {A} {B} {Q} m f km rm kf = record {
    run = λ w h. continued (m w).0 (m w).1 (km.run w h) (rm.run w);
  }
    where
      continued :
          (r : Result A) (w' : World) → Stands I w' → Ensures Q r → Stands I (and_then r f w').1
      continued (ok a) w' h' q = (kf a q).run w' h'
      continued (err x) w' h' q = h'
