-- ===== src/Store/Alone.antt =====
-- Sessions that no other session interferes with, and that only read.
use agentic_analyst.Prelude.{◌≡◌, refl, sym, ap, ◌∙◌, List, none}
use agentic_analyst.Domain.Errors.{Result, ok, err, Ensures}
use agentic_analyst.Store.Tables.{Db}
use agentic_analyst.Store.Session.{
  Event, World, Env, M, observe, query, close_session, session_scope,
}
use agentic_analyst.Store.Logs.{Anything, Ensures-Anything}
use agentic_analyst.Store.Upholds.{Upholds, Ensures-eq}

-- The environment in which no other session commits.
abbrev pub alone : Env → Env
alone e = record e { others = λ n d. d }

-- The process stands outside a writing session, with this database and this log.
abbrev pub Reads : Db → List Event → World → Type 0
Reads d log w = (w.db ≡ d) × (w.snapshot ≡ none) × (w.log ≡ log)

pub observe-Reads :
    (e : Env) (d : Db) (log : List Event) (w : World)
    → Reads d log w
    → Reads d log (observe (alone e) w)
unfolding observe
observe-Reads e d log w (same, closed, kept) = rw closed (same, refl, kept)

module _ (e : Env) (d : Db) (log : List Event) where
  -- A query tells of this database.
  pub Upholds-read {ℓ} :
      {A : Type ℓ} (f : Db → Result A) → Upholds (Reads d log) (λ a. f d ≡ ok a) (query (alone e) f)
  unfolding query
  Upholds-read f = record {
    run = λ w h.
        let h' = observe-Reads e d log w h in (h', Ensures-eq _ (λ a same. ap f (sym h'.0) ∙ same));
  }

  pub Upholds-scope {ℓ μ} :
      {A : Type ℓ} {R : A → Type μ} (m : M A)
      → Upholds (Reads d log) R m
      → Upholds (Reads d log) R (session_scope m)
  unfolding session_scope
  Upholds-scope {A} {R} m um = record {
    run = λ w h. let (h', q) = um.run w h in closed (m w).0 (m w).1 h' q;
  }
    where
      closed :
          (r : Result A) (w' : World)
          → Reads d log w'
          → Ensures R r
          → Reads d log (close_session (r, w')).1 × Ensures R (close_session (r, w')).0
      closed (ok a) w' (same, none_open, kept) q = ((same, refl, kept), q)
      closed (err x) w' (same, none_open, kept) q = (rw none_open (same, refl, kept), tt)

module _ {κ ℓ μ ν} {A : Type ℓ} {Q : A → Type ν} {R : A → Type μ} (J : World → Type κ) where
  pub Upholds-weaken : {m : M A} → Upholds J Q m → ((a : A) → Q a → R a) → Upholds J R m
  Upholds-weaken {m} um f = record {
    run = λ w h. let (h', q) = um.run w h in (h', weakened (m w).0 q);
  }
    where
      weakened : (r : Result A) → Ensures Q r → Ensures R r
      weakened (ok a) q = f a q
      weakened (err x) q = tt

module _ {κ ℓ μ} {A : Type ℓ} {R : A → Type μ} (J : World → Type κ) where
  -- What is known of the value may be dropped.
  pub Upholds-forget : {m : M A} → Upholds J R m → Upholds J Anything m
  Upholds-forget {m} um = record { run = λ w h. ((um.run w h).0, Ensures-Anything (m w).0) }
