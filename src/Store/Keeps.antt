-- ===== src/Store/Keeps.antt =====
-- Invariants of the database that hold between all statements, whatever others commit.
use agentic_analyst.Prelude.{ℕ, Option, none, some}
use agentic_analyst.Domain.Errors.{Error, Result, ok, err, Ensures}
use agentic_analyst.Store.Tables.{Db}
use agentic_analyst.Store.Session.{
  World, Env, M, and_then, handle, base_of, others_commit, observe, query, written, execute, now,
  uuid4, close_session, session_scope, ◌>>=◌, try_except,
}

module _ {κ} (I : Db → Type κ) where
  abbrev pub InSnapshot : Option Db → Type κ
  InSnapshot none = Unit
  InSnapshot (some s) = I s

  -- The database satisfies `I`, also if the open session is rolled back.
  abbrev pub Stands : World → Type κ
  Stands w = I w.db × InSnapshot w.snapshot

-- The computation leaves `I` standing, on every path.
pub record Keeps {κ ℓ} (I : Db → Type κ) {A : Type ℓ} (m : M A) : Type κ where
  pub run : (w : World) → Stands I w → Stands I (m w).1

module _ {κ} (I : Db → Type κ) where
  pub InSnapshot-base : (o : Option Db) (d : Db) → I d → InSnapshot I o → I (base_of o d)
  InSnapshot-base none d h s = h
  InSnapshot-base (some x) d h s = s

  pub Keeps-bind {ℓ μ} :
      {A : Type ℓ} {B : Type μ} (m : M A) (f : A → M B)
      → Keeps I m
      → ((a : A) → Keeps I (f a))
      → Keeps I (m >>= f)
  Keeps-bind {A} {B} m f km kf = record {
    run = λ w h. and_then-Stands (m w).0 (m w).1 (km.run w h);
  }
    where
      and_then-Stands : (r : Result A) (w' : World) → Stands I w' → Stands I (and_then r f w').1
      and_then-Stands (ok a) w' h' = (kf a).run w' h'
      and_then-Stands (err x) w' h' = h'

  pub Keeps-try {ℓ} :
      {A : Type ℓ} (m : M A) (f : Error → M A)
      → Keeps I m
      → ((x : Error) → Keeps I (f x))
      → Keeps I (try_except m f)
  Keeps-try {A} m f km kf = record { run = λ w h. handle-Stands (m w).0 (m w).1 (km.run w h) }
    where
      handle-Stands : (r : Result A) (w' : World) → Stands I w' → Stands I (handle r f w').1
      handle-Stands (ok a) w' h' = h'
      handle-Stands (err x) w' h' = (kf x).run w' h'

  pub Keeps-session {ℓ} : {A : Type ℓ} (m : M A) → Keeps I m → Keeps I (session_scope m)
  unfolding session_scope
  Keeps-session {A} m km = record { run = λ w h. close-Stands (m w).0 (m w).1 (km.run w h) }
    where
      close-Stands : (r : Result A) (w' : World) → Stands I w' → Stands I (close_session (r, w')).1
      close-Stands (ok a) w' h' = (h'.0, tt)
      close-Stands (err x) w' h' = (InSnapshot-base w'.snapshot w'.db h'.0 h'.1, tt)

  module _ (e : Env) (others : (n : ℕ) (d : Db) → I d → I (e.others n d)) where
    pub observe-Stands : (w : World) → Stands I w → Stands I (observe e w)
    unfolding observe
    observe-Stands w h = (others-Stands w.snapshot, h.1)
      where
        others-Stands : (o : Option Db) → I (others_commit e o w.tick w.db)
        others-Stands none = others w.tick w.db h.0
        others-Stands (some s) = h.0

    pub Keeps-query {ℓ} : {A : Type ℓ} (f : Db → Result A) → Keeps I (query e f)
    unfolding query
    Keeps-query f = record { run = λ w h. observe-Stands w h }

    pub Keeps-execute {ℓ} :
        {A : Type ℓ} (f : Db → Result (A × Db))
        → ((d : Db) → I d → Ensures (λ (r : A × Db). I r.1) (f d))
        → Keeps I (execute e f)
    unfolding execute
    Keeps-execute {A} f kf = record {
      run = λ w h.
          let w' = observe e w in
          let h' = observe-Stands w h in written-Stands (f w'.db) w' h' (kf w'.db h'.0);
    }
      where
        written-Stands :
            (r : Result (A × Db)) (w' : World)
            → Stands I w'
            → Ensures (λ x. I x.1) r
            → Stands I (written e r w').1
        written-Stands (ok (a, d)) w' h' k = (k, InSnapshot-base w'.snapshot w'.db h'.0 h'.1)
        written-Stands (err x) w' h' k = h'

    pub Keeps-now : Keeps I (now e)
    unfolding now
    Keeps-now = record { run = λ w h. h }

    pub Keeps-uuid4 : Keeps I (uuid4 e)
    unfolding uuid4
    Keeps-uuid4 = record { run = λ w h. h }
