-- ===== src/Runs/Unique.antt =====
-- One run for each idempotency key.
use agentic_analyst.Prelude.{
  ◌≡◌, refl, sym, subst, ◌∙◌, Bool, true, false, ◌||◌, List, [], ◌∷◌, ◌++◌, Option, none, some,
  Text, text_eq, text_eq_iff, any, select, arith, ◌==◌, Bool-cases, inl, inr,
}
use agentic_analyst.Domain.Values.{Uuid}
use agentic_analyst.Domain.Errors.{ok, Ensures, Ensures-ok}
use agentic_analyst.Domain.Briefs.{WorkflowRun}
use agentic_analyst.Store.Tables.{Db, scalar_one_or_none}
use agentic_analyst.Runs.Statements.{insert_run, with_key, assign, overwrite, claimed, find_by_key}
use agentic_analyst.Runs.Rows.{update_inversion, claim_inversion}
use agentic_analyst.Runs.Closed.{
  Change, Reaches, created, updated, claimed_run, elsewhere, here, next,
}

-- The rows agree on the identifier or on the key.
abbrev pub clash : WorkflowRun → WorkflowRun → Bool
clash run x = x.id == run.id || text_eq x.idempotency_key run.idempotency_key

-- No two rows share an identifier or an idempotency key.
abbrev pub AreUnique : List WorkflowRun → Type 0
AreUnique [] = Unit
AreUnique (x ∷ xs) = (any (clash x) xs ≡ false) × AreUnique xs

clash_sym : (x y : WorkflowRun) → clash x y ≡ false → clash y x ≡ false
clash_sym x y h = ground (
  arith,
  text_eq_iff x.idempotency_key y.idempotency_key,
  text_eq_iff y.idempotency_key x.idempotency_key,
)

any-clash_snoc :
    (x run : WorkflowRun) (xs : List WorkflowRun)
    → any (clash x) xs ≡ false
    → clash x run ≡ false
    → any (clash x) (xs ++ run ∷ []) ≡ false
any-clash_snoc x run [] h c = ground arith
any-clash_snoc x run (y ∷ xs) h c = ground (arith, any-clash_snoc x run xs)

snoc-AreUnique :
    (run : WorkflowRun) (xs : List WorkflowRun)
    → AreUnique xs
    → any (clash run) xs ≡ false
    → AreUnique (xs ++ run ∷ [])
snoc-AreUnique run [] u h = (refl, tt)
snoc-AreUnique run (x ∷ xs) u h =
    let first : clash run x ≡ false = ground arith in
    let later : any (clash run) xs ≡ false = ground arith in
    (any-clash_snoc x run xs u.0 (clash_sym run x first), snoc-AreUnique run xs u.1 later)

module _ (target : Uuid) (change : WorkflowRun → WorkflowRun)
    (same_id : (x : WorkflowRun) → (change x).id ≡ x.id)
    (same_key : (x : WorkflowRun) → (change x).idempotency_key ≡ x.idempotency_key) where
  any-clash-assign :
      (x : WorkflowRun) (xs : List WorkflowRun)
      → any (clash x) (assign target change xs) ≡ any (clash x) xs
  any-clash-assign x [] = refl
  any-clash-assign x (y ∷ xs) = ground (arith, same_id y, same_key y, any-clash-assign x xs)

  assign-AreUnique : (xs : List WorkflowRun) → AreUnique xs → AreUnique (assign target change xs)
  assign-AreUnique [] u = tt
  assign-AreUnique (x ∷ xs) u = elim (Bool-cases (x.id == target)) [
    | inl hit ↦
        rw hit (rw (same_id x, same_key x) (any-clash-assign x xs ∙ u.0), assign-AreUnique xs u.1)
    | inr miss ↦ rw miss (any-clash-assign x xs ∙ u.0, assign-AreUnique xs u.1)
  ]

insert-AreUnique :
    (run : WorkflowRun) (d : Db)
    → AreUnique d.runs
    → Ensures (λ (r : WorkflowRun × Db). AreUnique r.1.runs) (insert_run run d)
unfolding insert_run
insert-AreUnique run d u = elim (Bool-cases (any (clash run) d.runs)) [
  | inl there ↦ rw there tt
  | inr new ↦ rw new (snoc-AreUnique run d.runs u new)
]

Change-AreUnique : {d d' : Db} → Change d d' → AreUnique d.runs → AreUnique d'.runs
Change-AreUnique {d = d} (created run e) u =
    Ensures-ok (λ (r : WorkflowRun × Db). AreUnique r.1.runs) (insert_run run d)
      (insert-AreUnique run d u) e
Change-AreUnique {d = d} (updated run e) u =
    let (row, found, accepted, result) = update_inversion run d e in
    subst (λ (o : WorkflowRun × Db). AreUnique o.1.runs) (sym result)
      (assign-AreUnique run.id (overwrite run) (λ x. refl) (λ x. refl) d.runs u)
Change-AreUnique {d = d} (claimed_run run e) u = elim (claim_inversion run d e) [
  | inl nothing ↦ subst (λ (o : Option WorkflowRun × Db). AreUnique o.1.runs) (sym nothing) u
  | inr (old, found, result) ↦
      subst (λ (o : Option WorkflowRun × Db). AreUnique o.1.runs) (sym result)
        (assign-AreUnique run.id (claimed run) (λ x. refl) (λ x. refl) d.runs u)
]
Change-AreUnique (elsewhere e) u = subst AreUnique (sym e) u

Reaches-AreUnique : {d d' : Db} → Reaches d d' → AreUnique d.runs → AreUnique d'.runs
Reaches-AreUnique here u = u
Reaches-AreUnique (next r c) u = Change-AreUnique c (Reaches-AreUnique r u)

select_none :
    (key : Text) (x : WorkflowRun) (xs : List WorkflowRun)
    → with_key key x ≡ true
    → any (clash x) xs ≡ false
    → select (with_key key) xs ≡ []
select_none key x [] hit u = refl
select_none key x (y ∷ xs) hit u = ground (
  arith,
  text_eq_iff x.idempotency_key key,
  text_eq_iff y.idempotency_key key,
  text_eq_iff y.idempotency_key x.idempotency_key,
  select_none key x xs hit,
)

lookup_total :
    (key : Text) (xs : List WorkflowRun)
    → AreUnique xs
    → (o : Option WorkflowRun) × (scalar_one_or_none (select (with_key key) xs) ≡ ok o)
unfolding scalar_one_or_none
lookup_total key [] u = (none, refl)
lookup_total key (x ∷ xs) u = elim (Bool-cases (with_key key x)) [
  | inl hit ↦ (some x, rw (hit, select_none key x xs hit u.0) refl)
  | inr miss ↦ rw miss (lookup_total key xs u.1)
]

-- From a database in which no two runs share an identifier or a key, every history of creations,
-- updates, claims and changes of other tables leads to one of the same kind; so the lookup by
-- idempotency key, which fails if it meets two rows, always returns.
pub one_run_per_key :
    (key : Text) (d d' : Db)
    → AreUnique d.runs
    → Reaches d d'
    → AreUnique d'.runs × ((o : Option WorkflowRun) × (find_by_key key d' ≡ ok o))
unfolding find_by_key
one_run_per_key key d d' u history =
    let u' = Reaches-AreUnique history u in (u', lookup_total key d'.runs u')
