-- ===== src/Runs/Outcomes.antt =====
-- The lifecycle of a workflow run over any history of changes.
use agentic_analyst.Prelude.{
  ◌≡◌, ◌≢◌, refl, sym, subst, ap, true, false, List, [], ◌∷◌, Option, none, some, any, select, All,
  arith, ◌==◌, Bool-cases, inl, inr, ◌⊎◌,
}
use agentic_analyst.Domain.Values.{Uuid, WorkflowStatus, pending, succeeded, failed, resumable}
use agentic_analyst.Domain.Errors.{ok}
use agentic_analyst.Domain.Briefs.{WorkflowRun}
use agentic_analyst.Store.Tables.{Db, scalar_one_or_none}
use agentic_analyst.Runs.Statements.{
  transition_allowed, with_id, assign, claimable, claimed, claim_statement,
}
use agentic_analyst.Runs.Rows.{claim_inversion}
use agentic_analyst.Runs.Closed.{IsClosed, Within, StatusIn, Reaches, Reaches-Within, any-assign}

-- The statuses that the table lets nothing leave.
abbrev pub IsFinal : WorkflowStatus → Type 0
IsFinal s = (t : WorkflowStatus) → transition_allowed s t ≡ false

final-IsClosed : (s : WorkflowStatus) → IsFinal s → IsClosed (λ t. t ≡ s)
final-IsClosed s f a b e t = let no_move = f b in absurd_of (rw e at t) no_move
  where
    absurd_of : transition_allowed s b ≡ true → transition_allowed s b ≡ false → b ≡ s
    absurd_of yes_move no_move = cc

-- A run whose status is SUCCEEDED, FAILED or RESUMABLE keeps that status over every history of
-- creations, updates, claims and changes of other tables.
pub final_status_stays :
    (id : Uuid) (s : WorkflowStatus) (d d' : Db)
    → ((s ≡ succeeded) ⊎ (s ≡ failed) ⊎ (s ≡ resumable))
    → Within id (λ t. t ≡ s) d
    → Reaches d d'
    → Within id (λ t. t ≡ s) d'
unfolding transition_allowed
final_status_stays id s d d' f h r =
    Reaches-Within id (λ t. t ≡ s) (final-IsClosed s (λ t. ground arith)) r h

left-IsClosed : IsClosed (λ s. s ≢ pending)
unfolding transition_allowed
left-IsClosed s t ne moved e = ground arith

no_claimable :
    (run : WorkflowRun) (xs : List WorkflowRun)
    → All (StatusIn run.id (λ s. s ≢ pending)) xs
    → select (claimable run) xs ≡ []
no_claimable run [] h = refl
no_claimable run (x ∷ xs) h = elim (Bool-cases (claimable run x)) [
  | inl hit ↦
      let same : x.id ≡ run.id = ground arith in
      let was_pending : x.status ≡ pending = ground arith in absurd (h.0 same was_pending)
  | inr miss ↦ rw miss (no_claimable run xs h.1)
]

any_of_claimable :
    (run : WorkflowRun) (xs : List WorkflowRun) {old : WorkflowRun}
    → select (claimable run) xs ≡ old ∷ []
    → any (with_id run.id) xs ≡ true
any_of_claimable run [] e = cc
any_of_claimable run (x ∷ xs) e = elim (Bool-cases (claimable run x)) [
  | inl hit ↦ let same : x.id ≡ run.id = ground arith in ground arith
  | inr miss ↦ ground (arith, any_of_claimable run xs (rw miss at e))
]

assign_leaves :
    (run : WorkflowRun) (xs : List WorkflowRun)
    → All (StatusIn run.id (λ s. s ≢ pending)) (assign run.id (claimed run) xs)
assign_leaves run [] = tt
assign_leaves run (x ∷ xs) = elim (Bool-cases (x.id == run.id)) [
  | inl hit ↦ rw hit ((λ i e. cc), assign_leaves run xs)
  | inr miss ↦ rw miss ((λ i e. ground arith), assign_leaves run xs)
]

-- After a successful claim the run is there, and no longer pending.
pub claimed-Within :
    (run row : WorkflowRun) (d d1 : Db)
    → claim_statement run d ≡ ok (some row, d1)
    → Within run.id (λ s. s ≢ pending) d1
claimed-Within run row d d1 first = elim (claim_inversion run d first) [
  | inl nothing ↦ cc
  | inr (old, found, result) ↦
      let after : d1 ≡ record d { runs = assign run.id (claimed run) d.runs } =
        ap (λ (o : Option WorkflowRun × Db). o.1) result in
      subst (λ (x : Db). Within run.id (λ s. s ≢ pending) x) (sym after)
        (
          rw (any-assign run.id (λ s. s ≢ pending) run.id (claimed run) (λ x. refl))
              (any_of_claimable run d.runs found),
          assign_leaves run d.runs,
        )
]

-- A run that was claimed once is never claimed again: on every database that is reached after a
-- successful claim, another claim of the same run returns nothing and changes nothing.
pub claim_once :
    (run again : WorkflowRun) (d d1 d2 : Db) (row : WorkflowRun)
    → again.id ≡ run.id
    → claim_statement run d ≡ ok (some row, d1)
    → Reaches d1 d2
    → claim_statement again d2 ≡ ok (none, d2)
unfolding claim_statement scalar_one_or_none
claim_once run again d d1 d2 row same first history =
    let later =
      Reaches-Within run.id (λ s. s ≢ pending) left-IsClosed history
        (claimed-Within run row d d1 first) in
    rw
      (no_claimable again d2.runs
        (subst (λ i. All (StatusIn i (λ s. s ≢ pending)) d2.runs) (sym same) later.1))
      refl
