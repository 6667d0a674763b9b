-- ===== src/Runs/Rows.antt =====
-- What the statements on workflow runs do to the rows, as facts that the invariants share.
use agentic_analyst.Prelude.{
  ◌≡◌, refl, subst, ◌⊎◌, Option-cases, Bool, true, List, [], ◌∷◌, Option, none, some, select, All,
  All-select, arith, inl, inr,
}
use agentic_analyst.Domain.Values.{WorkflowStatus, status_eq}
use agentic_analyst.Domain.Errors.{Result, ok, err}
use agentic_analyst.Domain.Briefs.{WorkflowRun}
use agentic_analyst.Store.Tables.{Db, scalar_one_or_none}
use agentic_analyst.Runs.Statements.{
  transition_allowed, with_id, assign, update_refusal, overwrite, update_statement, claimable,
  claimed, claim_found, claim_statement, on_found, update_found,
}

pub scalar_some {ℓ} :
    {A : Type ℓ} (xs : List A) {a : A} → scalar_one_or_none xs ≡ ok (some a) → xs ≡ a ∷ []
unfolding scalar_one_or_none
scalar_some [] h = cc
scalar_some (x ∷ []) h = cc
scalar_some (x ∷ y ∷ xs) h = cc

-- The one selected row passes the test, and keeps what holds of all rows.
pub select_one {ℓ κ} :
    {A : Type ℓ} (P : A → Type κ) (test : A → Bool) (xs : List A) {a : A}
    → select test xs ≡ a ∷ []
    → All P xs
    → P a × (test a ≡ true)
select_one {A} P test xs e h =
    (subst (λ (l : List A). All (λ x. P x × (test x ≡ true)) l) e (All-select P test xs h)).0

pub status_eq_sound : (s t : WorkflowStatus) → status_eq s t ≡ true → s ≡ t
status_eq_sound s t h = ground arith

-- An accepted update keeps the status of the row that it has found, or makes an allowed step.
pub update_status :
    (run row : WorkflowRun)
    → update_refusal run row ≡ none
    → (status_eq run.status row.status ≡ true) ⊎ (transition_allowed row.status run.status ≡ true)
unfolding update_refusal
update_status run row h = ground arith

on_found_ok :
    {B : Type 0} (m : Result (Option WorkflowRun)) (f : Option WorkflowRun → Result B) {b : B}
    → on_found m f ≡ ok b
    → (o : Option WorkflowRun) × (m ≡ ok o) × (f o ≡ ok b)
on_found_ok (ok o) f h = (o, refl, h)
on_found_ok (err x) f h = cc

update_found_ok :
    (run : WorkflowRun) (o : Option WorkflowRun) (d : Db) {out : WorkflowRun × Db}
    → update_found run o d ≡ ok out
    → (row : WorkflowRun) × (o ≡ some row)
      × (update_refusal run row ≡ none)
      × (out ≡ (overwrite run row, record d { runs = assign run.id (overwrite run) d.runs }))
update_found_ok run none d h = cc
update_found_ok run (some row) d h = elim (Option-cases (update_refusal run row)) [
  | inl accepted ↦ let h' = rw (accepted, update_found) at h in (row, refl, accepted, cc)
  | inr (x, refused) ↦ let h' = rw (refused, update_found) at h in cc
]

-- What a successful update has found, and what it leaves.
pub update_inversion :
    (run : WorkflowRun) (d : Db) {out : WorkflowRun × Db}
    → update_statement run d ≡ ok out
    → (row : WorkflowRun) × (select (with_id run.id) d.runs ≡ row ∷ [])
      × (update_refusal run row ≡ none)
      × (out ≡ (overwrite run row, record d { runs = assign run.id (overwrite run) d.runs }))
unfolding update_statement
update_inversion run d h =
    let (o, found, updated) =
      on_found_ok (scalar_one_or_none (select (with_id run.id) d.runs)) (λ o. update_found run o d)
        h in
    let (row, e, accepted, result) = update_found_ok run o d updated in
    (row, scalar_some _ (rw e at found), accepted, result)

claim_found_ok :
    (run : WorkflowRun) (o : Option WorkflowRun) (d : Db) {out : Option WorkflowRun × Db}
    → claim_found run o d ≡ ok out
    → ((out ≡ (none, d)) × (o ≡ none))
      ⊎ ((old : WorkflowRun) × (o ≡ some old)
          × (out
              ≡ (some (claimed run old), record d { runs = assign run.id (claimed run) d.runs })))
claim_found_ok run none d h = inl (cc, refl)
claim_found_ok run (some old) d h = inr (old, refl, cc)

-- A claim finds nothing and leaves the database as it is, or it takes the one claimable row.
pub claim_inversion :
    (run : WorkflowRun) (d : Db) {out : Option WorkflowRun × Db}
    → claim_statement run d ≡ ok out
    → (out ≡ (none, d))
      ⊎ ((old : WorkflowRun) × (select (claimable run) d.runs ≡ old ∷ [])
          × (out
              ≡ (some (claimed run old), record d { runs = assign run.id (claimed run) d.runs })))
unfolding claim_statement
claim_inversion run d h =
    let (o, found, result) =
      on_found_ok (scalar_one_or_none (select (claimable run) d.runs)) (λ o. claim_found run o d)
        h in
    elim (claim_found_ok run o d result) [
      | inl (e, _) ↦ inl e
      | inr (old, e, e') ↦ inr (old, scalar_some _ (rw e at found), e')
    ]
