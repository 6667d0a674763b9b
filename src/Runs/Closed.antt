-- ===== src/Runs/Closed.antt =====
-- A set of statuses that no allowed transition leaves: a run whose status is in it stays in it.
use agentic_analyst.Prelude.{
  ◌≡◌, refl, sym, subst, ◌∙◌, Bool, true, List, [], ◌∷◌, ◌++◌, Option, any, All, All-append, arith,
  ◌==◌, ==_iff, Bool-cases, inl, inr, text_eq, ◌||◌,
}
use agentic_analyst.Domain.Values.{Uuid, WorkflowStatus, pending, running}
use agentic_analyst.Domain.Errors.{ok, Ensures, Ensures-ok}
use agentic_analyst.Domain.Briefs.{WorkflowRun}
use agentic_analyst.Store.Tables.{Db}
use agentic_analyst.Runs.Statements.{
  transition_allowed, insert_run, with_id, assign, overwrite, update_statement, claimable, claimed,
  claim_statement,
}
use agentic_analyst.Runs.Rows.{
  select_one, status_eq_sound, update_status, update_inversion, claim_inversion,
}

-- No allowed transition leaves the set.
abbrev pub IsClosed : (WorkflowStatus → Type 0) → Type 0
IsClosed P = (s t : WorkflowStatus) → P s → transition_allowed s t ≡ true → P t

claim_allowed : transition_allowed pending running ≡ true
unfolding transition_allowed
claim_allowed = refl

module _ (id : Uuid) (P : WorkflowStatus → Type 0) where
  abbrev pub StatusIn : WorkflowRun → Type 0
  StatusIn x = x.id ≡ id → P x.status

  -- There is a run with the identifier, and the status of every such run is in the set.
  abbrev pub Within : Db → Type 0
  Within d = (any (with_id id) d.runs ≡ true) × All StatusIn d.runs

  any_snoc :
      (q : WorkflowRun → Bool) (xs : List WorkflowRun) (y : WorkflowRun)
      → any q (xs ++ y ∷ []) ≡ (any q xs || q y)
  any_snoc q [] y = ground arith
  any_snoc q (x ∷ xs) y = ground (arith, any_snoc q xs y)

  any_clash :
      (run : WorkflowRun) (xs : List WorkflowRun)
      → run.id ≡ id
      → any (with_id id) xs ≡ true
      → any
          (λ (x : WorkflowRun). x.id == run.id || text_eq x.idempotency_key run.idempotency_key)
          xs
        ≡ true
  any_clash run [] e h = cc
  any_clash run (x ∷ xs) e h = ground (arith, any_clash run xs e)

  insert_run-Within :
      (run : WorkflowRun) (d : Db)
      → Within d
      → Ensures (λ (r : WorkflowRun × Db). Within r.1) (insert_run run d)
  unfolding insert_run
  insert_run-Within run d h =
      let clash =
        λ (x : WorkflowRun). x.id == run.id || text_eq x.idempotency_key run.idempotency_key in
      elim (Bool-cases (any clash d.runs)) [
        | inl there ↦ rw there tt
        | inr new ↦ rw new (
          rw (any_snoc (with_id id) d.runs run, h.0) refl,
          All-append StatusIn (run ∷ []) d.runs h.1
              (λ e. let c = any_clash run d.runs e h.0 in cc, tt),
        )
      ]

  module _ (target : Uuid) (change : WorkflowRun → WorkflowRun)
      (same_id : (x : WorkflowRun) → (change x).id ≡ x.id) where
    pub any-assign :
        (xs : List WorkflowRun) → any (with_id id) (assign target change xs) ≡ any (with_id id) xs
    any-assign [] = refl
    any-assign (x ∷ xs) = ground (arith, same_id x, any-assign xs)

    All-assign :
        (xs : List WorkflowRun)
        → ((x : WorkflowRun) → x.id ≡ target → StatusIn x → StatusIn (change x))
        → All StatusIn xs
        → All StatusIn (assign target change xs)
    All-assign [] f h = tt
    All-assign (x ∷ xs) f h = elim (Bool-cases (x.id == target)) [
      | inl hit ↦ rw hit (f x ((==_iff x.id target).0 hit) h.0, All-assign xs f h.1)
      | inr miss ↦ rw miss (h.0, All-assign xs f h.1)
    ]

    assign-Within :
        (d : Db)
        → Within d
        → ((x : WorkflowRun) → x.id ≡ target → StatusIn x → StatusIn (change x))
        → Within (record d { runs = assign target change d.runs })
    assign-Within d h f = (rw any-assign h.0, All-assign d.runs f h.1)

  module _ (closed : IsClosed P) where
    pub update_statement-Within :
        (run : WorkflowRun) (d : Db) {out : WorkflowRun × Db}
        → Within d
        → update_statement run d ≡ ok out
        → Within out.1
    update_statement-Within run d h e =
        let (row, found, accepted, result) = update_inversion run d e in
        let (in_set, same) = select_one StatusIn (with_id run.id) d.runs found h.1 in
        let row_id = (==_iff row.id run.id).0 same in
        let stays : run.id ≡ id → P run.status = λ i. elim (update_status run row accepted) [
          | inl kept ↦
              subst P (sym (status_eq_sound run.status row.status kept)) (in_set (row_id ∙ i))
          | inr moved ↦ closed row.status run.status (in_set (row_id ∙ i)) moved
        ] in
        subst (λ (o : WorkflowRun × Db). Within o.1) (sym result)
          (assign-Within run.id (overwrite run) (λ x. refl) d h (λ x t s i. stays (sym t ∙ i)))

    pub claim_statement-Within :
        (run : WorkflowRun) (d : Db) {out : Option WorkflowRun × Db}
        → Within d
        → claim_statement run d ≡ ok out
        → Within out.1
    claim_statement-Within run d h e = elim (claim_inversion run d e) [
      | inl nothing ↦ subst (λ (o : Option WorkflowRun × Db). Within o.1) (sym nothing) h
      | inr (old, found, result) ↦
          let (in_set, passed) = select_one StatusIn (claimable run) d.runs found h.1 in
          let old_id : old.id ≡ run.id = ground arith in
          let was_pending : old.status ≡ pending = ground arith in
          let stays : run.id ≡ id → P running =
            λ i. closed pending running (subst P was_pending (in_set (old_id ∙ i))) claim_allowed in
          subst (λ (o : Option WorkflowRun × Db). Within o.1) (sym result)
            (assign-Within run.id (claimed run) (λ x. refl) d h (λ x t s i. stays (sym t ∙ i)))
    ]

-- One change of the database: a statement of this file's code that succeeded, or a change that
-- leaves the table of runs alone.
pub data Change : Db → Db → Type 0 where
  created :
      (run : WorkflowRun) {d d' : Db} {r : WorkflowRun}
      → insert_run run d ≡ ok (r, d')
      → Change d d'
  updated :
      (run : WorkflowRun) {d d' : Db} {r : WorkflowRun}
      → update_statement run d ≡ ok (r, d')
      → Change d d'
  claimed_run :
      (run : WorkflowRun) {d d' : Db} {r : Option WorkflowRun}
      → claim_statement run d ≡ ok (r, d')
      → Change d d'
  elsewhere : {d d' : Db} → d'.runs ≡ d.runs → Change d d'

pub data Reaches (start : Db) : Db → Type 0 where
  here : Reaches start start
  next : {d d' : Db} → Reaches start d → Change d d' → Reaches start d'

module _ (id : Uuid) (P : WorkflowStatus → Type 0) (closed : IsClosed P) where
  Change-Within : {d d' : Db} → Change d d' → Within id P d → Within id P d'
  Change-Within {d = d} (created run e) h =
      Ensures-ok (λ (r : WorkflowRun × Db). Within id P r.1) (insert_run run d)
        (insert_run-Within id P run d h) e
  Change-Within {d = d} (updated run e) h = update_statement-Within id P closed run d h e
  Change-Within {d = d} (claimed_run run e) h = claim_statement-Within id P closed run d h e
  Change-Within (elsewhere e) h =
      (rw e h.0, subst (λ (l : List WorkflowRun). All (StatusIn id P) l) (sym e) h.1)

  pub Reaches-Within : {d d' : Db} → Reaches d d' → Within id P d → Within id P d'
  Reaches-Within here h = h
  Reaches-Within (next r c) h = Change-Within c (Reaches-Within r h)
