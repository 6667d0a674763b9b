-- ===== src/Briefs/Sound.antt =====
-- At most one brief for each topic, cadence and interval, and evidence for each.
use agentic_analyst.Prelude.{
  ◌≡◌, false, ◌||◌, not, List, [], ◌∷◌, any, All, All-append, arith, ◌==◌, Bool-cases, inl, inr,
  Bool,
}
use agentic_analyst.Prelude.Apart.{Apart, snoc-Apart}
use agentic_analyst.Domain.Values.{is_empty, Cadence, cadence_eq}
use agentic_analyst.Domain.Errors.{Ensures}
use agentic_analyst.Domain.Briefs.{Brief}
use agentic_analyst.Store.Tables.{Db}
use agentic_analyst.Ingestion.Statements.{has_topic}
use agentic_analyst.Briefs.Statements.{same_interval, insert_brief}

abbrev pub brief_clash : Brief → Brief → Bool
brief_clash brief b = b.id == brief.id || same_interval brief b

abbrev pub HasEvidence : Brief → Type 0
HasEvidence b = is_empty b.cited_batch_summary_ids ≡ false

-- No two briefs share an identifier, or a topic, a cadence and an interval; and each brief cites a
-- summary.
abbrev pub AreSound : List Brief → Type 0
AreSound briefs = Apart brief_clash briefs × All HasEvidence briefs

abbrev pub HasSoundBriefs : Db → Type 0
HasSoundBriefs d = AreSound d.briefs

cadence_eq_sym : (a b : Cadence) → cadence_eq a b ≡ cadence_eq b a
cadence_eq_sym a b = ground arith

brief_clash_sym : (x y : Brief) → brief_clash x y ≡ false → brief_clash y x ≡ false
brief_clash_sym x y h = ground (arith, cadence_eq_sym x.cadence y.cadence)

pub insert_brief-HasSoundBriefs :
    (b : Brief) (d : Db)
    → HasEvidence b
    → HasSoundBriefs d
    → Ensures (λ r. HasSoundBriefs r.1) (insert_brief b d)
unfolding insert_brief
insert_brief-HasSoundBriefs b d cites (apart, cited) =
    elim (Bool-cases (any (brief_clash b) d.briefs)) [
      | inl clash ↦ rw clash tt
      | inr free ↦ elim (Bool-cases (not (has_topic b.topic_id d))) [
        | inl missing ↦ rw (free, missing) tt
        | inr there ↦
            rw (free, there)
              (
                snoc-Apart brief_clash brief_clash_sym b d.briefs apart free,
                All-append HasEvidence (b ∷ []) d.briefs cited (cites, tt),
              )
      ]
    ]
