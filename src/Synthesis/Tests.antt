-- ===== src/Synthesis/Tests.antt =====
-- The node of the graph on one summary, and its theorems there.
use agentic_analyst.Prelude.{◌≡◌, refl, inl, true, List, [], ◌∷◌, length}
use agentic_analyst.Domain.Values.{daily, succeeded}
use agentic_analyst.Store.Session.{World, query, observe, execute, now, uuid4, ask, session_scope}
use agentic_analyst.Store.Returns.{Returns}
use agentic_analyst.Runs.Closed.{here}
use agentic_analyst.Runner.Execute.{execute_workflow}
use agentic_analyst.Runner.Settled.{Settled}
use agentic_analyst.Briefs.Sound.{HasSoundBriefs}
use agentic_analyst.Synthesis.Frontier.{
  frontier_synthesis, new_narrative, new_brief, new_expectations, new_expectation, citing,
  confident, get_item,
}
use agentic_analyst.Synthesis.Node.{
  synthesize, try_embed, store_output, save_expectations, store_embedding,
}
use agentic_analyst.Synthesis.Outputs.{IsOutput, frontier_synthesis-IsOutput}
use agentic_analyst.Synthesis.Composed.{run_graph, trigger-Settled, trigger-HasSoundBriefs}
use agentic_analyst.Samples.{
  idle, formats, frontier, input, summary, archive, brief, weekly_run, world_of,
}

frontier_synthesis-IsOutput_example :
    Returns (IsOutput frontier input) (frontier_synthesis frontier idle input)
frontier_synthesis-IsOutput_example = frontier_synthesis-IsOutput frontier idle input

abbrev settled_archive : World
settled_archive = world_of (record archive { runs = weekly_run ∷ [] })

trigger-Settled_example :
    Settled 50 succeeded
      (execute_workflow idle formats
        (run_graph frontier idle)
        daily
        7
        1
        1
        (summary ∷ [])
        settled_archive).1.db
trigger-Settled_example =
    trigger-Settled idle formats frontier daily 7 1 1 (summary ∷ []) settled_archive 50 succeeded
      (inl refl) (λ n d. here) refl ((refl, tt), (refl, ((λ i. refl), tt)))

abbrev briefed_archive : World
briefed_archive = world_of (record archive { briefs = brief ∷ [] })

trigger-HasSoundBriefs_example :
    HasSoundBriefs
      (execute_workflow idle formats
        (run_graph frontier idle)
        daily
        7
        1
        1
        (summary ∷ [])
        briefed_archive).1.db
trigger-HasSoundBriefs_example =
    trigger-HasSoundBriefs idle formats frontier daily 7 1 1 (summary ∷ []) briefed_archive
      (λ n d h. h) refl ((refl, tt), (refl, tt))

-- The node stores the brief, although the embedding fails.
stored_test : length (synthesize frontier idle input (world_of archive)).1.db.briefs ≡ 1
unfolding synthesize try_embed store_output save_expectations store_embedding frontier_synthesis
    new_narrative new_brief new_expectations new_expectation citing confident get_item query observe
    execute now uuid4 ask session_scope agentic_analyst.Prelude.text_eq
    agentic_analyst.Briefs.Statements.save_narrative_version
    agentic_analyst.Briefs.Statements.save_prediction_expectation
    agentic_analyst.Briefs.Statements.save_brief agentic_analyst.Briefs.Statements.insert_narrative
    agentic_analyst.Briefs.Statements.insert_expectation
    agentic_analyst.Briefs.Statements.insert_brief
stored_test = refl
