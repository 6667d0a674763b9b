-- ===== src/Pipelines/Tests.antt =====
-- The pipelines on a small archive, and their theorems there.
use agentic_analyst.Prelude.{
  ℕ, ◌+◌, ◌≡◌, refl, inl, true, false, List, [], ◌∷◌, ◌++◌, none, some, codes, All, Exists, select,
}
use agentic_analyst.Domain.Values.{Uuid, weekly}
use agentic_analyst.Domain.Errors.{ok, err, Ensures, model_error}
use agentic_analyst.Store.Tables.{scalar_one_or_none}
use agentic_analyst.Store.Session.{World, M, raise}
use agentic_analyst.Store.Alone.{alone}
use agentic_analyst.Store.Returns.{Returns}
use agentic_analyst.Calendar.Civil.{weekday}
use agentic_analyst.Calendar.Windows.{week_window}
use agentic_analyst.Http.Tests.{library}
use agentic_analyst.Ingestion.Tests.{ports}
use agentic_analyst.Batching.Tests.{platform}
use agentic_analyst.Briefs.Queries.{
  is_batch_summary_cited, list_eligible_batch_summaries_for_window,
}
use agentic_analyst.Runs.Statements.{find_by_key}
use agentic_analyst.Runner.Keys.{run_key}
use agentic_analyst.Runner.Execute.{GraphState}
use agentic_analyst.Pipelines.Selection.{select_summaries}
use agentic_analyst.Pipelines.Evidence.{
  is_uncited, is_batch_summary_cited-own, select_summaries_lem,
}
use agentic_analyst.Pipelines.Periodic.{window_of, run_periodic}
use agentic_analyst.Pipelines.Results.{IsPeriodicResult, run_periodic-IsPeriodicResult}
use agentic_analyst.Pipelines.Retry.{Names, run_periodic_again}
use agentic_analyst.Pipelines.Daily.{Services}
use agentic_analyst.Pipelines.DailyRun.{run_pipeline, select_daily}
use agentic_analyst.Pipelines.DailyResults.{IsDailyResult, run_pipeline-IsDailyResult}
use agentic_analyst.Pipelines.DailyEvidence.{IsDue, select_daily-IsDue}
use agentic_analyst.Pipelines.Schedule.{run_topics, after_all, run_topics_lem}
use agentic_analyst.Samples.{
  idle, formats, strokes, archive, brief, topic, summary, batch, weekly_run, world_of,
}

abbrev broken : GraphState → M (Unit {0})
broken s = raise (model_error [])

is_batch_summary_cited-own_example :
    is_batch_summary_cited 30 weekly 1 7 (record archive { briefs = archive.briefs ++ brief ∷ [] })
    ≡ is_batch_summary_cited 30 weekly 1 7 archive
is_batch_summary_cited-own_example = is_batch_summary_cited-own 30 brief archive

select_summaries_lem_example :
    ((select_summaries (alone idle) weekly 7 1 7 (world_of archive)).1.db ≡ archive)
    × Ensures
        (λ xs.
          xs
          ≡ select
              (is_uncited weekly 1 7 archive)
              (list_eligible_batch_summaries_for_window 1 7 7 archive))
        (select_summaries (alone idle) weekly 7 1 7 (world_of archive)).0
select_summaries_lem_example = select_summaries_lem idle weekly 7 1 7 (world_of archive) refl

run_periodic-IsPeriodicResult_example :
    Returns
      (IsPeriodicResult weekly 7 (window_of weekly 3))
      (run_periodic idle formats broken weekly 3 (some 3) 7)
run_periodic-IsPeriodicResult_example =
    run_periodic-IsPeriodicResult idle formats broken weekly 3 3 7

abbrev ended_world : World
ended_world = world_of (record archive { runs = weekly_run ∷ [] })

ended_found :
    find_by_key
      (run_key formats weekly 7 (window_of weekly 3).0 (window_of weekly 3).1)
      ended_world.db
    ≡ ok (some weekly_run)
unfolding find_by_key run_key window_of week_window weekday scalar_one_or_none
    agentic_analyst.Prelude.text_eq
ended_found = refl

run_periodic_again_example :
    let out = run_periodic (alone idle) formats broken weekly 3 (some 3) 7 ended_world in
    (out.1.db ≡ ended_world.db) × (out.1.log ≡ []) × Ensures (Names weekly_run) out.0
run_periodic_again_example =
    run_periodic_again idle formats broken weekly 3 3 7 weekly_run ended_world (λ e. cc) refl
      ended_found (inl refl)

select_daily-IsDue_example :
    let out = select_daily (alone idle) 1 ((20, summary) ∷ []) (batch ∷ []) (world_of archive) in
    (out.1.db ≡ archive)
    × Ensures (All (λ x. Exists (IsDue archive 1 ((20, summary) ∷ []) x) (batch ∷ []))) out.0
select_daily-IsDue_example =
    select_daily-IsDue idle 1 ((20, summary) ∷ []) (batch ∷ []) (world_of archive) refl

-- A run that fails for every topic.
abbrev failing : Uuid → M (Unit {0})
failing id = raise (model_error [])

run_topics_lem_example :
    run_topics failing (topic ∷ topic ∷ []) (world_of archive)
    ≡ (ok tt, after_all failing (topic ∷ topic ∷ []) (world_of archive))
run_topics_lem_example = run_topics_lem failing (topic ∷ topic ∷ []) (world_of archive)

abbrev services : Services
services = record {
  settings = record {
    max_feeds_per_run = 2;
    max_articles_per_run = 9;
    allowed_languages = codes "en" ∷ [];
    title_similarity_threshold = 400;
    grouping_algorithm_version = codes "v1";
    batch_summary_model = codes "m";
    batch_summary_prompt_version = codes "v1";
  };
  ports = ports;
  urls = library;
  platform = platform;
  batch_uuid = λ n i. 1000 + n + i;
  batch_now = λ n i. n;
  printers = record { show_uuid = strokes; isoformat = strokes };
  system_prompt = [];
  generate = λ messages n. err (model_error []);
}

run_pipeline-IsDailyResult_example :
    Returns (IsDailyResult services 1 7) (run_pipeline idle formats broken services 1 1 7)
run_pipeline-IsDailyResult_example = run_pipeline-IsDailyResult idle formats broken services 1 1 7
