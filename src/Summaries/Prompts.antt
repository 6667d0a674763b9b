-- ===== src/Summaries/Prompts.antt =====
-- src/analyst_engine/summarization/prompts.py.
use agentic_analyst.Prelude.{List, [], ◌∷◌, ◌++◌, Option, none, some, Text, codes, join, map}
use agentic_analyst.Domain.Values.{Uuid, Datetime}
use agentic_analyst.Domain.Articles.{Citation, Source, Article}

-- `str` of a UUID and `datetime.isoformat`, of the interpreter.
pub record Printers : Type 0 where
  pub show_uuid : Uuid → Text
  pub isoformat : Datetime → Text

pub record BatchSummaryModelResult : Type 0 where
  pub summary : Text
  pub source_notes : Option Text
  pub entities : List Text
  pub topics : List Text
  pub citations : List Citation

-- One message of a call of the model: its role and its content.
pub record Message : Type 0 where
  pub role : Text
  pub content : Text

abbrev pub newline : Text
newline = 10 ∷ []

-- `article.cleaned_content or ""`
abbrev pub content_of : Article → Text
content_of a = elim a.cleaned_content [ none ↦ [] | some text ↦ text ]

abbrev pub source_line : Option Source → Text
source_line none = codes "Source: User-provided"
source_line (some s) =
    codes "Source: " ++ (s.name ++ (codes " (" ++ (s.normalized_domain ++ codes ")")))

-- `_format_article_block`
unfoldable pub format_article_block : Printers → Article × Option Source → Text
format_article_block p (a, source) = join newline (
    (codes "--- ARTICLE id=" ++ (p.show_uuid a.id ++ codes " ---"))
    ∷ source_line source
    ∷ (codes "Title: " ++ a.title)
    ∷ (codes "Published: " ++ p.isoformat a.published_at)
    ∷ codes "Content:"
    ∷ content_of a
    ∷ (codes "--- END ARTICLE " ++ (p.show_uuid a.id ++ codes " ---"))
    ∷ [])

abbrev pub output_contract : Text → Text
output_contract prompt_version =
    codes
      "Return JSON matching the required schema with summary, source_notes, entities, topics, and citations. Cite only the article IDs shown above. At least one citation is required. prompt_version: "
    ++ prompt_version

-- The constant text of the system message is the parameter `system_prompt`.
unfoldable pub build_batch_summary_messages :
    Printers → Text → List (Article × Option Source) → Text → List Message
build_batch_summary_messages p system_prompt articles prompt_version =
    record { role = codes "system"; content = system_prompt }
    ∷ record {
      role = codes "user";
      content =
          join (newline ++ newline) (map (format_article_block p) articles)
          ++ (newline ++ (newline ++ output_contract prompt_version));
    }
    ∷ []
