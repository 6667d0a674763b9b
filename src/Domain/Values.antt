-- ===== src/Domain/Values.antt =====
-- The enumerations of domain/models.py, the primitive carriers, and Python's tests and `str.strip`.
use agentic_analyst.Prelude.{
  ℕ, ◌+◌, ◌-◌, ◌/◌, ◌*◌, Bool, true, false, ◌&&◌, ◌||◌, List, [], ◌∷◌, Option, none, some, Text,
  codes, leb, ◌==◌, if◌then◌else◌,
}

abbrev pub Uuid : Type 0
Uuid = ℕ

abbrev pub Datetime : Type 0
Datetime = ℕ

abbrev pub Date : Type 0
Date = ℕ

abbrev pub Float : Type 0
Float = ℕ

abbrev pub day_length : ℕ
day_length = 86_400_000_000

-- `moment.date()` of a moment in UTC.
unfoldable pub date_of : Datetime → Date
date_of moment = moment / day_length + 1

-- `datetime.combine(day, time.min, tzinfo=UTC)`
unfoldable pub midnight : Date → Datetime
midnight day = (day - 1) * day_length

pub data Cadence : Type 0 where
  daily weekly monthly : Cadence

pub data WorkflowStatus : Type 0 where
  pending running succeeded failed resumable : WorkflowStatus

pub data GroupingMethod : Type 0 where
  title_token_jaccard content_cosine : GroupingMethod

pub data IngestionStatus : Type 0 where
  pending fetched duplicate succeeded failed : IngestionStatus

pub data ExtractorKind : Type 0 where
  primary_http crawl4ai file_pdf file_text : ExtractorKind

-- `a is b` and `==` on the members of an enumeration.
abbrev pub cadence_eq : Cadence → Cadence → Bool
cadence_eq daily daily = true
cadence_eq weekly weekly = true
cadence_eq monthly monthly = true
cadence_eq _ _ = false

abbrev pub status_eq : WorkflowStatus → WorkflowStatus → Bool
status_eq WorkflowStatus.pending WorkflowStatus.pending = true
status_eq WorkflowStatus.running WorkflowStatus.running = true
status_eq WorkflowStatus.succeeded WorkflowStatus.succeeded = true
status_eq WorkflowStatus.failed WorkflowStatus.failed = true
status_eq WorkflowStatus.resumable WorkflowStatus.resumable = true
status_eq _ _ = false

-- `cadence.value`
abbrev pub cadence_value : Cadence → Text
cadence_value daily = codes "daily"
cadence_value weekly = codes "weekly"
cadence_value monthly = codes "monthly"

-- The characters that `str.strip` removes and `\s` matches in a str.
unfoldable pub is_space : ℕ → Bool
is_space c =
    (leb 9 c && leb c 13)
    || (leb 28 c && leb c 32)
    || c == 0x85
    || c == 0xa0
    || c == 0x1680
    || (leb 0x2000 c && leb c 0x200a)
    || c == 0x2028
    || c == 0x2029
    || c == 0x202f
    || c == 0x205f
    || c == 0x3000

unfoldable pub lstrip : Text → Text
lstrip [] = []
lstrip (c ∷ s) = let rest = lstrip s in if is_space c then rest else c ∷ s

unfoldable pub rstrip : Text → Text
rstrip [] = []
rstrip (c ∷ s) = elim (rstrip s) [ [] ↦ if is_space c then [] else c ∷ [] | d ∷ t ↦ c ∷ d ∷ t ]

-- `text.strip()`
unfoldable pub strip : Text → Text
unfolding lstrip rstrip is_space
strip s = rstrip (lstrip s)

-- `not text`
abbrev pub is_empty {ℓ} : {A : Type ℓ} → List A → Bool
is_empty [] = true
is_empty (c ∷ s) = false

-- `not v or not v.strip()`
unfoldable pub is_blank : Text → Bool
unfolding strip
is_blank v = is_empty v || is_empty (strip v)

-- `value or None`, for an optional text: the empty text counts as missing.
abbrev pub or_none : Option Text → Option Text
or_none none = none
or_none (some []) = none
or_none (some (c ∷ s)) = some (c ∷ s)

-- `first or second`, for optional texts.
abbrev pub or_text : Option Text → Option Text → Option Text
or_text none second = second
or_text (some []) second = second
or_text (some (c ∷ s)) second = some (c ∷ s)

-- `first or second`, for optional moments, which are never false.
abbrev pub or_moment : Option Datetime → Option Datetime → Option Datetime
or_moment none second = second
or_moment (some moment) second = some moment
