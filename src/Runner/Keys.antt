-- ===== src/Runner/Keys.antt =====
-- The idempotency key of `_ensure_run`, and what it identifies.
use agentic_analyst.Prelude.{◌≡◌, ◌≢◌, refl, [], ◌∷◌, ◌++◌, Text, arith}
use agentic_analyst.Domain.Errors.{Error}
use agentic_analyst.Domain.Values.{Uuid, Date, Cadence, daily, weekly, monthly, cadence_value}

-- `str` of a UUID, `date.isoformat` and `type(error).__name__`, of the interpreter.
pub record Formats : Type 0 where
  pub type_name : Error → Text
  pub show_uuid : Uuid → Text
  pub isoformat : Date → Text

-- The key `f"{cadence.value}:{topic_id}:{start.isoformat()}:{end.isoformat()}"`.
unfoldable pub run_key : Formats → Cadence → Uuid → Date → Date → Text
run_key f cadence topic_id start end =
    cadence_value cadence
    ++ (b':' ∷ f.show_uuid topic_id ++ (b':' ∷ f.isoformat start ++ (b':' ∷ f.isoformat end)))

abbrev pub LacksColon : Text → Type 0
LacksColon [] = Unit
LacksColon (c ∷ s) = (c ≢ b':') × LacksColon s

-- The printed forms differ for different values, and none of them has a colon.
pub record AreReadable (f : Formats) : Type 0 where
  pub uuid_injective : (a b : Uuid) → f.show_uuid a ≡ f.show_uuid b → a ≡ b
  pub date_injective : (a b : Date) → f.isoformat a ≡ f.isoformat b → a ≡ b
  pub uuid_lacks : (a : Uuid) → LacksColon (f.show_uuid a)
  pub date_lacks : (a : Date) → LacksColon (f.isoformat a)

-- The text before the first colon, and the text behind it, are determined.
split_at_colon :
    (s t u v : Text)
    → LacksColon s
    → LacksColon t
    → s ++ (b':' ∷ u) ≡ t ++ (b':' ∷ v)
    → (s ≡ t) × (u ≡ v)
split_at_colon [] [] u v hs ht e = (refl, cc)
split_at_colon [] (c ∷ t) u v hs ht e = absurd (ht.0 (cc))
split_at_colon (c ∷ s) [] u v hs ht e = absurd (hs.0 (cc))
split_at_colon (c ∷ s) (d ∷ t) u v hs ht e =
    let (heads, tails) = split_at_colon s t u v hs.1 ht.1 (cc) in (cc, tails)

cadence_lacks : (c : Cadence) → LacksColon (cadence_value c)
cadence_lacks daily = omega arith
cadence_lacks weekly = omega arith
cadence_lacks monthly = omega arith

cadence_value_injective : (a b : Cadence) → cadence_value a ≡ cadence_value b → a ≡ b
cadence_value_injective a b e = ground arith

-- Two runs have the same idempotency key only if they have the same cadence, topic and interval.
pub run_key_injective :
    (f : Formats) (c c' : Cadence) (t t' : Uuid) (s s' e e' : Date)
    → AreReadable f
    → run_key f c t s e ≡ run_key f c' t' s' e'
    → (c ≡ c') × (t ≡ t') × (s ≡ s') × (e ≡ e')
unfolding run_key
run_key_injective f c c' t t' s s' e e' r same =
    let (cadences, rest) = split_at_colon _ _ _ _ (cadence_lacks c) (cadence_lacks c') same in
    let (topics, dates) = split_at_colon _ _ _ _ (r.uuid_lacks t) (r.uuid_lacks t') rest in
    let (starts, ends) = split_at_colon _ _ _ _ (r.date_lacks s) (r.date_lacks s') dates in
    (
      cadence_value_injective c c' cadences,
      r.uuid_injective t t' topics,
      r.date_injective s s' starts,
      r.date_injective e e' ends,
    )
