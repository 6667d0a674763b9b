-- ===== src/Topics/Matcher.antt =====
-- `matches` of src/analyst_engine/topics/matcher.py.
-- `re.search` with an escaped keyword between two lookarounds is the search for the keyword,
-- character by character, from the left. Which characters `re.IGNORECASE` takes for the same is the
-- parameter `same`.
use agentic_analyst.Prelude.{
  ℕ, Bool, false, not, ◌&&◌, ◌||◌, List, [], ◌∷◌, Option, none, some, Text, any, leb, ◌==◌,
}
use agentic_analyst.Domain.Values.{is_empty}

-- The class `[A-Za-z0-9_]` under `re.IGNORECASE`, which the documentation of `re` extends by four
-- letters: U+0130, U+0131, U+017F and U+212A.
unfoldable pub is_word : ℕ → Bool
is_word c =
    (leb b'A' c && leb c b'Z')
    || (leb b'a' c && leb c b'z')
    || (leb b'0' c && leb c b'9')
    || c == b'_'
    || c == 0x130
    || c == 0x131
    || c == 0x17f
    || c == 0x212a

abbrev pub starts_in_word : Text → Bool
starts_in_word [] = false
starts_in_word (c ∷ s) = is_word c

-- `texts = [field for field in fields if field]`
abbrev pub texts_of : List (Option Text) → List Text
texts_of [] = []
texts_of (none ∷ fields) = texts_of fields
texts_of (some [] ∷ fields) = texts_of fields
texts_of (some (c ∷ s) ∷ fields) = (c ∷ s) ∷ texts_of fields

module _ (same : ℕ → ℕ → Bool) where
  -- The keyword stands at the start of the text, and no word character follows.
  unfoldable pub stands_at : Text → Text → Bool
  stands_at [] s = not (starts_in_word s)
  stands_at (k ∷ keyword) [] = false
  stands_at (k ∷ keyword) (c ∷ s) = same k c && stands_at keyword s

  -- The search, where `inside` says that a word character stands before the text.
  unfoldable pub search_from : Text → Bool → Text → Bool
  search_from keyword inside [] = not inside && stands_at keyword []
  search_from keyword inside (c ∷ s) =
      (not inside && stands_at keyword (c ∷ s)) || search_from keyword (is_word c) s

  abbrev pub any_match : List Text → List Text → Bool
  any_match [] texts = false
  any_match ([] ∷ keywords) texts = any_match keywords texts
  any_match ((k ∷ keyword) ∷ keywords) texts =
      any (search_from (k ∷ keyword) false) texts || any_match keywords texts

  unfoldable pub matches : List Text → List (Option Text) → Bool
  matches keywords fields =
      not (is_empty (texts_of fields) || is_empty keywords) && any_match keywords (texts_of fields)
