-- ===== src/Batching/Tokens.antt =====
-- The title tokens of batcher.py and their Jaccard similarity.
use agentic_analyst.Prelude.{
  ℕ, ◌+◌, ◌-◌, ◌≡◌, Bool, false, ◌&&◌, ◌||◌, List, [], ◌∷◌, ◌++◌, Text, select, any, length, leb,
  text_eq, if◌then◌else◌,
}
use agentic_analyst.Domain.Values.{Uuid, Float, is_empty, is_blank}

-- What the interpreter and its library provide, as far as the batcher uses it.
pub record Platform : Type 0 where
  -- `str.lower`
  pub lower : Text → Text
  -- `a / b`, the float nearest to the quotient
  pub divide : ℕ → ℕ → Float
  -- `x >= y` on floats
  pub at_least : Float → Float → Bool
  -- `0.0`
  pub zero_float : Float
  -- `hashlib.sha256(text.encode()).hexdigest()`
  pub sha256_hex : Text → Text
  -- `str(uuid)`
  pub show_uuid : Uuid → Text
  -- `f"{threshold:.6f}"`
  pub show_threshold : Float → Text

-- A digest is 64 hexadecimal digits, so it is not blank.
abbrev pub DigestsArePrinted : Platform → Type 0
DigestsArePrinted p = (text : Text) → is_blank (p.sha256_hex text) ≡ false

-- The class [a-z0-9] of `_TOKEN_RE`.
unfoldable pub is_token_char : ℕ → Bool
is_token_char c = (leb b'a' c && leb c b'z') || (leb b'0' c && leb c b'9')

-- `_TOKEN_RE.findall(text)`: the maximal runs of the class; `run` is the one that is being read.
unfoldable pub find_runs : Text → Text → List Text
unfolding is_token_char
find_runs run [] = if is_empty run then [] else run ∷ []
find_runs run (c ∷ s) =
    let inside = is_token_char c in
    let rest = find_runs (if inside then run ++ c ∷ [] else []) s in
    if inside || is_empty run then rest else run ∷ rest

abbrev pub member : Text → List Text → Bool
member t ts = any (text_eq t) ts

-- `frozenset(tokens)`, as a list without repetitions.
unfoldable pub token_set : List Text → List Text
token_set [] = []
token_set (t ∷ ts) = let rest = token_set ts in if member t ts then rest else t ∷ rest

-- `_title_tokens`
unfoldable pub title_tokens : Platform → Text → List Text
unfolding find_runs token_set
title_tokens p title =
    if is_empty title
    then []
    else token_set (select (λ t. leb 2 (length t)) (find_runs [] (p.lower title)))

-- `_jaccard`, with the sizes of `a & b` and of `a | b`.
unfoldable pub jaccard : Platform → List Text → List Text → Float
jaccard p a b =
    let both = length (select (λ t. member t b) a) in
    if is_empty a || is_empty b then p.zero_float else p.divide both (length a + length b - both)
