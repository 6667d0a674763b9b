-- ===== src/Http/Bodies.antt =====
-- The bounded body of a response.
use agentic_analyst.Prelude.{
  ℕ, ◌+◌, ◌≤◌, ◌≡◌, refl, ap, List, [], ◌∷◌, ◌++◌, Text, codes, length, length-append, concat, ltb,
  leb, Bool-cases, inl, inr, arith, if◌then◌else◌,
}
use agentic_analyst.Domain.Errors.{ok, err, response_too_large}
use agentic_analyst.Http.Urls.{UrlLibrary}
use agentic_analyst.Http.Fetch.{HttpClient, finished, read_bounded_body}

append_assoc : (a b c : Text) → (a ++ b) ++ c ≡ a ++ (b ++ c)
append_assoc [] b c = refl
append_assoc (x ∷ a) b c = ap (λ r. x ∷ r) (append_assoc a b c)

append_nil : (a : Text) → a ++ [] ≡ a
append_nil [] = refl
append_nil (x ∷ a) = ap (λ r. x ∷ r) (append_nil a)

module _ (u : UrlLibrary) (client : HttpClient) (size_limit_bytes : ℕ) where
  abbrev pub too_large : Text
  too_large =
      codes "response body exceeds size limit of " ++ (u.show size_limit_bytes ++ codes " bytes")

  read_lem :
      (body : Text) (chunks : List Text)
      → length body ≤ size_limit_bytes
      → read_bounded_body u client size_limit_bytes body (length body) chunks finished ≡ (
          if leb (length body + length (concat chunks)) size_limit_bytes
          then ok (body ++ concat chunks)
          else err (response_too_large too_large))
  unfolding read_bounded_body
  read_lem body [] h = ground (arith, append_nil body)
  read_lem body (chunk ∷ chunks) h =
      let total : length (body ++ chunk) ≡ length body + length chunk = length-append body chunk in
      let all_chunks : length (chunk ++ concat chunks) ≡ length chunk + length (concat chunks) =
        length-append chunk (concat chunks) in
      elim (Bool-cases (ltb size_limit_bytes (length body + length chunk))) [
        | inl over ↦ ground arith
        | inr under ↦
            let later = read_lem (body ++ chunk) chunks (ground arith) in
            let assoc = append_assoc body chunk (concat chunks) in ground arith
      ]

  -- A body that streams to its end is read whole if it is within the limit, however it is cut into
  -- chunks, and refused as too large if it is not.
  pub read_bounded_body_lem :
      (chunks : List Text)
      → read_bounded_body u client size_limit_bytes [] 0 chunks finished ≡ (
          if leb (length (concat chunks)) size_limit_bytes
          then ok (concat chunks)
          else err (response_too_large too_large))
  read_bounded_body_lem chunks = let h = read_lem [] chunks (omega arith) in ground arith
