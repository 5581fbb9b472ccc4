-- ===== src/Rules/Scores.antt =====
-- rules/basic.go: when a rule scores, and how much.
use guard_go.Base.{
  zero, suc, ◌≡◌, ◌↔◌, ◌⊎◌, refl, Bool, true, false, List, [], ◌∷◌, some, arith, if◌then◌else◌, inl,
  inr,
}
use guard_go.Base.Int.{ℤ, pos, negsuc}
use guard_go.Text.{Bytes, Unicode, to_lower, is_empty}
use guard_go.Rules.{
  Url, Request, PathContains, QueryContains, HeaderContains, weight_or_default, any_token,
  any_value, no_tokens, path_evaluate, query_evaluate, header_evaluate,
}
use guard_go.Rules.Contains.{SomeToken, SomeValue, any_token_iff, any_value_iff}

-- The weight that a rule counts with: its own if it is positive, else 1.
unfoldable pub due : ℤ → ℤ
due (pos zero) = pos 1
due (pos (suc n)) = pos (suc n)
due (negsuc n) = pos 1

-- The due weight of a rule is its score for a request with P, and 0 is its score for any other.
abbrev pub Scores : ℤ → ℤ → Type 0 → Type 0
Scores score weight P = ((score ≡ due weight) × P) ⊎ ((score ≡ pos 0) × ¬ P)

weight_or_default-due : (w : ℤ) → weight_or_default w ≡ due w
unfolding weight_or_default due
weight_or_default-due (pos zero) = refl
weight_or_default-due (pos (suc n)) = ground arith
weight_or_default-due (negsuc n) = ground arith

-- The value that the last test of a rule returns.
tested-Scores :
    (hit : Bool) (weight : ℤ) (P : Type 0)
    → (hit ≡ true) ↔ P
    → Scores (if hit then weight_or_default weight else pos 0) weight P
tested-Scores true weight P iff = inl (weight_or_default-due weight, iff.0 refl)
tested-Scores false weight P iff = inr (refl, λ p. ground (arith, iff.1 p))

text_Scores :
    (u : Unicode) (text : Bytes) (tokens : List Bytes) (weight : ℤ)
    → Scores
        (if no_tokens tokens
          then pos 0
          else (if any_token u (to_lower u text) tokens then weight_or_default weight else pos 0))
        weight
        (SomeToken u (to_lower u text) tokens)
text_Scores u text [] weight = inr (refl, λ (t, e, _, _). absurd e)
text_Scores u text (t ∷ ts) weight =
    tested-Scores (any_token u (to_lower u text) (t ∷ ts)) weight
      (SomeToken u (to_lower u text) (t ∷ ts)) (any_token_iff u (to_lower u text) (t ∷ ts))

-- A PathContains rule scores its weight (1 if it is not positive) exactly for a request whose path,
-- in lower case, holds one of the non-empty tokens, in lower case; any other request with a URL scores 0.
pub path_evaluate-Scores :
    (u : Unicode) (rule : PathContains) (url : Url) (values : Bytes → List Bytes)
    → Scores
        (path_evaluate u rule (some (record { url = some url; values = values })))
        rule.weight
        (SomeToken u (to_lower u url.path) rule.tokens)
unfolding path_evaluate
path_evaluate-Scores u rule url values = text_Scores u url.path rule.tokens rule.weight

-- A QueryContains rule does the same for the raw query.
pub query_evaluate-Scores :
    (u : Unicode) (rule : QueryContains) (url : Url) (values : Bytes → List Bytes)
    → Scores
        (query_evaluate u rule (some (record { url = some url; values = values })))
        rule.weight
        (SomeToken u (to_lower u url.raw_query) rule.tokens)
unfolding query_evaluate
query_evaluate-Scores u rule url values = text_Scores u url.raw_query rule.tokens rule.weight

-- A HeaderContains rule with a header name scores its weight (1 if it is not positive) exactly for a
-- request in which a value of that header, in lower case, holds one of the non-empty tokens, in
-- lower case; any other request scores 0.
pub header_evaluate-Scores :
    (u : Unicode) (rule : HeaderContains) (req : Request)
    → is_empty rule.name ≡ false
    → Scores
        (header_evaluate u rule (some req))
        rule.weight
        (SomeValue u (req.values rule.name) rule.tokens)
unfolding header_evaluate
header_evaluate-Scores u rule req named = rw named (by_tokens rule.tokens)
  where
    by_tokens :
        (tokens : List Bytes)
        → Scores
            (if no_tokens tokens
              then pos 0
              else (if any_value u (req.values rule.name) tokens
                  then weight_or_default rule.weight
                  else pos 0))
            rule.weight
            (SomeValue u (req.values rule.name) tokens)
    by_tokens [] = inr (refl, λ (v, _, (t, e, _, _)). absurd e)
    by_tokens (t ∷ ts) =
        tested-Scores (any_value u (req.values rule.name) (t ∷ ts)) rule.weight
          (SomeValue u (req.values rule.name) (t ∷ ts))
          (any_value_iff u (req.values rule.name) (t ∷ ts))
