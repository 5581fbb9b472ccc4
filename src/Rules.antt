-- ===== src/Rules.antt =====
-- rules/basic.go: the rules that look for tokens in a request. A header's values, which net/http looks
-- up by name, are a function of the name.
pub mod Contains
pub mod Scores
use guard_go.Base.{
  ℕ, ◌≡◌, Bool, true, false, ◌&&◌, ◌||◌, not, List, [], ◌∷◌, Option, none, some, if◌then◌else◌,
  ◌==◌,
}
use guard_go.Base.Int.{ℤ, pos, leb_ℤ}
use guard_go.Text.{Bytes, Unicode, to_lower, is_empty}

pub record Url : Type 0 where
  pub path : Bytes
  pub raw_query : Bytes

pub record Request : Type 0 where
  pub url : Option Url
  pub values : Bytes → List Bytes

pub record PathContains : Type 0 where
  pub tokens : List Bytes
  pub weight : ℤ

pub record QueryContains : Type 0 where
  pub tokens : List Bytes
  pub weight : ℤ

pub record HeaderContains : Type 0 where
  pub name : Bytes
  pub tokens : List Bytes
  pub weight : ℤ

-- `strings.Contains`.
unfoldable pub starts : Bytes → Bytes → Bool
starts [] s = true
starts (a ∷ p) [] = false
starts (a ∷ p) (b ∷ s) = a == b && starts p s

unfoldable pub contains : Bytes → Bytes → Bool
contains [] p = starts p []
contains (c ∷ s) p = starts p (c ∷ s) || contains s p

unfoldable pub weight_or_default : ℤ → ℤ
weight_or_default w = if leb_ℤ w (pos 0) then pos 1 else w

-- The loop over the tokens, on a text in lower case.
unfoldable pub any_token : Unicode → Bytes → List Bytes → Bool
any_token u text [] = false
any_token u text (t ∷ ts) =
    let rest = any_token u text ts in
    if not (is_empty t) && contains text (to_lower u t) then true else rest

-- The loop over the header's values.
unfoldable pub any_value : Unicode → List Bytes → List Bytes → Bool
any_value u [] tokens = false
any_value u (v ∷ vs) tokens =
    let rest = any_value u vs tokens in if any_token u (to_lower u v) tokens then true else rest

abbrev pub no_tokens : List Bytes → Bool
no_tokens [] = true
no_tokens (t ∷ ts) = false

-- A request or a URL that is nil is `none`.
unfoldable pub path_evaluate : Unicode → PathContains → Option Request → ℤ
path_evaluate u rule none = pos 0
path_evaluate u rule (some req) = elim req.url [
  | none ↦ pos 0
  | some url ↦
      if no_tokens rule.tokens
      then pos 0
      else (if any_token u (to_lower u url.path) rule.tokens
          then weight_or_default rule.weight
          else pos 0)
]

unfoldable pub query_evaluate : Unicode → QueryContains → Option Request → ℤ
query_evaluate u rule none = pos 0
query_evaluate u rule (some req) = elim req.url [
  | none ↦ pos 0
  | some url ↦
      if no_tokens rule.tokens
      then pos 0
      else (if any_token u (to_lower u url.raw_query) rule.tokens
          then weight_or_default rule.weight
          else pos 0)
]

unfoldable pub header_evaluate : Unicode → HeaderContains → Option Request → ℤ
header_evaluate u rule none = pos 0
header_evaluate u rule (some req) =
    if is_empty rule.name || no_tokens rule.tokens
    then pos 0
    else (if any_value u (req.values rule.name) rule.tokens
        then weight_or_default rule.weight
        else pos 0)
