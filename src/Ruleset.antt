-- ===== src/Ruleset.antt =====
-- ruleset.go: compiling signature rules into matchers. Reading and parsing the rule file belongs to
-- other packages; the rules are the input here.
pub mod Names
pub mod Tokens
pub mod Target
pub mod Compile
pub mod Manager
use guard_go.Base.{
  ℕ, zero, suc, ◌+◌, ◌/◌, ◌%◌, ◌≡◌, refl, Bool, ◌||◌, List, [], ◌∷◌, ◌++◌, Option, none, some,
  if◌then◌else◌, ◌==◌, ◌>>=◌,
}
use guard_go.Base.Int.{ℤ}
use guard_go.Text.{Bytes, Unicode, codes, to_lower, trim_space, drop_last, is_empty, same_text}
use guard_go.Dfa.{Rule, Matcher, new_matcher, rule_count, node_count}

-- `target` is the source's field Match.
pub record SignatureRule : Type 0 where
  pub name : Bytes
  pub target : Bytes
  pub pattern : Bytes
  pub weight : ℤ
  pub count_threshold : ℤ

pub data MatchTarget : Type 0 where
  query headers path any : MatchTarget

-- A nil matcher is `none`.
pub record CompiledRuleset : Type 0 where
  pub any : Option Matcher
  pub query : Option Matcher
  pub headers : Option Matcher
  pub path : Option Matcher

-- `strings.TrimPrefix`.
unfoldable pub strip : Bytes → Bytes → Option Bytes
strip [] s = some s
strip (a ∷ p) [] = none
strip (a ∷ p) (b ∷ s) = let rest = strip p s in if a == b then rest else none

abbrev pub trim_prefix : Bytes → Bytes → Bytes
trim_prefix p s = elim (strip p s) [ none ↦ s | some rest ↦ rest ]

-- `strings.TrimSuffix`, of one byte.
unfoldable pub trim_suffix : ℕ → Bytes → Bytes
trim_suffix c [] = []
trim_suffix c (b ∷ []) = if b == c then [] else b ∷ []
trim_suffix c (b ∷ d ∷ s) = b ∷ trim_suffix c (d ∷ s)

-- `strings.Split`, at one byte.
unfoldable pub split : ℕ → Bytes → List Bytes
split c [] = [] ∷ []
split c (b ∷ s) = elim (split c s) [
  | [] ↦ [] ∷ []
  | w ∷ ws ↦ if b == c then [] ∷ w ∷ ws else (b ∷ w) ∷ ws
]

-- `strings.Trim(s, "()")`.
unfoldable pub is_paren : ℕ → Bool
is_paren b = b == 40 || b == 41

unfoldable pub drop_parens : Bytes → Bytes
drop_parens [] = []
drop_parens (b ∷ s) = let rest = drop_parens s in if is_paren b then rest else b ∷ s

abbrev pub trim_parens : Bytes → Bytes
trim_parens s = drop_last is_paren (drop_parens s)

-- The loop of `extractPatternTokens`.
unfoldable pub tokens_of : Unicode → List Bytes → List Bytes
tokens_of u [] = []
tokens_of u (part ∷ parts) =
    let token = trim_parens (to_lower u (trim_space u part)) in
    let rest = tokens_of u parts in if is_empty token then rest else token ∷ rest

-- The body of a pattern, without its flags and outer parentheses.
unfoldable pub pattern_body : Bytes → Bytes
pattern_body p =
    trim_suffix 41
      (trim_prefix (codes "(") (trim_prefix (codes "(?I)") (trim_prefix (codes "(?i)") p)))

unfoldable pub extract_pattern_tokens : Unicode → Bytes → List Bytes
extract_pattern_tokens u pattern =
    let p = trim_space u pattern in
    if is_empty p then [] else tokens_of u (split 124 (pattern_body p))

-- The loop of `strconvI` with some places of `buf` left, and the digits so far; an index below the
-- buffer is a panic.
unfoldable pub digits_loop : ℕ → ℕ → Bytes → Option Bytes
digits_loop zero zero buf = some buf
digits_loop zero (suc i) buf = none
digits_loop (suc places) i buf =
    let rest = digits_loop places (i / 10) ((48 + i % 10) ∷ buf) in
    if i == 0 then some buf else rest

unfoldable pub strconv_i : ℕ → Option Bytes
strconv_i i = if i == 0 then some (codes "0") else digits_loop 20 i []

unfoldable pub rule_id : Unicode → ℕ → Bytes → Option Bytes
rule_id u i name =
    let id = trim_space u name in
    if is_empty id then (do n ← strconv_i i; some (codes "rule_" ++ n)) else some id

-- The four slices of `CompileRuleset`.
pub record Buckets : Type 0 where
  pub any : List Rule
  pub query : List Rule
  pub headers : List Rule
  pub path : List Rule

unfoldable pub target_of : Unicode → Bytes → MatchTarget
target_of u t =
    let m = to_lower u t in
    if same_text m (codes "query")
    then query
    else (if same_text m (codes "headers")
        then headers
        else (if same_text m (codes "path") then path else any))

unfoldable pub add_item : MatchTarget → Rule → Buckets → Buckets
add_item query item b = record b { query = b.query ++ item ∷ [] }
add_item headers item b = record b { headers = b.headers ++ item ∷ [] }
add_item path item b = record b { path = b.path ++ item ∷ [] }
add_item any item b = record b { any = b.any ++ item ∷ [] }

unfoldable pub add_tokens : MatchTarget → Bytes → ℤ → List Bytes → Buckets → Buckets
add_tokens t id weight [] b = b
add_tokens t id weight (token ∷ tokens) b =
    add_tokens t id weight tokens
      (add_item t (record { id = id; weight = weight; token = token }) b)

unfoldable pub compile_loop : Unicode → ℕ → List SignatureRule → Buckets → Option Buckets
compile_loop u i [] b = some b
compile_loop u i (rule ∷ rules) b = do
  id ← rule_id u i rule.name
  compile_loop u (i + 1) rules (
      add_tokens (target_of u rule.target) id rule.weight (extract_pattern_tokens u rule.pattern) b)

-- `CompileRuleset`.
unfoldable pub compile_ruleset : Unicode → List SignatureRule → Option CompiledRuleset
compile_ruleset u rules = do
  b ← compile_loop u 0 rules (record { any = []; query = []; headers = []; path = [] })
  any_m ← new_matcher u b.any
  query_m ← new_matcher u b.query
  header_m ← new_matcher u b.headers
  path_m ← new_matcher u b.path
  some (record {
    any = some any_m;
    query = some query_m;
    headers = some header_m;
    path = some path_m;
  })

pub record RulesetStats : Type 0 where
  pub any_rules : ℕ
  pub query_rules : ℕ
  pub header_rules : ℕ
  pub path_rules : ℕ
  pub any_nodes : ℕ
  pub query_nodes : ℕ
  pub header_nodes : ℕ
  pub path_nodes : ℕ
  pub total_rules : ℕ
  pub total_nodes : ℕ

-- `Stats`, on a pointer that may be nil.
unfoldable pub stats : Option CompiledRuleset → RulesetStats
stats none = record {
  any_rules = 0;
  query_rules = 0;
  header_rules = 0;
  path_rules = 0;
  any_nodes = 0;
  query_nodes = 0;
  header_nodes = 0;
  path_nodes = 0;
  total_rules = 0;
  total_nodes = 0;
}
stats (some r) = record {
  any_rules = rule_count r.any;
  query_rules = rule_count r.query;
  header_rules = rule_count r.headers;
  path_rules = rule_count r.path;
  any_nodes = node_count r.any;
  query_nodes = node_count r.query;
  header_nodes = node_count r.headers;
  path_nodes = node_count r.path;
  total_rules = rule_count r.any + rule_count r.query + rule_count r.headers + rule_count r.path;
  total_nodes = node_count r.any + node_count r.query + node_count r.headers + node_count r.path;
}
