-- ===== src/Ruleset/Compile.antt =====
-- ruleset.go: what `CompileRuleset` builds.
use mathlib.Core.List.{append-nil, append_assoc}
use guard_go.Base.{
  ℕ, ◌+◌, ◌^◌, ◌<◌, ◌≤◌, ◌≡◌, ◌∙◌, refl, sym, ap, List, [], ◌∷◌, ◌++◌, Option, some, none, arith,
  if◌then◌else◌, ◌>>=◌, All, All-append, length, Bool-cases, inl, inr,
}
use guard_go.Base.Int.{ℤ}
use guard_go.Text.{Bytes, IsBytes, Unicode, codes, trim_space, is_empty}
use guard_go.Dfa.{Rule, Matcher, new_matcher}
use guard_go.Dfa.Make.{stored, IsBuilt, new_matcher-IsBuilt}
use guard_go.Ruleset.{
  SignatureRule, MatchTarget, query, headers, path, any, CompiledRuleset, Buckets, target_of,
  add_item, add_tokens, rule_id, compile_loop, compile_ruleset, extract_pattern_tokens,
}
use guard_go.Ruleset.Target.{same_target, wants, target_of-wants}
use guard_go.Ruleset.Names.{strconv_i-decimal}
use guard_go.Ruleset.Tokens.{IsToken, extract_pattern_tokens-IsToken}

unfoldable pub bucket : MatchTarget → Buckets → List Rule
bucket query b = b.query
bucket headers b = b.headers
bucket path b = b.path
bucket any b = b.any

-- The matcher rules of one signature rule.
unfoldable pub items : Bytes → ℤ → List Bytes → List Rule
items id weight [] = []
items id weight (t ∷ ts) = record { id = id; weight = weight; token = t } ∷ items id weight ts

abbrev or_empty : Option Bytes → Bytes
or_empty none = []
or_empty (some id) = id

-- The name of the rule at index i.
unfoldable pub name_of : Unicode → ℕ → Bytes → Bytes
name_of u i name = or_empty (rule_id u i name)

-- The rules of the matcher for t, in order: the tokens of the signature rules with that target.
unfoldable pub selected : Unicode → MatchTarget → ℕ → List SignatureRule → List Rule
selected u t i [] = []
selected u t i (r ∷ rs) =
    (if wants u t r.target
      then items (name_of u i r.name) r.weight (extract_pattern_tokens u r.pattern)
      else [])
    ++ selected u t (i + 1) rs

add_item-bucket :
    (t t' : MatchTarget) (item : Rule) (b : Buckets)
    → bucket t (add_item t' item b) ≡ bucket t b ++ (if same_target t t' then item ∷ [] else [])
unfolding bucket add_item same_target
add_item-bucket query query item b = refl
add_item-bucket query headers item b = sym (append-nil b.query)
add_item-bucket query path item b = sym (append-nil b.query)
add_item-bucket query any item b = sym (append-nil b.query)
add_item-bucket headers query item b = sym (append-nil b.headers)
add_item-bucket headers headers item b = refl
add_item-bucket headers path item b = sym (append-nil b.headers)
add_item-bucket headers any item b = sym (append-nil b.headers)
add_item-bucket path query item b = sym (append-nil b.path)
add_item-bucket path headers item b = sym (append-nil b.path)
add_item-bucket path path item b = refl
add_item-bucket path any item b = sym (append-nil b.path)
add_item-bucket any query item b = sym (append-nil b.any)
add_item-bucket any headers item b = sym (append-nil b.any)
add_item-bucket any path item b = sym (append-nil b.any)
add_item-bucket any any item b = refl

add_tokens-bucket :
    (t t' : MatchTarget) (id : Bytes) (weight : ℤ) (tokens : List Bytes) (b : Buckets)
    → bucket t (add_tokens t' id weight tokens b)
      ≡ bucket t b ++ (if same_target t t' then items id weight tokens else [])
unfolding add_tokens items
add_tokens-bucket t t' id weight [] b = elim (Bool-cases (same_target t t')) [
  | inl same ↦ rw same (sym (append-nil (bucket t b)))
  | inr other ↦ rw other (sym (append-nil (bucket t b)))
]
add_tokens-bucket t t' id weight (token ∷ tokens) b =
    let item : Rule = record { id = id; weight = weight; token = token } in
    let step = add_tokens-bucket t t' id weight tokens (add_item t' item b) in
    let first = add_item-bucket t t' item b in
    elim (Bool-cases (same_target t t')) [
      | inl same ↦
          let first' : bucket t (add_item t' item b) ≡ bucket t b ++ item ∷ [] = rw same at first in
          rw same (rw (same, first') at step ∙ append_assoc (bucket t b) (item ∷ []) _)
      | inr other ↦
          let first' : bucket t (add_item t' item b) ≡ bucket t b ++ [] = rw other at first in
          rw other (rw (other, first') at step ∙ append_assoc (bucket t b) [] [])
    ]

rule_id-defined :
    (u : Unicode) (i : ℕ) (name : Bytes) → i < 10 ^ 20 → (id : Bytes) × (rule_id u i name ≡ some id)
unfolding rule_id
rule_id-defined u i name h = elim (Bool-cases (is_empty (trim_space u name))) [
  | inl blank ↦
      let (s, e, spelled, digits) = strconv_i-decimal i h in
      (codes "rule_" ++ s, rw (blank, e, ◌>>=◌) refl)
  | inr named ↦ (trim_space u name, rw named refl)
]

rule_id-some :
    (u : Unicode) (i : ℕ) (name : Bytes) → i < 10 ^ 20 → rule_id u i name ≡ some (name_of u i name)
unfolding name_of
rule_id-some u i name h =
    let (id, e) = rule_id-defined u i name h in e ∙ ap some (sym (ap or_empty e))

-- The loop gives every slice the tokens of the rules with its target.
compile_loop_lem :
    (u : Unicode) (i : ℕ) (rules : List SignatureRule) (b : Buckets)
    → i + length rules ≤ 10 ^ 20
    → (b' : Buckets) × (compile_loop u i rules b ≡ some b')
      × ((t : MatchTarget) → bucket t b' ≡ bucket t b ++ selected u t i rules)
unfolding compile_loop selected
compile_loop_lem u i [] b h = (b, refl, λ t. sym (append-nil (bucket t b)))
compile_loop_lem u i (r ∷ rs) b h =
    let b1 : Buckets =
      add_tokens (target_of u r.target) (name_of u i r.name) r.weight
        (extract_pattern_tokens u r.pattern) b in
    let (b', e, all) = compile_loop_lem u (i + 1) rs b1 (omega (arith, h)) in
    (
      b',
      rw (rule_id-some u i r.name (omega (arith, h)), ◌>>=◌) e,
      λ t.
          rw
            (
              add_tokens-bucket t (target_of u r.target) (name_of u i r.name) r.weight
                  (extract_pattern_tokens u r.pattern) b,
              target_of-wants u t r.target,
            )
            at (all t)
          ∙ append_assoc (bucket t b) _ _,
    )

items-IsBytes :
    (id : Bytes) (weight : ℤ) (tokens : List Bytes)
    → All IsToken tokens
    → All (λ (r : Rule). IsBytes r.token) (items id weight tokens)
unfolding items
items-IsBytes id weight [] h = tt
items-IsBytes id weight (t ∷ ts) h = (h.0.0, items-IsBytes id weight ts h.1)

selected-IsBytes :
    (u : Unicode) (t : MatchTarget) (i : ℕ) (rules : List SignatureRule)
    → All (λ (r : SignatureRule). IsBytes r.pattern) rules
    → All (λ (r : Rule). IsBytes r.token) (selected u t i rules)
unfolding selected
selected-IsBytes u t i [] h = tt
selected-IsBytes u t i (r ∷ rs) h =
    All-append (λ (q : Rule). IsBytes q.token) _ _
      (elim (Bool-cases (wants u t r.target)) [
        | inl same ↦ rw same (items-IsBytes _ _ _ (extract_pattern_tokens-IsToken u r.pattern h.0))
        | inr other ↦ rw other tt
      ])
      (selected-IsBytes u t (i + 1) rs h.1)

-- A matcher built from the rules with the target t.
unfoldable pub IsCompiled : Unicode → MatchTarget → List SignatureRule → Option Matcher → Type 0
IsCompiled u t rules o =
    (m : Matcher) × (o ≡ some m) × (m.rules ≡ stored u (selected u t 0 rules)) × IsBuilt m

-- For patterns of bytes and at most 10^20 rules, `CompileRuleset` ends without a panic. Each of the
-- four matchers is a complete automaton for the non-empty tokens, as `extractPatternTokens` gives them,
-- of exactly the rules whose target in lower case is its name, in order; every rule whose target is not
-- query, headers or path goes to `Any`.
pub compile_ruleset-IsCompiled :
    (u : Unicode) (rules : List SignatureRule)
    → All (λ (r : SignatureRule). IsBytes r.pattern) rules
    → length rules ≤ 10 ^ 20
    → (c : CompiledRuleset) × (compile_ruleset u rules ≡ some c)
      × IsCompiled u any rules c.any
      × IsCompiled u query rules c.query
      × IsCompiled u headers rules c.headers
      × IsCompiled u path rules c.path
unfolding compile_ruleset bucket IsCompiled
compile_ruleset-IsCompiled u rules ok few =
    let (b, e, all) =
      compile_loop_lem u 0 rules (record { any = []; query = []; headers = []; path = [] })
        (omega (arith, few)) in
    let make : (t : MatchTarget)
        → (m : Matcher) × (new_matcher u (selected u t 0 rules) ≡ some m)
          × (m.rules ≡ stored u (selected u t 0 rules))
          × IsBuilt m =
      λ t. new_matcher-IsBuilt u (selected u t 0 rules) (selected-IsBytes u t 0 rules ok) in
    let (a, ea, sa, ba) = make any in
    let (q, eq, sq, bq) = make query in
    let (h, eh, sh, bh) = make headers in
    let (p, ep, sp, bp) = make path in
    (
      record { any = some a; query = some q; headers = some h; path = some p },
      rw (e, all any, all query, all headers, all path, ea, eq, eh, ep, ◌>>=◌) refl,
      (a, refl, sa, ba),
      (q, refl, sq, bq),
      (h, refl, sh, bh),
      (p, refl, sp, bp),
    )
