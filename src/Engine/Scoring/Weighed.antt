-- ===== src/Engine/Scoring/Weighed.antt =====
-- engine_ruleset.go: the score by the rules that `CompileRuleset` was given.
use guard_go.Base.{ℕ, ◌^◌, ◌≤◌, ◌≡◌, sym, subst, Option, none, some, List, All, length}
use guard_go.Base.Int.{ℤ, pos}
use guard_go.Text.{Bytes, IsBytes, Unicode}
use guard_go.Http.{Header, HttpRequest}
use guard_go.Rules.{Url}
use guard_go.Dfa.{Rule, Matcher}
use guard_go.Dfa.Make.{stored}
use guard_go.Dfa.Correct.{IsOrder}
use guard_go.Ruleset.{
  SignatureRule, CompiledRuleset, MatchTarget, any, query, headers, path, compile_ruleset,
}
use guard_go.Ruleset.Compile.{IsCompiled, selected, compile_ruleset-IsCompiled}
use guard_go.Engine.{Engine}
use guard_go.Engine.Scoring.{headers_text, request_any_text}
use guard_go.Engine.Scoring.Scored.{Adds, IsReadable, IsReady}

-- What the rules of the compiler add to a score, without the matchers.
abbrev pub AddsUrl : List Rule → Option Url → (Url → Bytes) → ℤ → ℤ → Type 0
AddsUrl rules none part start end = end ≡ start
AddsUrl rules (some url) part start end = Adds rules (part url) start end

abbrev pub kept : Unicode → MatchTarget → List SignatureRule → List Rule
kept u t rules = stored u (selected u t 0 rules)

pub record IsWeighed (u : Unicode) (rules : List SignatureRule) (r : HttpRequest) (fields : Header)
    (score : ℤ) : Type 0 where
  pub a : ℤ
  pub b : ℤ
  pub d : ℤ
  pub in_any : Adds (kept u any rules) (request_any_text (some r)) (pos 0) a
  pub in_query : AddsUrl (kept u query rules) r.url (λ url. url.raw_query) a b
  pub in_path : AddsUrl (kept u path rules) r.url (λ url. url.path) b d
  pub in_headers : Adds (kept u headers rules) (headers_text fields) d score

IsCompiled-IsReadable :
    (u : Unicode) (t : MatchTarget) (rules : List SignatureRule) (o : Option Matcher)
    → IsCompiled u t rules o
    → IsReadable o
unfolding IsCompiled
IsCompiled-IsReadable u t rules o (m, is, same, built) = subst IsReadable (sym is) built

pub compile_ruleset-IsReady :
    (iterate : List ℕ → List ℕ) (order : IsOrder iterate) (u : Unicode) (rules : List SignatureRule)
    → All (λ (r : SignatureRule). IsBytes r.pattern) rules
    → length rules ≤ 10 ^ 20
    → (c : CompiledRuleset) × (compile_ruleset u rules ≡ some c) × IsReady iterate order c
compile_ruleset-IsReady iterate order u rules ok few =
    let (c, made, a, q, h, p) = compile_ruleset-IsCompiled u rules ok few in
    (
      c,
      made,
      record {
        any = IsCompiled-IsReadable u any rules c.any a;
        query = IsCompiled-IsReadable u query rules c.query q;
        path = IsCompiled-IsReadable u path rules c.path p;
        headers = IsCompiled-IsReadable u headers rules c.headers h;
      },
    )
