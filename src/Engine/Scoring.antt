-- ===== src/Engine/Scoring.antt =====
-- engine_ruleset.go: the score of a request by the compiled signature rules. Go walks the map of headers
-- twice, for the whole text and for the headers' own, each time in an order of its own.
pub mod Scored
pub mod Weighed
use guard_go.Base.{ℕ, Option, none, some, List, [], ◌∷◌, ◌++◌, ◌>>=◌}
use guard_go.Base.Int.{ℤ, pos, ◌+ℤ◌, wrap64}
use guard_go.Text.{Bytes}
use guard_go.Config.{World}
use guard_go.Http.{Header, HttpRequest}
use guard_go.Rules.{Url}
use guard_go.Dfa.{Match, Matcher, find_all}
use guard_go.Ruleset.{CompiledRuleset}
use guard_go.Engine.{Site, Engine}

unfoldable pub values_text : List Bytes → Bytes
values_text [] = []
values_text (v ∷ vs) = v ++ (59 ∷ values_text vs)

-- `headersText`.
unfoldable pub headers_text : Header → Bytes
headers_text [] = []
headers_text ((key, values) ∷ h) = key ++ (58 ∷ (values_text values ++ (10 ∷ headers_text h)))

unfoldable pub url_text : Option Url → Bytes
url_text none = []
url_text (some url) = url.path ++ (63 ∷ url.raw_query)

-- `requestAnyText`; a request that is nil is `none`.
unfoldable pub request_any_text : Option HttpRequest → Bytes
request_any_text none = []
request_any_text (some r) = r.method ++ (32 ∷ (url_text r.url ++ (32 ∷ headers_text r.header)))

-- `for _, match := range ... { score += match.Weight }`.
unfoldable pub add_matches : ℤ → List Match → ℤ
add_matches score [] = score
add_matches score (μ ∷ ms) = add_matches (wrap64 (score +ℤ μ.weight)) ms

module _ (iterate : List ℕ → List ℕ) where
  -- One `if compiled... != nil` of `evaluateRuleset`; `none` is a panic.
  unfoldable pub add_found : Option Matcher → Bytes → ℤ → Option ℤ
  add_found none text score = some score
  add_found (some m) text score = do ms ← find_all iterate m text; some (add_matches score ms)

  -- The two that also ask `r.URL != nil`.
  unfoldable pub add_found_url : Option Matcher → Option Url → (Url → Bytes) → ℤ → Option ℤ
  add_found_url o none part score = some score
  add_found_url o (some url) part score = add_found o (part url) score

  -- The request has its headers in the order of the first walk, `fields` are they in the second.
  unfoldable pub score_with : Option CompiledRuleset → HttpRequest → Header → Option ℤ
  score_with none r fields = some (pos 0)
  score_with (some c) r fields = do
    a ← add_found c.any (request_any_text (some r)) (pos 0)
    b ← add_found_url c.query r.url (λ url. url.raw_query) a
    d ← add_found_url c.path r.url (λ url. url.path) b
    add_found c.headers (headers_text fields) d

module _ (w : World) (x : Site w) where
  -- `evaluateRuleset`: the rules of the manager, if there is one, become those of the engine.
  unfoldable pub refresh : Engine w x → Engine w x
  refresh e = elim e.manager [ none ↦ e | some m ↦ record e { compiled = m.current } ]

  unfoldable pub evaluate_ruleset : HttpRequest → Engine w x → Option (ℤ × Engine w x)
  evaluate_ruleset r e =
      let e1 = refresh e in
      (do
        score ←
            score_with x.iterate e1.compiled (record r { header = x.walk 0 r.header })
              (x.walk 1 r.header)
        some (score, e1))
