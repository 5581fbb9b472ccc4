-- ===== src/Tests/RulesTests.antt =====
-- rules/basic.go on one request.
use guard_go.Base.{◌≡◌, refl, List, [], ◌∷◌, some}
use guard_go.Base.Int.{pos}
use guard_go.Text.{Bytes, codes, ascii_only, to_lower, lower_byte}
use guard_go.Rules.{
  Url, PathContains, HeaderContains, path_evaluate, header_evaluate, any_token, contains, starts,
  weight_or_default,
}
use guard_go.Rules.Contains.{SomeToken, SomeValue}
use guard_go.Rules.Scores.{Scores, path_evaluate-Scores, header_evaluate-Scores}

abbrev admin : Url
admin = record { path = codes "/wp-Admin/x"; raw_query = codes "a=1" }

abbrev probe_rule : PathContains
probe_rule = record { tokens = [] ∷ codes "WP-admin" ∷ []; weight = pos 0 }

abbrev agents : Bytes → List Bytes
agents name = codes "Curl/8" ∷ []

abbrev agent_rule : HeaderContains
agent_rule = record { name = codes "User-Agent"; tokens = codes "curl" ∷ []; weight = pos 7 }

run_probe :
    path_evaluate ascii_only probe_rule (some (record { url = some admin; values = agents }))
    ≡ pos 1
unfolding path_evaluate any_token contains starts weight_or_default to_lower lower_byte
run_probe = refl

path_evaluate-Scores_example :
    Scores
      (path_evaluate ascii_only probe_rule (some (record { url = some admin; values = agents })))
      (pos 0)
      (SomeToken ascii_only
        (to_lower ascii_only (codes "/wp-Admin/x"))
        ([] ∷ codes "WP-admin" ∷ []))
path_evaluate-Scores_example = path_evaluate-Scores ascii_only probe_rule admin agents

header_evaluate-Scores_example :
    Scores
      (header_evaluate ascii_only agent_rule (some (record { url = some admin; values = agents })))
      (pos 7)
      (SomeValue ascii_only (codes "Curl/8" ∷ []) (codes "curl" ∷ []))
header_evaluate-Scores_example =
    header_evaluate-Scores ascii_only agent_rule (record { url = some admin; values = agents }) refl
