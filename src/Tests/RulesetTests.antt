-- ===== src/Tests/RulesetTests.antt =====
-- ruleset.go on two signature rules.
use guard_go.Base.{◌≡◌, refl, List, [], ◌∷◌, some, arith}
use guard_go.Base.Int.{pos}
use guard_go.Text.{Bytes, codes, ascii_only, trim_space, to_lower, lower_byte}
use guard_go.Ruleset.{
  SignatureRule, CompiledRuleset, query, headers, path, any, extract_pattern_tokens, pattern_body,
  strip, trim_suffix, split, tokens_of, drop_parens, is_paren, strconv_i, digits_loop,
  compile_ruleset,
}
use guard_go.Ruleset.Names.{strconv_i-decimal, decimal, IsDigits}
use guard_go.Ruleset.Compile.{IsCompiled, compile_ruleset-IsCompiled}

run_tokens :
    extract_pattern_tokens ascii_only (codes "(?i)(UNION|<script|() )")
    ≡ codes "union" ∷ codes "<script" ∷ []
unfolding extract_pattern_tokens pattern_body strip trim_suffix split tokens_of drop_parens is_paren
    trim_space to_lower lower_byte
run_tokens = refl

run_digits : strconv_i 1407 ≡ some (codes "1407")
unfolding strconv_i digits_loop
run_digits = refl

strconv_i-decimal_example :
    (s : Bytes) × (strconv_i 1407 ≡ some s) × (decimal 0 s ≡ 1407) × IsDigits s
strconv_i-decimal_example = strconv_i-decimal 1407 (omega arith)

abbrev pub two_rules : List SignatureRule
two_rules =
    record {
      name = codes "sqli";
      target = codes "Query";
      pattern = codes "union|select";
      weight = pos 5;
      count_threshold = pos 0;
    }
    ∷ record {
      name = codes " ";
      target = codes "";
      pattern = codes "(curl)";
      weight = pos 2;
      count_threshold = pos 0;
    }
    ∷ []

compile_ruleset-IsCompiled_example :
    (c : CompiledRuleset) × (compile_ruleset ascii_only two_rules ≡ some c)
    × IsCompiled ascii_only any two_rules c.any
    × IsCompiled ascii_only query two_rules c.query
    × IsCompiled ascii_only headers two_rules c.headers
    × IsCompiled ascii_only path two_rules c.path
compile_ruleset-IsCompiled_example =
    compile_ruleset-IsCompiled ascii_only two_rules (omega arith) (omega arith)
