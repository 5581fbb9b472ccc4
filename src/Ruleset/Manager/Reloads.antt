-- ===== src/Ruleset/Manager/Reloads.antt =====
-- ruleset.go: the rules that a manager holds after its reloads.
use guard_go.Base.{
  ◌^◌, ◌≤◌, ◌≡◌, ◌∙◌, refl, ap, true, false, List, [], ◌∷◌, Option, none, some, All, length,
  if◌then◌else◌, Bool, arith,
}
use guard_go.Text.{Bytes, IsBytes, Unicode, is_empty, trim_space}
use guard_go.Ruleset.{SignatureRule, CompiledRuleset, compile_ruleset}
use guard_go.Ruleset.Compile.{compile_ruleset-IsCompiled}
use guard_go.Ruleset.Manager.{
  Outcome, ok, failed, Files, Manager, parse_rules, compile_parsed, parse_body, load_ruleset_file,
  store_loaded, reload, first_load, new_ruleset_manager, tell,
}

module _ (E : Type 0) (u : Unicode) where
  -- The rules of a file, if it can be read and parsed.
  unfoldable pub rules_of : Files E → Bytes → Outcome E Bytes → Outcome E (List SignatureRule)
  rules_of f path (failed err) = failed err
  rules_of f path (ok body) = parse_rules E u f path body

  unfoldable pub rules_in : Files E → Bytes → Outcome E (List SignatureRule)
  rules_in f path = rules_of f path (f.read_file path)

  -- A parser that succeeds gives patterns of bytes, and at most 10^20 rules.
  abbrev pub IsPlain : Outcome E (List SignatureRule) → Type 0
  IsPlain (failed err) = Unit
  IsPlain (ok rules) = All (λ (r : SignatureRule). IsBytes r.pattern) rules × length rules ≤ 10 ^ 20

  -- The rules of a file take effect if there are any; an error leaves the rules as they are.
  unfoldable pub taken :
      Outcome E (List SignatureRule) → Option CompiledRuleset → Option CompiledRuleset
  taken (failed err) current = current
  taken (ok rules) current = compile_ruleset u rules

  unfoldable pub error_of : Outcome E (List SignatureRule) → Option E
  error_of (failed err) = some err
  error_of (ok rules) = none

  -- The rules after some reloads, and their errors.
  unfoldable pub latest : Bytes → Option CompiledRuleset → List (Files E) → Option CompiledRuleset
  latest path current [] = current
  latest path current (f ∷ fs) = latest path (taken (rules_in f path) current) fs

  unfoldable pub failures : Bytes → List (Files E) → List E
  failures path [] = []
  failures path (f ∷ fs) = tell E u (error_of (rules_in f path)) (failures path fs)

  parse_body-compile_parsed :
      (f : Files E) (path : Bytes) (o : Outcome E Bytes)
      → parse_body E u f path o ≡ compile_parsed E u (rules_of f path o)
  unfolding parse_body compile_parsed rules_of
  parse_body-compile_parsed f path (failed err) = refl
  parse_body-compile_parsed f path (ok body) = refl

  -- One reload, from what the file held.
  abbrev stored : Option (Outcome E CompiledRuleset) → Manager → Option (Option E × Manager)
  stored o m = elim o [ none ↦ none | some r ↦ some (store_loaded E u r m) ]

  stored-compiled :
      (o : Option CompiledRuleset) (c : CompiledRuleset) (m : Manager)
      → o ≡ some c
      → stored
          (elim o as (λ k. Option (Outcome E CompiledRuleset)) [
            | none ↦ none
            | some d ↦ some (ok d)
          ])
          m
        ≡ some (none, record { path = m.path; current = o })
  unfolding store_loaded
  stored-compiled none c m e = absurd (ground arith)
  stored-compiled (some d) c m e = refl

  stored_lem :
      (o : Outcome E (List SignatureRule)) (m : Manager)
      → IsPlain o
      → stored (compile_parsed E u o) m
        ≡ some (error_of o, record { path = m.path; current = taken o m.current })
  unfolding compile_parsed store_loaded error_of taken
  stored_lem (failed err) m plain = refl
  stored_lem (ok rules) m plain =
      let (c, made, _, _, _, _) = compile_ruleset-IsCompiled u rules plain.0 plain.1 in
      stored-compiled (compile_ruleset u rules) c m made

  pub reload_lem :
      (f : Files E) (m : Manager)
      → IsPlain (rules_in f m.path)
      → reload E u f m
        ≡ some (
          error_of (rules_in f m.path),
          record { path = m.path; current = taken (rules_in f m.path) m.current },
        )
  unfolding reload load_ruleset_file rules_in
  reload_lem f m plain =
      ap (λ (o : Option (Outcome E CompiledRuleset)). stored o m)
        (parse_body-compile_parsed f m.path (f.read_file m.path))
      ∙ stored_lem (rules_in f m.path) m plain

  -- What a new manager starts with.
  unfoldable pub started : Bytes → Outcome E (List SignatureRule) → Outcome E Manager
  started path (failed err) = failed err
  started path (ok rules) = ok (record { path = path; current = compile_ruleset u rules })

  first_load_lem :
      (o : Outcome E (List SignatureRule)) (path : Bytes)
      → first_load E u (some (error_of o, record { path = path; current = taken o none }))
        ≡ some (started path o)
  unfolding first_load error_of taken started
  first_load_lem (failed err) path = refl
  first_load_lem (ok rules) path = refl

  -- A new manager ends without a panic: it refuses a blank path, passes on the error of a file that
  -- cannot be read or parsed, and else holds the file's compiled rules. (What the parsers give is of
  -- bytes and at most 10^20 rules.)
  pub new_ruleset_manager_lem :
      (f : Files E) (path : Bytes)
      → IsPlain (rules_in f path)
      → new_ruleset_manager E u f path
        ≡ some (
            if is_empty (trim_space u path)
            then failed f.path_empty
            else started path (rules_in f path))
  unfolding new_ruleset_manager
  new_ruleset_manager_lem f path plain =
      ap
        (λ (o : Option (Option E × Manager)).
          if is_empty (trim_space u path) then some (failed f.path_empty) else first_load E u o)
        (reload_lem f (record { path = path; current = none }) plain)
      ∙ ap
          (λ (o : Option (Outcome E Manager)).
            if is_empty (trim_space u path) then some (failed f.path_empty) else o)
          (first_load_lem (rules_in f path) path)
      ∙ either (is_empty (trim_space u path)) (failed f.path_empty) (started path (rules_in f path))
    where
      either :
          (b : Bool) (o o' : Outcome E Manager)
          → (if b then some o else some o') ≡ some (if b then o else o')
      either true o o' = refl
      either false o o' = refl
