-- ===== src/Ruleset/Manager.antt =====
-- ruleset.go: the manager that loads a rule file and swaps the compiled rules. Reading a file and the
-- parsers of YAML and JSON are parameters; the errors are values of any type.
pub mod Reloads
use guard_go.Base.{
  ℕ, ◌≡◌, ◌∙◌, refl, sym, ap, Bool, true, false, ◌||◌, List, [], ◌∷◌, Option, none, some,
  if◌then◌else◌, ◌>>=◌, Bool-cases, inl, inr,
}
use guard_go.Text.{Bytes, Unicode, codes, to_lower, trim_space, is_empty, same_text}
use guard_go.Ruleset.{SignatureRule, CompiledRuleset, compile_ruleset}

pub data Outcome (E A : Type 0) : Type 0 where
  ok : A → Outcome E A
  failed : E → Outcome E A

-- `os.ReadFile`, `filepath.Ext`, `yaml.Unmarshal` and `json.Unmarshal` of the rule file.
pub record Files (E : Type 0) : Type 0 where
  pub read_file : Bytes → Outcome E Bytes
  pub extension : Bytes → Bytes
  pub yaml : Bytes → Outcome E (List SignatureRule)
  pub json : Bytes → Outcome E (List SignatureRule)
  pub path_empty : E

pub record Manager : Type 0 where
  pub path : Bytes
  pub current : Option CompiledRuleset

module _ (E : Type 0) (u : Unicode) where
  unfoldable pub parse_rules : Files E → Bytes → Bytes → Outcome E (List SignatureRule)
  parse_rules f path body =
      let ext = to_lower u (f.extension path) in
      if same_text ext (codes ".yaml") || same_text ext (codes ".yml")
      then f.yaml body
      else f.json body

  -- `CompileRuleset` on the parsed rules; `none` is a panic.
  unfoldable pub compile_parsed :
      Outcome E (List SignatureRule) → Option (Outcome E CompiledRuleset)
  compile_parsed (failed err) = some (failed err)
  compile_parsed (ok rules) = elim (compile_ruleset u rules) [ none ↦ none | some c ↦ some (ok c) ]

  unfoldable pub parse_body : Files E → Bytes → Outcome E Bytes → Option (Outcome E CompiledRuleset)
  parse_body f path (failed err) = some (failed err)
  parse_body f path (ok body) = compile_parsed (parse_rules f path body)

  -- `LoadRulesetFile`, on the files as they are.
  unfoldable pub load_ruleset_file : Files E → Bytes → Option (Outcome E CompiledRuleset)
  load_ruleset_file f path = parse_body f path (f.read_file path)

  -- `Reload`: the error, if there is one, and the manager.
  unfoldable pub store_loaded : Outcome E CompiledRuleset → Manager → Option E × Manager
  store_loaded (failed err) m = (some err, m)
  store_loaded (ok c) m = (none, record m { current = some c })

  unfoldable pub reload : Files E → Manager → Option (Option E × Manager)
  reload f m = elim (load_ruleset_file f m.path) [ none ↦ none | some r ↦ some (store_loaded r m) ]

  -- What `NewRulesetManager` returns after its first `Reload`.
  unfoldable pub first_load : Option (Option E × Manager) → Option (Outcome E Manager)
  first_load none = none
  first_load (some (none, m)) = some (ok m)
  first_load (some (some err, m)) = some (failed err)

  -- `NewRulesetManager`.
  unfoldable pub new_ruleset_manager : Files E → Bytes → Option (Outcome E Manager)
  unfolding first_load
  new_ruleset_manager f path =
      if is_empty (trim_space u path)
      then some (failed f.path_empty)
      else first_load (reload f (record { path = path; current = none }))

  -- `if err != nil && onError != nil { onError(err) }`, with an `onError` that notes the error.
  unfoldable pub tell : Option E → List E → List E
  tell none errors = errors
  tell (some err) errors = err ∷ errors

  -- `ReloadOnSignal` until its context is done: one reload for each signal, with the files as they
  -- are then; the errors are those that `onError` is told.
  unfoldable pub reload_on_signal : List (Files E) → Manager → Option (List E × Manager)
  reload_on_signal [] m = some ([], m)
  reload_on_signal (f ∷ signals) m = do
    (error, m') ← reload f m
    (errors, m'') ← reload_on_signal signals m'
    some (tell error errors, m'')
