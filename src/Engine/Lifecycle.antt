-- ===== src/Engine/Lifecycle.antt =====
-- engine.go: how `NewEngine` puts an engine together. The files are those of the rule files' manager;
-- the managers and rulesets of the settings are read by `manager_of` and `ruleset_of`. The hot reload by
-- signal is the manager's `reload_on_signal`.
pub mod Fresh
use guard_go.Base.{
  Bool, true, false, ◌||◌, ◌&&◌, not, Option, none, some, List, [], ◌∷◌, if◌then◌else◌, ◌>>=◌, ℕ,
}
use guard_go.Base.Int.{ℤ}
use guard_go.Text.{Bytes, is_empty}
use guard_go.Config.{World, MiddlewareConfig}
use guard_go.Config.Defaults.{with_defaults, or_value, is_nil}
use guard_go.Bloom.{Filter, new_filter}
use guard_go.Cache.{new_cache}
use guard_go.SelfHealing.{new_healing}
use guard_go.Behavior
use guard_go.Ruleset.{CompiledRuleset}
use guard_go.Ruleset.Manager.{Outcome, ok, failed, Files, Manager, new_ruleset_manager}
use guard_go.Engine.{Site, Engine, Network, Snapshot}

pub data StartError (E : Type 0) : Type 0 where
  cache_refused : StartError E
  rules_refused : E → StartError E

-- `len(xs) > 0`.
abbrev pub has_items {ℓ} : {A : Type ℓ} → List A → Bool
has_items [] = false
has_items (a ∷ xs) = true

-- `ruleset` and `compiled` of the engine.
abbrev pub Rules : Type 0
Rules = Option Manager × Option CompiledRuleset

module _ (w : World) (x : Site w) (E : Type 0) (files : Files E) (manager_of : w.Manager → Manager)
    (ruleset_of : w.Ruleset → CompiledRuleset) (client : w.Client) where
  -- `shouldRunBackground`.
  unfoldable pub should_run_background : MiddlewareConfig w → Bool
  should_run_background cfg =
      (cfg.adaptive_ban.enabled && has_items cfg.rules)
      || cfg.behavioral.enabled
      || cfg.reputation.enabled
      || has_items cfg.evaluators
      || not (is_empty cfg.ruleset_file)
      || not (is_nil cfg.dynamic_rules)

  unfoldable pub file_rules : Option (Outcome E Manager) → Option (Outcome (StartError E) Rules)
  file_rules none = none
  file_rules (some (failed err)) = some (failed (rules_refused err))
  file_rules (some (ok m)) = some (ok (some m, m.current))

  unfoldable pub dynamic_manager : Option w.Manager → Option Manager
  dynamic_manager none = none
  dynamic_manager (some m) = some (manager_of m)

  unfoldable pub compiled_rules : Option w.Ruleset → Option Manager → Option CompiledRuleset
  compiled_rules (some c) manager = some (ruleset_of c)
  compiled_rules none none = none
  compiled_rules none (some m) = m.current

  unfoldable pub start_rules : MiddlewareConfig w → Option (Outcome (StartError E) Rules)
  start_rules cfg =
      let manager = dynamic_manager cfg.dynamic_rules in
      if not (is_empty cfg.ruleset_file) && is_nil manager
      then file_rules (new_ruleset_manager E x.unicode files cfg.ruleset_file)
      else some (ok (manager, compiled_rules cfg.compiled_rules manager))

  -- The bloom filter, if it is enabled; `none` is the panic of `New`.
  unfoldable pub start_filter : Bool → ℕ → ℕ → Option (Option Filter)
  start_filter false bits hashes = some none
  start_filter true bits hashes = do f ← new_filter x.room bits hashes; some (some f)

  -- The channel, if the background runs; `none` is the panic of `make`.
  unfoldable pub start_queue : Bool → ℤ → Option (Option (List Snapshot))
  start_queue false size = some none
  start_queue true size = if x.channel_fits size then some (some []) else none

  unfoldable pub assemble :
      MiddlewareConfig w
      → x.lru.State
      → x.lru.State
      → Network x.redis.Store
      → ℤ
      → Option Filter
      → Rules
      → Option (List Snapshot)
      → Engine w x
  assemble cfg cache pbox network now bf (manager, compiled) queue = record {
    cfg = cfg;
    cache = cache;
    pbox = pbox;
    bf = bf;
    sh =
        if cfg.self_healing.enabled
        then some (new_healing w x.arithmetic cfg.self_healing now)
        else none;
    behavior = if cfg.behavioral.enabled then some Behavior.empty_store else none;
    manager = manager;
    compiled = compiled;
    queue = queue;
    network = network;
    events = [];
  }

  unfoldable pub assemble_rules :
      MiddlewareConfig w
      → x.lru.State
      → x.lru.State
      → Network x.redis.Store
      → ℤ
      → Option Filter
      → Option (Outcome (StartError E) Rules)
      → Option (Outcome (StartError E) (Engine w x))
  assemble_rules cfg cache pbox network now bf none = none
  assemble_rules cfg cache pbox network now bf (some (failed err)) = some (failed err)
  assemble_rules cfg cache pbox network now bf (some (ok rules)) = do
    queue ← start_queue (should_run_background cfg) cfg.adaptive_ban.queue_size
    some (ok (assemble cfg cache pbox network now bf rules queue))

  -- From the two caches on; each may be refused.
  unfoldable pub with_caches :
      MiddlewareConfig w
      → Option x.lru.State
      → Option x.lru.State
      → Network x.redis.Store
      → ℤ
      → Option (Outcome (StartError E) Rules)
      → Option (Outcome (StartError E) (Engine w x))
  with_caches cfg none pbox network now rules = some (failed cache_refused)
  with_caches cfg (some cache) none network now rules = some (failed cache_refused)
  with_caches cfg (some cache) (some pbox) network now rules = do
    bf ← start_filter cfg.bloom.enabled cfg.bloom.bits cfg.bloom.hashes
    assemble_rules cfg cache pbox network now bf rules

  -- The settings in force.
  unfoldable pub in_force : MiddlewareConfig w → MiddlewareConfig w
  in_force cfg = let c = with_defaults w cfg in record c { redis = or_value client c.redis }

  -- `NewEngine`; `none` is a panic.
  unfoldable pub new_engine :
      MiddlewareConfig w → Network x.redis.Store → ℤ → Option (Outcome (StartError E) (Engine w x))
  new_engine settings network now =
      let cfg = in_force settings in
      with_caches cfg (new_cache x.lru cfg.cache_size) (new_cache x.lru cfg.cache_size) network now
        (start_rules cfg)
