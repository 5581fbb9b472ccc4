-- ===== src/Config.antt =====
-- config.go: the settings of the middleware. A duration is a number of nanoseconds. Floating point
-- numbers, HTTP requests and the handles of other packages are the types of a parameter, `World`.
pub mod Defaults
pub mod Positive
pub mod Fixed
pub mod Settled
pub mod Kept
use guard_go.Base.{ℕ, ◌^◌, ◌<◌, ◌≡◌, Bool, List, Option, leb}
use guard_go.Base.Int.{ℤ}
use guard_go.Text.{Bytes}

-- What the settings hold of other packages. `literal n` is the float64 of the decimal literal n / 100,
-- and `at_most` is Go's `<=`, which compares such literals as numbers.
pub record World : Type 1 where
  pub Float : Type 0
  pub literal : ℕ → Float
  pub at_most : Float → Float → Bool
  pub at_most_literal :
      (a b : ℕ) → a < 2 ^ 32 → b < 2 ^ 32 → at_most (literal a) (literal b) ≡ leb a b
  pub Request : Type 0
  pub remote_host : Request → Bytes
  pub Client : Type 0
  pub Tracer : Type 0
  pub Metrics : Type 0
  pub nop_metrics : Metrics
  pub Stats : Type 0
  pub nop_stats : Stats
  pub Rule : Type 0
  pub Evaluator : Type 0
  pub OnError : Type 0
  pub Manager : Type 0
  pub Ruleset : Type 0

pub record AdaptiveBanConfig : Type 0 where
  pub enabled : Bool
  pub threat_key_window : ℤ
  pub threat_count_threshold : ℤ
  pub ban_ttl : ℤ
  pub queue_size : ℤ
  pub workers : ℤ
  pub capture_headers : List Bytes

pub record BloomConfig : Type 0 where
  pub enabled : Bool
  pub bits : ℕ
  pub hashes : ℕ

pub record BehavioralConfig : Type 0 where
  pub enabled : Bool
  pub risk_window : ℤ
  pub score_threshold : ℤ
  pub penalty_ttl : ℤ
  pub penalty_ban_ttl : ℤ
  pub require_user_agent : Bool
  pub require_referer : Bool
  pub query_diversity_threshold : ℤ
  pub header_diversity_threshold : ℤ
  pub diversity_weight : ℤ

pub record TracingConfig (w : World) : Type 0 where
  pub enabled : Bool
  pub tracer : Option w.Tracer

pub record SelfHealingConfig (w : World) : Type 0 where
  pub enabled : Bool
  pub window : ℤ
  pub min_samples : ℤ
  pub clean_traffic_threshold : w.Float
  pub spike_factor : w.Float
  pub max_sensitivity : w.Float
  pub decay_step : w.Float

pub record ReputationConfig (w : World) : Type 0 where
  pub enabled : Bool
  pub warning_level : w.Float
  pub threshold : w.Float
  pub score_window : ℤ
  pub penalty_ttl : ℤ
  pub backoff_window : ℤ
  pub ban_level1 : ℤ
  pub ban_level2 : ℤ
  pub ban_level3 : ℤ

pub record MiddlewareConfig (w : World) : Type 0 where
  pub redis : Option w.Client
  pub max_requests : ℤ
  pub window : ℤ
  pub rules : List w.Rule
  pub evaluators : List w.Evaluator
  pub fail_open : Bool
  pub prefix : Bytes
  pub cache_size : ℤ
  pub default_ban_ttl : ℤ
  pub adaptive_ban : AdaptiveBanConfig
  pub key_func : Option (w.Request → Bytes)
  pub ip_func : Option (w.Request → Bytes)
  pub metrics : Option w.Metrics
  pub stats : Option w.Stats
  pub on_error : Option w.OnError
  pub deny_status_code : ℤ
  pub bloom : BloomConfig
  pub tracing : TracingConfig w
  pub self_healing : SelfHealingConfig w
  pub ruleset_file : Bytes
  pub dynamic_rules : Option w.Manager
  pub compiled_rules : Option w.Ruleset
  pub auto_reload_on_sighup : Bool
  pub behavioral : BehavioralConfig
  pub reputation : ReputationConfig w
