-- ===== src/Config/Defaults.antt =====
-- config.go: `withDefaults`, one function for each group of settings, put together in `with_defaults`.
use guard_go.Base.{
  ℕ, ◌*◌, Bool, true, false, ◌&&◌, ◌||◌, not, List, [], ◌∷◌, Option, none, some, if◌then◌else◌,
  ◌==◌,
}
use guard_go.Base.Int.{ℤ, pos, leb_ℤ}
use guard_go.Text.{Bytes, codes, is_empty}
use guard_go.Config.{
  World, AdaptiveBanConfig, BloomConfig, BehavioralConfig, SelfHealingConfig, ReputationConfig,
  MiddlewareConfig,
}

-- Durations, in nanoseconds.
abbrev pub second : ℕ
second = 1000000000

abbrev pub minute : ℕ
minute = 60000000000

abbrev pub hour : ℕ
hour = 3600000000000

-- `if x <= 0 { x = d }`.
unfoldable pub or_default : ℤ → ℤ → ℤ
or_default d x = if leb_ℤ x (pos 0) then d else x

-- `if x == 0 { x = d }`, on an unsigned x.
unfoldable pub or_nonzero : ℕ → ℕ → ℕ
or_nonzero d x = if x == 0 then d else x

-- `if x == nil { x = d }`.
abbrev pub or_value {ℓ} : {A : Type ℓ} → A → Option A → Option A
or_value d none = some d
or_value d (some x) = some x

-- `if len(xs) == 0 { xs = d }`, on a list of strings and on a string.
abbrev pub or_items {ℓ} : {A : Type ℓ} → List A → List A → List A
or_items d [] = d
or_items d (x ∷ xs) = x ∷ xs

abbrev pub is_nil {ℓ} : {A : Type ℓ} → Option A → Bool
is_nil none = true
is_nil (some x) = false

-- `default_ban_ttl` is the one in force.
unfoldable pub adaptive_defaults : ℤ → AdaptiveBanConfig → AdaptiveBanConfig
adaptive_defaults default_ban_ttl a = record a {
  threat_key_window = or_default (pos (10 * minute)) a.threat_key_window;
  threat_count_threshold = or_default (pos 100) a.threat_count_threshold;
  queue_size = or_default (pos 8192) a.queue_size;
  workers = or_default (pos 0) a.workers;
  capture_headers = or_items (codes "User-Agent" ∷ []) a.capture_headers;
  ban_ttl = or_default default_ban_ttl a.ban_ttl;
}

unfoldable pub bloom_defaults : BloomConfig → BloomConfig
bloom_defaults b = record b { bits = or_nonzero 1048576 b.bits; hashes = or_nonzero 6 b.hashes }

-- `reputation` says whether reputation is enabled, which enables this group too.
unfoldable pub behavioral_defaults : Bool → BehavioralConfig → BehavioralConfig
behavioral_defaults reputation b = record b {
  enabled = if reputation then true else b.enabled;
  risk_window = or_default (pos (15 * minute)) b.risk_window;
  score_threshold = or_default (pos 100) b.score_threshold;
  penalty_ttl = or_default (pos (30 * minute)) b.penalty_ttl;
  penalty_ban_ttl = or_default (pos (24 * hour)) b.penalty_ban_ttl;
  query_diversity_threshold = or_default (pos 30) b.query_diversity_threshold;
  header_diversity_threshold = or_default (pos 20) b.header_diversity_threshold;
  diversity_weight = or_default (pos 5) b.diversity_weight;
}

module _ (w : World) where
  -- `if x <= bound { x = d }` on floats, the literals in hundredths.
  unfoldable pub or_literal : ℕ → ℕ → w.Float → w.Float
  or_literal bound d x = if w.at_most x (w.literal bound) then w.literal d else x

  unfoldable pub self_healing_defaults : SelfHealingConfig w → SelfHealingConfig w
  self_healing_defaults s = record s {
    window = or_default (pos (30 * second)) s.window;
    min_samples = or_default (pos 200) s.min_samples;
    clean_traffic_threshold = or_literal 0 90 s.clean_traffic_threshold;
    spike_factor = or_literal 0 300 s.spike_factor;
    max_sensitivity = or_literal 100 400 s.max_sensitivity;
    decay_step = or_literal 0 20 s.decay_step;
  }

  unfoldable pub reputation_defaults : ReputationConfig w → ReputationConfig w
  reputation_defaults r = record r {
    warning_level = or_literal 0 6000 r.warning_level;
    threshold = or_literal 0 10000 r.threshold;
    score_window = or_default (pos (15 * minute)) r.score_window;
    penalty_ttl = or_default (pos (30 * minute)) r.penalty_ttl;
    backoff_window = or_default (pos (24 * hour)) r.backoff_window;
    ban_level1 = or_default (pos minute) r.ban_level1;
    ban_level2 = or_default (pos (10 * minute)) r.ban_level2;
    ban_level3 = or_default (pos (24 * hour)) r.ban_level3;
  }

  -- The test `(RulesetFile != "" || DynamicRules != nil) && !AutoReloadOnSIGHUP`, and what it sets.
  unfoldable pub auto_reload : Bytes → Option w.Manager → Bool → Bool
  auto_reload file manager on =
      if (not (is_empty file) || not (is_nil manager)) && not on then true else on

  -- The default of KeyFunc calls the IPFunc that is in force.
  abbrev pub ip_or_default : Option (w.Request → Bytes) → w.Request → Bytes
  ip_or_default none = w.remote_host
  ip_or_default (some f) = f

  -- `withDefaults`.
  unfoldable pub with_defaults : MiddlewareConfig w → MiddlewareConfig w
  with_defaults c =
      let ban = or_default (pos hour) c.default_ban_ttl in
      record c {
        prefix = or_items (codes "github.com/Zhaba1337228/GuardGo") c.prefix;
        cache_size = or_default (pos 4096) c.cache_size;
        default_ban_ttl = ban;
        window = or_default (pos second) c.window;
        max_requests = or_default (pos 1000) c.max_requests;
        ip_func = or_value w.remote_host c.ip_func;
        key_func = or_value (ip_or_default c.ip_func) c.key_func;
        metrics = or_value w.nop_metrics c.metrics;
        stats = or_value w.nop_stats c.stats;
        adaptive_ban = adaptive_defaults ban c.adaptive_ban;
        deny_status_code = or_default (pos 429) c.deny_status_code;
        bloom = bloom_defaults c.bloom;
        self_healing = self_healing_defaults c.self_healing;
        behavioral = behavioral_defaults c.reputation.enabled c.behavioral;
        auto_reload_on_sighup = auto_reload c.ruleset_file c.dynamic_rules c.auto_reload_on_sighup;
        reputation = reputation_defaults c.reputation;
      }
