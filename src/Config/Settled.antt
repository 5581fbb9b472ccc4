-- ===== src/Config/Settled.antt =====
-- config.go: what it means for settings to be kept or replaced by their defaults, one by one.
use guard_go.Base.{ℕ, ◌*◌, ◌≡◌, ◌⊎◌, Bool, true, false, [], ◌∷◌, some, ◌==◌, not, ◌||◌}
use guard_go.Base.Int.{ℤ, pos, leb_ℤ}
use guard_go.Text.{codes, is_empty}
use guard_go.Config.{
  World, AdaptiveBanConfig, BloomConfig, BehavioralConfig, SelfHealingConfig, ReputationConfig,
  MiddlewareConfig,
}
use guard_go.Config.Defaults.{second, minute, hour, is_nil}
use guard_go.Config.Positive.{has_items}

-- A setting that is unset becomes its default; any other value is kept.
abbrev pub Settles {ℓ} : {A : Type ℓ} → Bool → A → A → A → Type ℓ
Settles unset d x x' = ((unset ≡ false) × (x' ≡ x)) ⊎ ((unset ≡ true) × (x' ≡ d))

-- A whole number is unset at 0 and below, a float at its bound and below (in hundredths).
abbrev pub DefaultsTo : ℕ → ℤ → ℤ → Type 0
DefaultsTo d x x' = Settles (leb_ℤ x (pos 0)) (pos d) x x'

abbrev pub FloatDefaultsTo : (w : World) → ℕ → ℕ → w.Float → w.Float → Type 0
FloatDefaultsTo w bound d x x' = Settles (w.at_most x (w.literal bound)) (w.literal d) x x'

-- `ban` is the default ban in force.
pub record AdaptiveSettles (ban : ℤ) (a a' : AdaptiveBanConfig) : Type 0 where
  pub switch : a'.enabled ≡ a.enabled
  pub key_window : DefaultsTo (10 * minute) a.threat_key_window a'.threat_key_window
  pub count : DefaultsTo 100 a.threat_count_threshold a'.threat_count_threshold
  pub queue : DefaultsTo 8192 a.queue_size a'.queue_size
  pub pool : DefaultsTo 0 a.workers a'.workers
  pub ban_time : Settles (leb_ℤ a.ban_ttl (pos 0)) ban a.ban_ttl a'.ban_ttl
  pub names :
      Settles
        (not (has_items a.capture_headers))
        (codes "User-Agent" ∷ [])
        a.capture_headers
        a'.capture_headers

pub record BloomSettles (b b' : BloomConfig) : Type 0 where
  pub switch : b'.enabled ≡ b.enabled
  pub size : Settles (b.bits == 0) 1048576 b.bits b'.bits
  pub rounds : Settles (b.hashes == 0) 6 b.hashes b'.hashes

pub record BehavioralSettles (reputation : Bool) (b b' : BehavioralConfig) : Type 0 where
  pub switch : b'.enabled ≡ (reputation || b.enabled)
  pub agent : b'.require_user_agent ≡ b.require_user_agent
  pub referer : b'.require_referer ≡ b.require_referer
  pub risk : DefaultsTo (15 * minute) b.risk_window b'.risk_window
  pub score : DefaultsTo 100 b.score_threshold b'.score_threshold
  pub penalty : DefaultsTo (30 * minute) b.penalty_ttl b'.penalty_ttl
  pub penalty_ban : DefaultsTo (24 * hour) b.penalty_ban_ttl b'.penalty_ban_ttl
  pub queries : DefaultsTo 30 b.query_diversity_threshold b'.query_diversity_threshold
  pub headers : DefaultsTo 20 b.header_diversity_threshold b'.header_diversity_threshold
  pub weight : DefaultsTo 5 b.diversity_weight b'.diversity_weight

pub record SelfHealingSettles (w : World) (s s' : SelfHealingConfig w) : Type 0 where
  pub switch : s'.enabled ≡ s.enabled
  pub period : DefaultsTo (30 * second) s.window s'.window
  pub samples : DefaultsTo 200 s.min_samples s'.min_samples
  pub clean : FloatDefaultsTo w 0 90 s.clean_traffic_threshold s'.clean_traffic_threshold
  pub spike : FloatDefaultsTo w 0 300 s.spike_factor s'.spike_factor
  pub sensitivity : FloatDefaultsTo w 100 400 s.max_sensitivity s'.max_sensitivity
  pub decay : FloatDefaultsTo w 0 20 s.decay_step s'.decay_step

pub record ReputationSettles (w : World) (r r' : ReputationConfig w) : Type 0 where
  pub switch : r'.enabled ≡ r.enabled
  pub period : DefaultsTo (15 * minute) r.score_window r'.score_window
  pub penalty : DefaultsTo (30 * minute) r.penalty_ttl r'.penalty_ttl
  pub backoff : DefaultsTo (24 * hour) r.backoff_window r'.backoff_window
  pub first : DefaultsTo minute r.ban_level1 r'.ban_level1
  pub second_ban : DefaultsTo (10 * minute) r.ban_level2 r'.ban_level2
  pub third : DefaultsTo (24 * hour) r.ban_level3 r'.ban_level3
  pub warning : FloatDefaultsTo w 0 6000 r.warning_level r'.warning_level
  pub limit : FloatDefaultsTo w 0 10000 r.threshold r'.threshold

-- All settings.
pub record AllSettle (w : World) (c c' : MiddlewareConfig w) : Type 0 where
  pub prefix :
      Settles
        (not (has_items c.prefix))
        (codes "github.com/Zhaba1337228/GuardGo")
        c.prefix
        c'.prefix
  pub cache : DefaultsTo 4096 c.cache_size c'.cache_size
  pub ban : DefaultsTo hour c.default_ban_ttl c'.default_ban_ttl
  pub period : DefaultsTo second c.window c'.window
  pub requests : DefaultsTo 1000 c.max_requests c'.max_requests
  pub status : DefaultsTo 429 c.deny_status_code c'.deny_status_code
  pub ip : Settles (is_nil c.ip_func) (some w.remote_host) c.ip_func c'.ip_func
  pub key : Settles (is_nil c.key_func) c'.ip_func c.key_func c'.key_func
  pub meter : Settles (is_nil c.metrics) (some w.nop_metrics) c.metrics c'.metrics
  pub recorder : Settles (is_nil c.stats) (some w.nop_stats) c.stats c'.stats
  pub adaptive : AdaptiveSettles c'.default_ban_ttl c.adaptive_ban c'.adaptive_ban
  pub filter : BloomSettles c.bloom c'.bloom
  pub healing : SelfHealingSettles w c.self_healing c'.self_healing
  pub behavior : BehavioralSettles c.reputation.enabled c.behavioral c'.behavioral
  pub scoring : ReputationSettles w c.reputation c'.reputation
  pub reload :
      c'.auto_reload_on_sighup
      ≡ (c.auto_reload_on_sighup || not (is_empty c.ruleset_file) || not (is_nil c.dynamic_rules))
  pub same_redis : c'.redis ≡ c.redis
  pub same_rules : c'.rules ≡ c.rules
  pub same_evaluators : c'.evaluators ≡ c.evaluators
  pub same_fail_open : c'.fail_open ≡ c.fail_open
  pub same_on_error : c'.on_error ≡ c.on_error
  pub same_tracing : c'.tracing ≡ c.tracing
  pub same_ruleset_file : c'.ruleset_file ≡ c.ruleset_file
  pub same_dynamic_rules : c'.dynamic_rules ≡ c.dynamic_rules
  pub same_compiled_rules : c'.compiled_rules ≡ c.compiled_rules
