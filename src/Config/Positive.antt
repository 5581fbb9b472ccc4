-- ===== src/Config/Positive.antt =====
-- config.go: what the settings are after `withDefaults`.
use guard_go.Base.{
  ℕ, ◌^◌, ◌<◌, ◌≡◌, refl, Bool, true, false, List, [], ◌∷◌, Option, none, some, inl, inr, arith,
  Bool-cases, ◌==◌, if◌then◌else◌, not, ◌||◌,
}
use guard_go.Base.Int.{ℤ, pos, negsuc, leb_ℤ}
use guard_go.Text.{Bytes, is_empty}
use guard_go.Config.{
  World, AdaptiveBanConfig, BloomConfig, BehavioralConfig, SelfHealingConfig, ReputationConfig,
  MiddlewareConfig,
}
use guard_go.Config.Defaults.{
  or_default, or_nonzero, or_literal, or_value, or_items, is_nil, adaptive_defaults, bloom_defaults,
  behavioral_defaults, self_healing_defaults, reputation_defaults, auto_reload, with_defaults,
}

-- x > 0, and x > bound / 100 on a float.
abbrev pub IsPositive : ℤ → Type 0
IsPositive x = leb_ℤ x (pos 0) ≡ false

abbrev pub IsAbove : (w : World) → ℕ → w.Float → Type 0
IsAbove w bound x = w.at_most x (w.literal bound) ≡ false

abbrev pub has_items {ℓ} : {A : Type ℓ} → List A → Bool
has_items [] = false
has_items (x ∷ xs) = true

pub record IsAdaptive (a : AdaptiveBanConfig) : Type 0 where
  pub key_window : IsPositive a.threat_key_window
  pub count : IsPositive a.threat_count_threshold
  pub ban : IsPositive a.ban_ttl
  pub queue : IsPositive a.queue_size
  pub nonneg_workers : leb_ℤ (pos 0) a.workers ≡ true
  pub headers : has_items a.capture_headers ≡ true

pub record IsBloom (b : BloomConfig) : Type 0 where
  pub some_bits : (b.bits == 0) ≡ false
  pub some_hashes : (b.hashes == 0) ≡ false

pub record IsBehavioral (reputation : Bool) (b : BehavioralConfig) : Type 0 where
  pub follows : reputation ≡ true → b.enabled ≡ true
  pub risk : IsPositive b.risk_window
  pub score : IsPositive b.score_threshold
  pub penalty : IsPositive b.penalty_ttl
  pub penalty_ban : IsPositive b.penalty_ban_ttl
  pub queries : IsPositive b.query_diversity_threshold
  pub headers : IsPositive b.header_diversity_threshold
  pub weight : IsPositive b.diversity_weight

pub record IsSelfHealing (w : World) (s : SelfHealingConfig w) : Type 0 where
  pub period : IsPositive s.window
  pub samples : IsPositive s.min_samples
  pub clean : IsAbove w 0 s.clean_traffic_threshold
  pub spike : IsAbove w 0 s.spike_factor
  pub sensitivity : IsAbove w 100 s.max_sensitivity
  pub decay : IsAbove w 0 s.decay_step

pub record IsReputation (w : World) (r : ReputationConfig w) : Type 0 where
  pub warning : IsAbove w 0 r.warning_level
  pub limit : IsAbove w 0 r.threshold
  pub period : IsPositive r.score_window
  pub penalty : IsPositive r.penalty_ttl
  pub backoff : IsPositive r.backoff_window
  pub first : IsPositive r.ban_level1
  pub second : IsPositive r.ban_level2
  pub third : IsPositive r.ban_level3

-- Settings with every value in place.
pub record IsComplete (w : World) (c : MiddlewareConfig w) : Type 0 where
  pub named : has_items c.prefix ≡ true
  pub cache : IsPositive c.cache_size
  pub ban : IsPositive c.default_ban_ttl
  pub period : IsPositive c.window
  pub requests : IsPositive c.max_requests
  pub ip : is_nil c.ip_func ≡ false
  pub key : is_nil c.key_func ≡ false
  pub meter : is_nil c.metrics ≡ false
  pub recorder : is_nil c.stats ≡ false
  pub adaptive : IsAdaptive c.adaptive_ban
  pub status : IsPositive c.deny_status_code
  pub filter : IsBloom c.bloom
  pub healing : IsSelfHealing w c.self_healing
  pub behavior : IsBehavioral c.reputation.enabled c.behavioral
  pub reload :
      (not (is_empty c.ruleset_file) || not (is_nil c.dynamic_rules)) ≡ true
      → c.auto_reload_on_sighup ≡ true
  pub scoring : IsReputation w c.reputation

or_default-IsPositive : (d x : ℤ) → IsPositive d → IsPositive (or_default d x)
unfolding or_default
or_default-IsPositive d x h = elim (Bool-cases (leb_ℤ x (pos 0))) [
  | inl low ↦ rw low h
  | inr high ↦ rw high high
]

or_default-workers : (x : ℤ) → leb_ℤ (pos 0) (or_default (pos 0) x) ≡ true
unfolding or_default
or_default-workers (pos n) = ground arith
or_default-workers (negsuc n) = ground arith

or_nonzero-neq : (d x : ℕ) → (d == 0) ≡ false → (or_nonzero d x == 0) ≡ false
unfolding or_nonzero
or_nonzero-neq d x h = ground arith

or_items-has_items {ℓ} :
    {A : Type ℓ} (d xs : List A) → has_items d ≡ true → has_items (or_items d xs) ≡ true
or_items-has_items d [] h = h
or_items-has_items d (x ∷ xs) h = refl

or_value-is_nil {ℓ} : {A : Type ℓ} (d : A) (x : Option A) → is_nil (or_value d x) ≡ false
or_value-is_nil d none = refl
or_value-is_nil d (some x) = refl

or_literal-IsAbove :
    (w : World) (bound d : ℕ) (x : w.Float)
    → bound < 2 ^ 32
    → d < 2 ^ 32
    → bound < d
    → IsAbove w bound (or_literal w bound d x)
unfolding or_literal
or_literal-IsAbove w bound d x hb hd h = ground (arith, w.at_most_literal d bound hd hb)

adaptive_defaults-IsAdaptive :
    (ban : ℤ) (a : AdaptiveBanConfig) → IsPositive ban → IsAdaptive (adaptive_defaults ban a)
unfolding adaptive_defaults
adaptive_defaults-IsAdaptive ban a h = record {
  key_window = or_default-IsPositive _ a.threat_key_window refl;
  count = or_default-IsPositive _ a.threat_count_threshold refl;
  ban = or_default-IsPositive ban a.ban_ttl h;
  queue = or_default-IsPositive _ a.queue_size refl;
  nonneg_workers = or_default-workers a.workers;
  headers = or_items-has_items _ a.capture_headers refl;
}

bloom_defaults-IsBloom : (b : BloomConfig) → IsBloom (bloom_defaults b)
unfolding bloom_defaults
bloom_defaults-IsBloom b = record {
  some_bits = or_nonzero-neq _ b.bits refl;
  some_hashes = or_nonzero-neq _ b.hashes refl;
}

enabled_by : (r e : Bool) → r ≡ true → (if r then true else e) ≡ true
enabled_by r e h = rw h refl

behavioral_defaults-IsBehavioral :
    (r : Bool) (b : BehavioralConfig) → IsBehavioral r (behavioral_defaults r b)
unfolding behavioral_defaults
behavioral_defaults-IsBehavioral r b = record {
  follows = enabled_by r b.enabled;
  risk = or_default-IsPositive _ b.risk_window refl;
  score = or_default-IsPositive _ b.score_threshold refl;
  penalty = or_default-IsPositive _ b.penalty_ttl refl;
  penalty_ban = or_default-IsPositive _ b.penalty_ban_ttl refl;
  queries = or_default-IsPositive _ b.query_diversity_threshold refl;
  headers = or_default-IsPositive _ b.header_diversity_threshold refl;
  weight = or_default-IsPositive _ b.diversity_weight refl;
}

module _ (w : World) where
  self_healing_defaults-IsSelfHealing :
      (s : SelfHealingConfig w) → IsSelfHealing w (self_healing_defaults w s)
  unfolding self_healing_defaults
  self_healing_defaults-IsSelfHealing s = record {
    period = or_default-IsPositive _ s.window refl;
    samples = or_default-IsPositive _ s.min_samples refl;
    clean =
        or_literal-IsAbove w 0 90 s.clean_traffic_threshold (omega arith) (omega arith)
          (omega arith);
    spike = or_literal-IsAbove w 0 300 s.spike_factor (omega arith) (omega arith) (omega arith);
    sensitivity =
        or_literal-IsAbove w 100 400 s.max_sensitivity (omega arith) (omega arith) (omega arith);
    decay = or_literal-IsAbove w 0 20 s.decay_step (omega arith) (omega arith) (omega arith);
  }

  reputation_defaults-IsReputation :
      (r : ReputationConfig w) → IsReputation w (reputation_defaults w r)
  unfolding reputation_defaults
  reputation_defaults-IsReputation r = record {
    warning = or_literal-IsAbove w 0 6000 r.warning_level (omega arith) (omega arith) (omega arith);
    limit = or_literal-IsAbove w 0 10000 r.threshold (omega arith) (omega arith) (omega arith);
    period = or_default-IsPositive _ r.score_window refl;
    penalty = or_default-IsPositive _ r.penalty_ttl refl;
    backoff = or_default-IsPositive _ r.backoff_window refl;
    first = or_default-IsPositive _ r.ban_level1 refl;
    second = or_default-IsPositive _ r.ban_level2 refl;
    third = or_default-IsPositive _ r.ban_level3 refl;
  }

  auto_reload-follows :
      (file : Bytes) (manager : Option w.Manager) (on : Bool)
      → (not (is_empty file) || not (is_nil manager)) ≡ true
      → auto_reload w file manager on ≡ true
  unfolding auto_reload
  auto_reload-follows file manager true h = rw h refl
  auto_reload-follows file manager false h = rw h refl

  -- After `withDefaults` sizes, durations, limits and whole thresholds are positive, no float setting is at
  -- or below its bound (0, and 1 for the largest sensitivity; a NaN is not), the key's prefix and the
  -- captured headers are not empty, functions and collectors are set, enabled reputation enables the
  -- behavioural group, and a ruleset source turns the reload on a signal on.
  pub with_defaults-IsComplete : (c : MiddlewareConfig w) → IsComplete w (with_defaults w c)
  unfolding with_defaults reputation_defaults
  with_defaults-IsComplete c = record {
    named = or_items-has_items _ c.prefix refl;
    cache = or_default-IsPositive _ c.cache_size refl;
    ban = or_default-IsPositive _ c.default_ban_ttl refl;
    period = or_default-IsPositive _ c.window refl;
    requests = or_default-IsPositive _ c.max_requests refl;
    ip = or_value-is_nil _ c.ip_func;
    key = or_value-is_nil _ c.key_func;
    meter = or_value-is_nil _ c.metrics;
    recorder = or_value-is_nil _ c.stats;
    adaptive =
        adaptive_defaults-IsAdaptive _ c.adaptive_ban
          (or_default-IsPositive _ c.default_ban_ttl refl);
    status = or_default-IsPositive _ c.deny_status_code refl;
    filter = bloom_defaults-IsBloom c.bloom;
    healing = self_healing_defaults-IsSelfHealing c.self_healing;
    behavior = behavioral_defaults-IsBehavioral c.reputation.enabled c.behavioral;
    reload = auto_reload-follows c.ruleset_file c.dynamic_rules c.auto_reload_on_sighup;
    scoring = reputation_defaults-IsReputation c.reputation;
  }
