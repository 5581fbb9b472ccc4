-- ===== src/Config/Kept.antt =====
-- config.go: each setting after `withDefaults`, kept or replaced by its default.
use guard_go.Base.{
  ℕ, ◌≡◌, refl, Bool, true, false, List, [], ◌∷◌, Option, none, some, ◌==◌, if◌then◌else◌, not,
  ◌||◌, Bool-cases, inl, inr,
}
use guard_go.Base.Int.{ℤ, pos, leb_ℤ}
use guard_go.Text.{Bytes, is_empty}
use guard_go.Config.{
  World, AdaptiveBanConfig, BloomConfig, BehavioralConfig, SelfHealingConfig, ReputationConfig,
  MiddlewareConfig,
}
use guard_go.Config.Defaults.{
  or_default, or_nonzero, or_literal, or_value, or_items, is_nil, adaptive_defaults, bloom_defaults,
  behavioral_defaults, self_healing_defaults, reputation_defaults, auto_reload, ip_or_default,
  with_defaults,
}
use guard_go.Config.Positive.{has_items}
use guard_go.Config.Settled.{
  Settles, FloatDefaultsTo, AdaptiveSettles, BloomSettles, BehavioralSettles, SelfHealingSettles,
  ReputationSettles, AllSettle,
}

or_default-Settles : (d x : ℤ) → Settles (leb_ℤ x (pos 0)) d x (or_default d x)
unfolding or_default
or_default-Settles d x = elim (Bool-cases (leb_ℤ x (pos 0))) [
  | inl low ↦ inr (low, rw low refl)
  | inr high ↦ inl (high, rw high refl)
]

or_nonzero-Settles : (d x : ℕ) → Settles (x == 0) d x (or_nonzero d x)
unfolding or_nonzero
or_nonzero-Settles d x = elim (Bool-cases (x == 0)) [
  | inl low ↦ inr (low, rw low refl)
  | inr high ↦ inl (high, rw high refl)
]

or_literal-Settles :
    (w : World) (bound d : ℕ) (x : w.Float) → FloatDefaultsTo w bound d x (or_literal w bound d x)
unfolding or_literal
or_literal-Settles w bound d x = elim (Bool-cases (w.at_most x (w.literal bound))) [
  | inl low ↦ inr (low, rw low refl)
  | inr high ↦ inl (high, rw high refl)
]

or_items-Settles {ℓ} :
    {A : Type ℓ} (d xs : List A) → Settles (not (has_items xs)) d xs (or_items d xs)
or_items-Settles d [] = inr (refl, refl)
or_items-Settles d (x ∷ xs) = inl (refl, refl)

or_value-Settles {ℓ} :
    {A : Type ℓ} (d : A) (x : Option A) → Settles (is_nil x) (some d) x (or_value d x)
or_value-Settles d none = inr (refl, refl)
or_value-Settles d (some x) = inl (refl, refl)

adaptive_defaults-Settles :
    (ban : ℤ) (a : AdaptiveBanConfig) → AdaptiveSettles ban a (adaptive_defaults ban a)
unfolding adaptive_defaults
adaptive_defaults-Settles ban a = record {
  switch = refl;
  key_window = or_default-Settles _ a.threat_key_window;
  count = or_default-Settles _ a.threat_count_threshold;
  queue = or_default-Settles _ a.queue_size;
  pool = or_default-Settles _ a.workers;
  ban_time = or_default-Settles ban a.ban_ttl;
  names = or_items-Settles _ a.capture_headers;
}

bloom_defaults-Settles : (b : BloomConfig) → BloomSettles b (bloom_defaults b)
unfolding bloom_defaults
bloom_defaults-Settles b = record {
  switch = refl;
  size = or_nonzero-Settles _ b.bits;
  rounds = or_nonzero-Settles _ b.hashes;
}

enabled-or : (r e : Bool) → (if r then true else e) ≡ (r || e)
enabled-or true e = refl
enabled-or false e = refl

behavioral_defaults-Settles :
    (r : Bool) (b : BehavioralConfig) → BehavioralSettles r b (behavioral_defaults r b)
unfolding behavioral_defaults
behavioral_defaults-Settles r b = record {
  switch = enabled-or r b.enabled;
  agent = refl;
  referer = refl;
  risk = or_default-Settles _ b.risk_window;
  score = or_default-Settles _ b.score_threshold;
  penalty = or_default-Settles _ b.penalty_ttl;
  penalty_ban = or_default-Settles _ b.penalty_ban_ttl;
  queries = or_default-Settles _ b.query_diversity_threshold;
  headers = or_default-Settles _ b.header_diversity_threshold;
  weight = or_default-Settles _ b.diversity_weight;
}

module _ (w : World) where
  self_healing_defaults-Settles :
      (s : SelfHealingConfig w) → SelfHealingSettles w s (self_healing_defaults w s)
  unfolding self_healing_defaults
  self_healing_defaults-Settles s = record {
    switch = refl;
    period = or_default-Settles _ s.window;
    samples = or_default-Settles _ s.min_samples;
    clean = or_literal-Settles w 0 90 s.clean_traffic_threshold;
    spike = or_literal-Settles w 0 300 s.spike_factor;
    sensitivity = or_literal-Settles w 100 400 s.max_sensitivity;
    decay = or_literal-Settles w 0 20 s.decay_step;
  }

  reputation_defaults-Settles :
      (r : ReputationConfig w) → ReputationSettles w r (reputation_defaults w r)
  unfolding reputation_defaults
  reputation_defaults-Settles r = record {
    switch = refl;
    period = or_default-Settles _ r.score_window;
    penalty = or_default-Settles _ r.penalty_ttl;
    backoff = or_default-Settles _ r.backoff_window;
    first = or_default-Settles _ r.ban_level1;
    second_ban = or_default-Settles _ r.ban_level2;
    third = or_default-Settles _ r.ban_level3;
    warning = or_literal-Settles w 0 6000 r.warning_level;
    limit = or_literal-Settles w 0 10000 r.threshold;
  }

  auto_reload-or :
      (file : Bytes) (manager : Option w.Manager) (on : Bool)
      → auto_reload w file manager on ≡ (on || not (is_empty file) || not (is_nil manager))
  unfolding auto_reload
  auto_reload-or file manager true =
      elim (Bool-cases (not (is_empty file) || not (is_nil manager))) [
        | inl source ↦ rw source refl
        | inr without ↦ rw without refl
      ]
  auto_reload-or file manager false =
      elim (Bool-cases (not (is_empty file) || not (is_nil manager))) [
        | inl source ↦ rw source refl
        | inr without ↦ rw without refl
      ]

  key_func-Settles :
      (ip : Option (w.Request → Bytes)) (key : Option (w.Request → Bytes))
      → Settles (is_nil key) (or_value w.remote_host ip) key (or_value (ip_or_default w ip) key)
  key_func-Settles none none = inr (refl, refl)
  key_func-Settles (some f) none = inr (refl, refl)
  key_func-Settles none (some k) = inl (refl, refl)
  key_func-Settles (some f) (some k) = inl (refl, refl)

  -- `withDefaults` decides setting by setting: one that is unset (a number at or below 0, a float at or
  -- below its bound, an empty text or list, a nil function or collector) becomes its default,
  -- any other keeps its value. The default ban in force is the adaptive ban's default, the address
  -- function in force that of the key; reputation turns the behavioural group on, a ruleset source the
  -- reload on a signal; everything else stays.
  pub with_defaults-AllSettle : (c : MiddlewareConfig w) → AllSettle w c (with_defaults w c)
  unfolding with_defaults reputation_defaults
  with_defaults-AllSettle c = record {
    prefix = or_items-Settles _ c.prefix;
    cache = or_default-Settles _ c.cache_size;
    ban = or_default-Settles _ c.default_ban_ttl;
    period = or_default-Settles _ c.window;
    requests = or_default-Settles _ c.max_requests;
    status = or_default-Settles _ c.deny_status_code;
    ip = or_value-Settles _ c.ip_func;
    key = key_func-Settles c.ip_func c.key_func;
    meter = or_value-Settles _ c.metrics;
    recorder = or_value-Settles _ c.stats;
    adaptive = adaptive_defaults-Settles _ c.adaptive_ban;
    filter = bloom_defaults-Settles c.bloom;
    healing = self_healing_defaults-Settles c.self_healing;
    behavior = behavioral_defaults-Settles c.reputation.enabled c.behavioral;
    scoring = reputation_defaults-Settles c.reputation;
    reload = auto_reload-or c.ruleset_file c.dynamic_rules c.auto_reload_on_sighup;
    same_redis = refl;
    same_rules = refl;
    same_evaluators = refl;
    same_fail_open = refl;
    same_on_error = refl;
    same_tracing = refl;
    same_ruleset_file = refl;
    same_dynamic_rules = refl;
    same_compiled_rules = refl;
  }
