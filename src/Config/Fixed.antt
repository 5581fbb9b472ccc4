-- ===== src/Config/Fixed.antt =====
-- config.go: `withDefaults` leaves complete settings as they are.
use guard_go.Base.{
  ℕ, zero, suc, ◌≡◌, refl, sym, Bool, true, false, List, [], ◌∷◌, Option, none, some, ◌==◌,
  if◌then◌else◌, not, ◌||◌, Bool-cases, inl, inr, arith,
}
use guard_go.Base.Int.{ℤ, pos, negsuc, leb_ℤ}
use guard_go.Text.{Bytes, is_empty}
use guard_go.Config.{
  World, AdaptiveBanConfig, BloomConfig, BehavioralConfig, SelfHealingConfig, ReputationConfig,
  MiddlewareConfig,
}
use guard_go.Config.Defaults.{
  or_default, or_nonzero, or_literal, or_value, or_items, is_nil, adaptive_defaults, bloom_defaults,
  behavioral_defaults, self_healing_defaults, reputation_defaults, auto_reload, with_defaults,
}
use guard_go.Config.Positive.{
  IsPositive, IsAbove, has_items, IsAdaptive, IsBloom, IsBehavioral, IsSelfHealing, IsReputation,
  IsComplete, with_defaults-IsComplete,
}

or_default-fixed : (d x : ℤ) → IsPositive x → or_default d x ≡ x
unfolding or_default
or_default-fixed d x h = rw h refl

or_default_workers-fixed : (x : ℤ) → leb_ℤ (pos 0) x ≡ true → or_default (pos 0) x ≡ x
unfolding or_default
or_default_workers-fixed (pos zero) h = refl
or_default_workers-fixed (pos (suc n)) h = ground arith
or_default_workers-fixed (negsuc n) h = ground arith

or_nonzero-fixed : (d x : ℕ) → (x == 0) ≡ false → or_nonzero d x ≡ x
unfolding or_nonzero
or_nonzero-fixed d x h = rw h refl

or_literal-fixed :
    (w : World) (bound d : ℕ) (x : w.Float) → IsAbove w bound x → or_literal w bound d x ≡ x
unfolding or_literal
or_literal-fixed w bound d x h = rw h refl

or_items-fixed {ℓ} : {A : Type ℓ} (d xs : List A) → has_items xs ≡ true → or_items d xs ≡ xs
or_items-fixed d [] h = absurd (ground arith)
or_items-fixed d (x ∷ xs) h = refl

or_value-fixed {ℓ} : {A : Type ℓ} (d : A) (x : Option A) → is_nil x ≡ false → or_value d x ≡ x
or_value-fixed d none h = absurd (ground arith)
or_value-fixed d (some x) h = refl

adaptive_defaults-fixed :
    (ban : ℤ) (a : AdaptiveBanConfig) → IsAdaptive a → adaptive_defaults ban a ≡ a
unfolding adaptive_defaults
adaptive_defaults-fixed ban a h =
    rw
      (
        or_default-fixed (pos 600000000000) a.threat_key_window h.key_window,
        or_default-fixed (pos 100) a.threat_count_threshold h.count,
        or_default-fixed ban a.ban_ttl h.ban,
        or_default-fixed (pos 8192) a.queue_size h.queue,
        or_default_workers-fixed a.workers h.nonneg_workers,
        or_items-fixed _ a.capture_headers h.headers,
      )
      refl

bloom_defaults-fixed : (b : BloomConfig) → IsBloom b → bloom_defaults b ≡ b
unfolding bloom_defaults
bloom_defaults-fixed b h =
    rw (or_nonzero-fixed 1048576 b.bits h.some_bits, or_nonzero-fixed 6 b.hashes h.some_hashes) refl

enabled-fixed : (r e : Bool) → (r ≡ true → e ≡ true) → (if r then true else e) ≡ e
enabled-fixed true e h = sym (h refl)
enabled-fixed false e h = refl

behavioral_defaults-fixed :
    (r : Bool) (b : BehavioralConfig) → IsBehavioral r b → behavioral_defaults r b ≡ b
unfolding behavioral_defaults
behavioral_defaults-fixed r b h =
    rw
      (
        enabled-fixed r b.enabled h.follows,
        or_default-fixed (pos 900000000000) b.risk_window h.risk,
        or_default-fixed (pos 100) b.score_threshold h.score,
        or_default-fixed (pos 1800000000000) b.penalty_ttl h.penalty,
        or_default-fixed (pos 86400000000000) b.penalty_ban_ttl h.penalty_ban,
        or_default-fixed (pos 30) b.query_diversity_threshold h.queries,
        or_default-fixed (pos 20) b.header_diversity_threshold h.headers,
        or_default-fixed (pos 5) b.diversity_weight h.weight,
      )
      refl

module _ (w : World) where
  self_healing_defaults-fixed :
      (s : SelfHealingConfig w) → IsSelfHealing w s → self_healing_defaults w s ≡ s
  unfolding self_healing_defaults
  self_healing_defaults-fixed s h =
      rw
        (
          or_default-fixed (pos 30000000000) s.window h.period,
          or_default-fixed (pos 200) s.min_samples h.samples,
          or_literal-fixed w 0 90 s.clean_traffic_threshold h.clean,
          or_literal-fixed w 0 300 s.spike_factor h.spike,
          or_literal-fixed w 100 400 s.max_sensitivity h.sensitivity,
          or_literal-fixed w 0 20 s.decay_step h.decay,
        )
        refl

  reputation_defaults-fixed :
      (r : ReputationConfig w) → IsReputation w r → reputation_defaults w r ≡ r
  unfolding reputation_defaults
  reputation_defaults-fixed r h =
      rw
        (
          or_literal-fixed w 0 6000 r.warning_level h.warning,
          or_literal-fixed w 0 10000 r.threshold h.limit,
          or_default-fixed (pos 900000000000) r.score_window h.period,
          or_default-fixed (pos 1800000000000) r.penalty_ttl h.penalty,
          or_default-fixed (pos 86400000000000) r.backoff_window h.backoff,
          or_default-fixed (pos 60000000000) r.ban_level1 h.first,
          or_default-fixed (pos 600000000000) r.ban_level2 h.second,
          or_default-fixed (pos 86400000000000) r.ban_level3 h.third,
        )
        refl

  auto_reload-fixed :
      (file : Bytes) (manager : Option w.Manager) (on : Bool)
      → ((not (is_empty file) || not (is_nil manager)) ≡ true → on ≡ true)
      → auto_reload w file manager on ≡ on
  unfolding auto_reload
  auto_reload-fixed file manager on h =
      elim (Bool-cases (not (is_empty file) || not (is_nil manager))) [
        | inl source ↦ rw (source, h source) refl
        | inr without ↦ rw without refl
      ]

  -- `withDefaults` does not change settings that already have what it guarantees: positive sizes,
  -- durations, limits and whole thresholds, a number of workers from 0, floats not at or below their
  -- bound, a prefix, captured headers, functions and collectors, the behavioural group on if reputation
  -- is, and the reload on a signal on if there is a ruleset source.
  pub with_defaults-fixed : (c : MiddlewareConfig w) → IsComplete w c → with_defaults w c ≡ c
  unfolding with_defaults
  with_defaults-fixed c h =
      rw
        (
          or_items-fixed _ c.prefix h.named,
          or_default-fixed (pos 4096) c.cache_size h.cache,
          or_default-fixed (pos 3600000000000) c.default_ban_ttl h.ban,
          or_default-fixed (pos 1000000000) c.window h.period,
          or_default-fixed (pos 1000) c.max_requests h.requests,
          or_value-fixed _ c.ip_func h.ip,
          or_value-fixed _ c.key_func h.key,
          or_value-fixed _ c.metrics h.meter,
          or_value-fixed _ c.stats h.recorder,
          adaptive_defaults-fixed c.default_ban_ttl c.adaptive_ban h.adaptive,
          or_default-fixed (pos 429) c.deny_status_code h.status,
          bloom_defaults-fixed c.bloom h.filter,
          self_healing_defaults-fixed c.self_healing h.healing,
          behavioral_defaults-fixed c.reputation.enabled c.behavioral h.behavior,
          auto_reload-fixed c.ruleset_file c.dynamic_rules c.auto_reload_on_sighup h.reload,
          reputation_defaults-fixed c.reputation h.scoring,
        )
        refl

  -- Applying `withDefaults` to its own result changes nothing.
  pub with_defaults_idem :
      (c : MiddlewareConfig w) → with_defaults w (with_defaults w c) ≡ with_defaults w c
  with_defaults_idem c = with_defaults-fixed (with_defaults w c) (with_defaults-IsComplete w c)
