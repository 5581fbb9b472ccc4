-- ===== src/Tests/ConfigTests.antt =====
-- config.go on settings that name only a quota.
use guard_go.Base.{ℕ, ◌*◌, ◌≡◌, refl, true, false, [], none, leb}
use guard_go.Base.Int.{pos, negsuc}
use guard_go.Text.{Bytes, codes}
use guard_go.Config.{World, MiddlewareConfig}
use guard_go.Config.Defaults.{with_defaults, or_default, adaptive_defaults, auto_reload, minute}
use guard_go.Config.Positive.{IsComplete, with_defaults-IsComplete}
use guard_go.Config.Settled.{AllSettle}
use guard_go.Config.Kept.{with_defaults-AllSettle}
use guard_go.Config.Fixed.{with_defaults-fixed}

-- Floats as hundredths.
abbrev pub plain : World
plain = record {
  Float = ℕ;
  literal = λ n. n;
  at_most = leb;
  at_most_literal = λ a b p q. refl;
  Request = Bytes;
  remote_host = λ r. r;
  Client = ℕ;
  Tracer = ℕ;
  Metrics = ℕ;
  nop_metrics = 0;
  Stats = ℕ;
  nop_stats = 0;
  Rule = ℕ;
  Evaluator = ℕ;
  OnError = ℕ;
  Manager = ℕ;
  Ruleset = ℕ;
}

abbrev pub bare : MiddlewareConfig plain
bare = record {
  redis = none;
  max_requests = pos 20;
  window = pos 0;
  rules = [];
  evaluators = [];
  fail_open = true;
  prefix = [];
  cache_size = negsuc 4;
  default_ban_ttl = pos (2 * minute);
  adaptive_ban = record {
    enabled = true;
    threat_key_window = pos 0;
    threat_count_threshold = pos 0;
    ban_ttl = pos 0;
    queue_size = pos 0;
    workers = negsuc 0;
    capture_headers = [];
  };
  key_func = none;
  ip_func = none;
  metrics = none;
  stats = none;
  on_error = none;
  deny_status_code = pos 0;
  bloom = record { enabled = true; bits = 0; hashes = 0 };
  tracing = record { enabled = false; tracer = none };
  self_healing = record {
    enabled = false;
    window = pos 0;
    min_samples = pos 0;
    clean_traffic_threshold = 0;
    spike_factor = 0;
    max_sensitivity = 100;
    decay_step = 0;
  };
  ruleset_file = codes "rules.yaml";
  dynamic_rules = none;
  compiled_rules = none;
  auto_reload_on_sighup = false;
  behavioral = record {
    enabled = false;
    risk_window = pos 0;
    score_threshold = pos 0;
    penalty_ttl = pos 0;
    penalty_ban_ttl = pos 0;
    require_user_agent = true;
    require_referer = false;
    query_diversity_threshold = pos 0;
    header_diversity_threshold = pos 0;
    diversity_weight = pos 0;
  };
  reputation = record {
    enabled = true;
    warning_level = 0;
    threshold = 0;
    score_window = pos 0;
    penalty_ttl = pos 0;
    backoff_window = pos 0;
    ban_level1 = pos 0;
    ban_level2 = pos 0;
    ban_level3 = pos 0;
  };
}

-- The ban of the adaptive group follows the default ban in force, and a file turns the reload on.
run_bare_ban : (with_defaults plain bare).adaptive_ban.ban_ttl ≡ pos 120000000000
unfolding with_defaults adaptive_defaults or_default
run_bare_ban = refl

run_bare_reload : (with_defaults plain bare).auto_reload_on_sighup ≡ true
unfolding with_defaults auto_reload
run_bare_reload = refl

with_defaults-IsComplete_example : IsComplete plain (with_defaults plain bare)
with_defaults-IsComplete_example = with_defaults-IsComplete plain bare

with_defaults-fixed_example :
    with_defaults plain (with_defaults plain bare) ≡ with_defaults plain bare
with_defaults-fixed_example =
    with_defaults-fixed plain (with_defaults plain bare) (with_defaults-IsComplete plain bare)

with_defaults-AllSettle_example : AllSettle plain bare (with_defaults plain bare)
with_defaults-AllSettle_example = with_defaults-AllSettle plain bare
