-- ===== src/Engine/Process.antt =====
-- engine_process.go: the judgement of a request. `Process` reads the clock at its start, `now`, and
-- once more when it bans, `later`. Spans and durations are left out; a panic of the filter is `none`.
-- Each early return of the source is a function of its own, from the engine where it stands.
use guard_go.Base.{Bool, true, false, Option, none, some, [], if◌then◌else◌, ◌>>=◌}
use guard_go.Base.Int.{ℤ, pos, ltb_ℤ, ◌+ℤ◌, quot, wrap64}
use guard_go.Text.{Bytes, codes, is_empty}
use guard_go.Config.{World}
use guard_go.Redis.{Reply, critical_path}
use guard_go.Decision.{
  Decision, Reason, allowed, rate_limited, blacklisted, redis_error, fail_open, penalty_forbidden,
  millisecond, new_decision, new_decision_with_ttl,
}
use guard_go.Bloom
use guard_go.Bloom.{Filter}
use guard_go.Cache.{blacklist, is_blacklisted}
use guard_go.SelfHealing.{effective_limit, observe}
use guard_go.Engine.{
  Site, Engine, inc_allowed, inc_rate_limited, inc_blacklisted, inc_redis_errors,
  observe_lua_latency, emit, emit_request, tell_error, round_trip, bloom_add,
}
use guard_go.Engine.Replies.{parse_lua_result, lua_value, is_code}
use guard_go.Engine.Snapshots.{try_enqueue}
use guard_go.Engine.Penalty.{count, redis_keys_for, ban_ip, is_in_penalty, passes_penalty_checks}

module _ (w : World) (x : Site w) where
  -- IPFunc and KeyFunc, which the defaults have set.
  unfoldable pub ip_of : Engine w x → w.Request → Bytes
  ip_of e r = elim e.cfg.ip_func [ none ↦ [] | some f ↦ f r ]

  unfoldable pub key_of : Engine w x → w.Request → Bytes
  unfolding ip_of
  key_of e r =
      let key : Bytes = elim e.cfg.key_func [ none ↦ [] | some f ↦ f r ] in
      if is_empty key then ip_of e r else key

  -- The limit in force, by the self-healing limiter if there is one.
  unfoldable pub limit_for : Bytes → ℤ → Engine w x → ℤ × Engine w x
  limit_for ip now e = elim e.sh [
    | none ↦ (e.cfg.max_requests, e)
    | some s ↦
        let (limit, s') =
          effective_limit w x.arithmetic e.cfg.self_healing ip e.cfg.max_requests now s in
        (limit, record e { sh = some s' })
  ]

  -- `finishDecision`, without the span.
  unfoldable pub finish : ℤ → Decision → Engine w x → Decision × Engine w x
  finish now d e = elim e.sh [
    | none ↦ (d, e)
    | some s ↦ (d, record e { sh = some (observe w x.arithmetic e.cfg.self_healing d now s) })
  ]

  -- A request that is let through: the metric, the statistic, the snapshot, the decision.
  unfoldable pub allow :
      Bytes → w.Request → Bytes → Bytes → ℤ → Decision → Engine w x → Decision × Engine w x
  allow source r ip key now d e = finish now d (
      try_enqueue w x r ip key now
        (emit_request w x (codes "allowed") source (emit w x inc_allowed e)))

  unfoldable pub block : Bytes → ℤ → Decision → Engine w x → Decision × Engine w x
  block source now d e = finish now d (emit_request w x (codes "blocked") source e)

  -- `if ip != "" && e.bf != nil { e.bf.Add(ip) }`.
  unfoldable pub learn : Bytes → Engine w x → Option (Engine w x)
  learn ip e = if is_empty ip then some e else bloom_add w x ip e

  -- An address in the blacklist of Redis, which the cache keeps for two seconds.
  unfoldable pub judge_listed : Bytes → ℤ → ℤ → ℤ → ℤ → Engine w x → Option (Decision × Engine w x)
  judge_listed ip now limit counter ttl e = do
    let e1 =
        emit_request w x (codes "blocked") (codes "redis_blacklist") (emit w x inc_blacklisted e)
    e2 ←
        learn ip
          (record e1 { cache = blacklist x.lru ip (wrap64 (now +ℤ pos 2000000000)) e1.cache })
    some
        (finish now (new_decision_with_ttl false blacklisted counter limit now ttl e.cfg.window) e2)

  -- The switch on the code of the critical path.
  unfoldable pub judge_reply :
      w.Request → Bytes → Bytes → ℤ → ℤ → ℤ × ℤ × ℤ → Engine w x → Option (Decision × Engine w x)
  judge_reply r ip key now limit (code, counter, ttl) e =
      if is_code 2 code
      then judge_listed ip now limit counter ttl e
      else (if is_code 1 code
          then some (
              block (codes "rate_limit") now
                (new_decision_with_ttl false rate_limited counter limit now ttl e.cfg.window)
                (emit w x inc_rate_limited e))
          else some (
              allow (codes "lua_allow") r ip key now
                (new_decision_with_ttl true allowed counter limit now ttl e.cfg.window) e))

  -- What follows an error of the script.
  unfoldable pub judge_error :
      w.Request → Bytes → Bytes → ℤ → ℤ → Engine w x → Decision × Engine w x
  judge_error r ip key now limit e =
      let e1 = tell_error w x (
        emit w x (count w x (codes "redis_errors_total") (codes "op") (codes "critical_path_lua"))
          (emit w x inc_redis_errors e)) in
      if e.cfg.fail_open
      then allow (codes "fail_open") r ip key now
          (new_decision true fail_open limit now e.cfg.window) e1
      else block (codes "redis_error") now (new_decision false redis_error limit now e.cfg.window)
          e1

  -- The script, from the engine that the bloom filter let through.
  unfoldable pub judge_script :
      Option Reply → w.Request → Bytes → Bytes → ℤ → ℤ → Engine w x → Option (Decision × Engine w x)
  judge_script none r ip key now limit e = some (judge_error r ip key now limit e)
  judge_script (some answer) r ip key now limit e =
      judge_reply r ip key now limit (parse_lua_result (lua_value answer)) e

  unfoldable pub script_stage :
      w.Request → Bytes → Bytes → ℤ → ℤ → Engine w x → Option (Decision × Engine w x)
  script_stage r ip key now limit e =
      let (bl_key, counter_key) = redis_keys_for e.cfg.prefix ip key in
      let (reply, e1) =
        round_trip w x
          (critical_path x.redis bl_key counter_key (quot e.cfg.window millisecond) limit) e in
      judge_script reply r ip key now limit (emit w x observe_lua_latency e1)

  -- The bloom filter: an address that it does not know is let through without the script.
  unfoldable pub ask_filter :
      Option Filter
      → w.Request
      → Bytes
      → Bytes
      → ℤ
      → ℤ
      → Engine w x
      → Option (Decision × Engine w x)
  ask_filter none r ip key now limit e = script_stage r ip key now limit e
  ask_filter (some f) r ip key now limit e =
      if is_empty ip then script_stage r ip key now limit e else (do
        known ← Bloom.test f ip
        if known
            then script_stage r ip key now limit e
            else some (
                allow (codes "bloom_negative") r ip key now
                  (new_decision true allowed limit now e.cfg.window) e))

  unfoldable pub bloom_stage :
      w.Request → Bytes → Bytes → ℤ → ℤ → Engine w x → Option (Decision × Engine w x)
  unfolding ask_filter
  bloom_stage r ip key now limit e = ask_filter e.bf r ip key now limit e

  -- A request in the penalty box that fails its checks.
  unfoldable pub forbid : Bytes → ℤ → ℤ → Engine w x → Option (Decision × Engine w x)
  forbid ip now later e = do
    let ban_ttl =
        if e.cfg.reputation.enabled
        then e.cfg.reputation.ban_level3
        else e.cfg.behavioral.penalty_ban_ttl
    (done, e1) ← ban_ip w x ip ban_ttl later e
    let d =
        new_decision_with_ttl false penalty_forbidden (pos 0) (pos 1) now (quot ban_ttl millisecond)
          e.cfg.window
    some (block (codes "penalty_forbidden") now (record d { status_code = pos 403 }) e1)

  unfoldable pub penalty_stage :
      w.Request → Bytes → Bytes → ℤ → ℤ → ℤ → Engine w x → Option (Decision × Engine w x)
  penalty_stage r ip key now later limit e =
      if is_empty ip
      then bloom_stage r ip key now limit e
      else (let (boxed, ttl, e1) = is_in_penalty w x ip now e in
          if boxed
          then (if passes_penalty_checks w x (some (x.view r)) e1
              then bloom_stage r ip key now (if ltb_ℤ (pos 1) limit then pos 1 else limit) (
                  if ltb_ℤ (pos 0) ttl
                  then emit w x
                      (count w x (codes "penalty_box_hits_total") (codes "mode") (codes "strict"))
                      e1
                  else e1)
              else forbid ip now later e1)
          else bloom_stage r ip key now limit e1)

  -- The local cache of bans.
  unfoldable pub cache_stage :
      w.Request → Bytes → Bytes → ℤ → ℤ → ℤ → Engine w x → Option (Decision × Engine w x)
  cache_stage r ip key now later limit e =
      if is_empty ip
      then penalty_stage r ip key now later limit e
      else (let (banned, cache) = is_blacklisted x.lru ip now e.cache in
          let e1 = record e { cache = cache } in
          if banned
          then some (
              block (codes "cache_blacklist") now
                (new_decision false blacklisted limit now e.cfg.window)
                (emit w x inc_blacklisted e1))
          else penalty_stage r ip key now later limit e1)

  -- `Process`.
  unfoldable pub process : w.Request → ℤ → ℤ → Engine w x → Option (Decision × Engine w x)
  process r now later e =
      let ip = ip_of e r in
      let key = key_of e r in
      let (limit, e1) = limit_for ip now e in cache_stage r ip key now later limit e1

  -- `Check`.
  unfoldable pub check : w.Request → ℤ → ℤ → Engine w x → Option ((Bool × Reason × ℤ) × Engine w x)
  check r now later e = do
    (d, e') ← process r now later e
    some ((d.is_allowed, d.reason, d.counter), e')
