-- ===== src/Engine/Judged.antt =====
-- engine_process.go: the stages of `Process`, each of which ends with a decision.
use guard_go.Base.{
  refl, ap, Bool, true, false, Option, none, some, if◌then◌else◌, ◌>>=◌, arith, Bool-cases, inl,
  inr,
}
use guard_go.Base.Int.{ℤ, pos, ltb_ℤ, ◌+ℤ◌, quot, wrap64}
use guard_go.Text.{Bytes, codes, is_empty}
use guard_go.Config.{World}
use guard_go.Bloom.{Filter}
use guard_go.Bloom.Membership.{test-member, member}
use guard_go.Cache.{is_blacklisted, blacklist}
use guard_go.Decision.{
  Decision, blacklisted, fail_open, redis_error, millisecond, new_decision, new_decision_with_ttl,
}
use guard_go.Redis.{Reply, critical_path}
use guard_go.Engine.{
  Site, Engine, inc_blacklisted, inc_rate_limited, inc_redis_errors, observe_lua_latency, emit,
  emit_request, tell_error, round_trip,
}
use guard_go.Engine.Replies.{is_code}
use guard_go.Engine.Penalty.{count, is_in_penalty, passes_penalty_checks, redis_keys_for}
use guard_go.Engine.Process.{
  allow, block, judge_listed, judge_reply, judge_error, judge_script, script_stage, ask_filter,
  bloom_stage, forbid, penalty_stage, cache_stage, ip_of, key_of, process,
}
use guard_go.Engine.Quiet.{
  FilterIsValid, IsQuiet, IsQuiet-trans, limit_for-IsQuiet, round_trip-IsQuiet, report-IsQuiet,
  is_in_penalty-IsQuiet, ban_ip-IsQuiet,
}
use guard_go.Engine.Accounting.{
  status_of, IsJudged, Judges, IsQuiet-Judges, allow-Judges, block-Judges, finish-IsJudged,
  IsJudged-IsQuiet, learn-IsQuiet,
}

module _ (w : World) (x : Site w) where
  judge_listed-Judges :
      (ip : Bytes) (now limit counter ttl : ℤ) (e : Engine w x)
      → FilterIsValid e.bf
      → Judges w x e (judge_listed w x ip now limit counter ttl e)
  unfolding judge_listed new_decision_with_ttl status_of
  judge_listed-Judges ip now limit counter ttl e v =
      let e1 : Engine w x =
        record (emit_request w x (codes "blocked") (codes "redis_blacklist")
          (emit w x inc_blacklisted e)) {
            cache = blacklist x.lru ip (wrap64 (now +ℤ pos 2000000000)) e.cache;
          } in
      let d : Decision =
        new_decision_with_ttl false blacklisted counter limit now ttl e.cfg.window in
      let (e2, learned, quiet) = learn-IsQuiet w x ip e1 v in
      let j : IsJudged w x e d e1 = record {
        accounted = refl;
        admitted = omega arith;
        same_cfg = refl;
        valid = v;
      } in
      let (e', eq, judged) =
        finish-IsJudged w x e now d e2 (IsJudged-IsQuiet w x e e1 d e2 j quiet) in
      (d, e', rw (learned, ◌>>=◌) (ap some eq), judged)

  judge_reply-Judges :
      (r : w.Request) (ip key : Bytes) (now limit code counter ttl : ℤ) (e : Engine w x)
      → FilterIsValid e.bf
      → Judges w x e (judge_reply w x r ip key now limit (code, counter, ttl) e)
  unfolding judge_reply new_decision_with_ttl
  judge_reply-Judges r ip key now limit code counter ttl e v = elim (Bool-cases (is_code 2 code)) [
    | inl listed ↦ rw listed (judge_listed-Judges ip now limit counter ttl e v)
    | inr unlisted ↦ elim (Bool-cases (is_code 1 code)) [
      | inl limited ↦
          rw (unlisted, limited)
            (IsQuiet-Judges w x e (emit w x inc_rate_limited e) _
              (record { same_statuses = refl; same_allowances = refl; same_cfg = refl; valid = v })
              (block-Judges w x (codes "rate_limit") now _ (emit w x inc_rate_limited e) refl v))
      | inr free ↦
          rw (unlisted, free) (allow-Judges w x (codes "lua_allow") r ip key now _ e refl v)
    ]
  ]

  judge_error-Judges :
      (r : w.Request) (ip key : Bytes) (now limit : ℤ) (e : Engine w x)
      → FilterIsValid e.bf
      → Judges w x e (some (judge_error w x r ip key now limit e))
  unfolding judge_error new_decision new_decision_with_ttl
  judge_error-Judges r ip key now limit e v =
      let e1 : Engine w x = tell_error w x (
        emit w x (count w x (codes "redis_errors_total") (codes "op") (codes "critical_path_lua"))
          (emit w x inc_redis_errors e)) in
      let quiet : IsQuiet w x e e1 =
        report-IsQuiet w x (codes "redis_errors_total") (codes "op") (codes "critical_path_lua") e
          v in
      IsQuiet-Judges w x e e1 _ quiet (by_mode e.cfg.fail_open e1 quiet.valid)
    where
      by_mode :
          (mode : Bool) (e1 : Engine w x)
          → FilterIsValid e1.bf
          → Judges w x e1 (
              some (
                if mode
                then allow w x
                    (codes "fail_open")
                    r
                    ip
                    key
                    now
                    (new_decision true fail_open limit now e.cfg.window)
                    e1
                else block w x
                    (codes "redis_error")
                    now
                    (new_decision false redis_error limit now e.cfg.window)
                    e1))
      by_mode true e1 v1 = allow-Judges w x (codes "fail_open") r ip key now _ e1 refl v1
      by_mode false e1 v1 = block-Judges w x (codes "redis_error") now _ e1 refl v1

  judge_script-Judges :
      (reply : Option Reply) (r : w.Request) (ip key : Bytes) (now limit : ℤ) (e : Engine w x)
      → FilterIsValid e.bf
      → Judges w x e (judge_script w x reply r ip key now limit e)
  unfolding judge_script
  judge_script-Judges none r ip key now limit e v = judge_error-Judges r ip key now limit e v
  judge_script-Judges (some answer) r ip key now limit e v =
      judge_reply-Judges r ip key now limit _ _ _ e v

  script_stage-Judges :
      (r : w.Request) (ip key : Bytes) (now limit : ℤ) (e : Engine w x)
      → FilterIsValid e.bf
      → Judges w x e (script_stage w x r ip key now limit e)
  unfolding script_stage
  script_stage-Judges r ip key now limit e v =
      let keys = redis_keys_for e.cfg.prefix ip key in
      let command = critical_path x.redis keys.0 keys.1 (quot e.cfg.window millisecond) limit in
      let trip = round_trip w x command e in
      let quiet = round_trip-IsQuiet w x command e v in
      let e2 : Engine w x = emit w x observe_lua_latency trip.1 in
      let seen : IsQuiet w x trip.1 e2 = record {
        same_statuses = refl;
        same_allowances = refl;
        same_cfg = refl;
        valid = quiet.valid;
      } in
      IsQuiet-Judges w x e e2 _ (IsQuiet-trans w x e trip.1 e2 quiet seen)
        (judge_script-Judges trip.0 r ip key now limit e2 quiet.valid)

  ask_filter-Judges :
      (bf : Option Filter) (r : w.Request) (ip key : Bytes) (now limit : ℤ) (e : Engine w x)
      → FilterIsValid bf
      → FilterIsValid e.bf
      → Judges w x e (ask_filter w x bf r ip key now limit e)
  unfolding ask_filter new_decision new_decision_with_ttl
  ask_filter-Judges none r ip key now limit e vf v = script_stage-Judges r ip key now limit e v
  ask_filter-Judges (some f) r ip key now limit e vf v = elim (Bool-cases (is_empty ip)) [
    | inl unnamed ↦ rw unnamed (script_stage-Judges r ip key now limit e v)
    | inr named ↦ elim (Bool-cases (member f ip)) [
      | inl known ↦
          rw (named, test-member f ip vf, known, ◌>>=◌) (script_stage-Judges r ip key now limit e v)
      | inr fresh ↦
          rw (named, test-member f ip vf, fresh, ◌>>=◌)
            (allow-Judges w x (codes "bloom_negative") r ip key now _ e refl v)
    ]
  ]

  forbid-Judges :
      (ip : Bytes) (now later : ℤ) (e : Engine w x)
      → FilterIsValid e.bf
      → Judges w x e (forbid w x ip now later e)
  unfolding forbid new_decision_with_ttl
  forbid-Judges ip now later e v =
      let ttl : ℤ =
        if e.cfg.reputation.enabled
        then e.cfg.reputation.ban_level3
        else e.cfg.behavioral.penalty_ban_ttl in
      let (done, e1, banned, quiet) = ban_ip-IsQuiet w x ip ttl later e v in
      rw (banned, ◌>>=◌)
        (IsQuiet-Judges w x e e1 _ quiet
          (block-Judges w x (codes "penalty_forbidden") now _ e1 refl quiet.valid))

  penalty_stage-Judges :
      (r : w.Request) (ip key : Bytes) (now later limit : ℤ) (e : Engine w x)
      → FilterIsValid e.bf
      → Judges w x e (penalty_stage w x r ip key now later limit e)
  unfolding penalty_stage bloom_stage
  penalty_stage-Judges r ip key now later limit e v = elim (Bool-cases (is_empty ip)) [
    | inl unnamed ↦ rw unnamed (ask_filter-Judges e.bf r ip key now limit e v v)
    | inr named ↦
        let boxed = is_in_penalty w x ip now e in
        let e1 : Engine w x = boxed.2 in
        let quiet = is_in_penalty-IsQuiet w x ip now e v in
        rw named (IsQuiet-Judges w x e e1 _ quiet (by_box boxed.0 boxed.1 e1 quiet.valid))
  ]
    where
      by_box :
          (inside : Bool) (ttl : ℤ) (e1 : Engine w x)
          → FilterIsValid e1.bf
          → Judges w x e1 (
              if inside
              then (if passes_penalty_checks w x (some (x.view r)) e1
                  then bloom_stage w x r ip key now (if ltb_ℤ (pos 1) limit then pos 1 else limit) (
                      if ltb_ℤ (pos 0) ttl
                      then emit w x
                          (count w x
                            (codes "penalty_box_hits_total")
                            (codes "mode")
                            (codes "strict"))
                          e1
                      else e1)
                  else forbid w x ip now later e1)
              else bloom_stage w x r ip key now limit e1)
      by_box false ttl e1 v1 = ask_filter-Judges e1.bf r ip key now limit e1 v1 v1
      by_box true ttl e1 v1 = elim (Bool-cases (passes_penalty_checks w x (some (x.view r)) e1)) [
        | inr fails ↦ rw fails (forbid-Judges ip now later e1 v1)
        | inl passes ↦ elim (Bool-cases (ltb_ℤ (pos 0) ttl)) [
          | inr untimed ↦ rw (passes, untimed) (ask_filter-Judges e1.bf r ip key now _ e1 v1 v1)
          | inl timed ↦
              rw (passes, timed)
                (IsQuiet-Judges w x e1 _ _
                  (record {
                    same_statuses = refl;
                    same_allowances = refl;
                    same_cfg = refl;
                    valid = v1;
                  })
                  (ask_filter-Judges e1.bf r ip key now _ _ v1 v1))
        ]
      ]

  cache_stage-Judges :
      (r : w.Request) (ip key : Bytes) (now later limit : ℤ) (e : Engine w x)
      → FilterIsValid e.bf
      → Judges w x e (cache_stage w x r ip key now later limit e)
  unfolding cache_stage new_decision new_decision_with_ttl
  cache_stage-Judges r ip key now later limit e v = elim (Bool-cases (is_empty ip)) [
    | inl unnamed ↦ rw unnamed (penalty_stage-Judges r ip key now later limit e v)
    | inr named ↦
        let hit = is_blacklisted x.lru ip now e.cache in
        let e1 : Engine w x = record e { cache = hit.1 } in
        rw named (
          IsQuiet-Judges w x e e1 _
            (record { same_statuses = refl; same_allowances = refl; same_cfg = refl; valid = v })
            (by_hit hit.0 e1 v))
  ]
    where
      by_hit :
          (banned : Bool) (e1 : Engine w x)
          → FilterIsValid e1.bf
          → Judges w x e1 (
              if banned
              then some (
                  block w x
                    (codes "cache_blacklist")
                    now
                    (new_decision false blacklisted limit now e.cfg.window)
                    (emit w x inc_blacklisted e1))
              else penalty_stage w x r ip key now later limit e1)
      by_hit false e1 v1 = penalty_stage-Judges r ip key now later limit e1 v1
      by_hit true e1 v1 =
          IsQuiet-Judges w x e1 (emit w x inc_blacklisted e1) _
            (record { same_statuses = refl; same_allowances = refl; same_cfg = refl; valid = v1 })
            (block-Judges w x (codes "cache_blacklist") now _ (emit w x inc_blacklisted e1) refl v1)

  -- With a bloom filter that New has built, or none, Process does not panic, whatever Redis does. It
  -- adds one statistic requests_total, with the status of its decision, calls IncAllowed once if it
  -- allows the request and never if not, leaves the settings alone and the filter valid.
  pub process-Judges :
      (r : w.Request) (now later : ℤ) (e : Engine w x)
      → FilterIsValid e.bf
      → Judges w x e (process w x r now later e)
  unfolding process
  process-Judges r now later e v =
      let quiet = limit_for-IsQuiet w x (ip_of w x e r) now e v in
      IsQuiet-Judges w x e _ _ quiet
        (cache_stage-Judges r (ip_of w x e r) (key_of w x e r) now later _ _ quiet.valid)
