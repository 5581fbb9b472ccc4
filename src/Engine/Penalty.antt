-- ===== src/Engine/Penalty.antt =====
-- engine_penalty.go: bans and the penalty box. An expiry is a reading of UnixNano, an int64 that wraps
-- around: `wrap64`.
use guard_go.Base.{Bool, true, false, ◌&&◌, Option, none, some, ◌++◌, if◌then◌else◌, ◌>>=◌}
use guard_go.Base.Int.{ℤ, pos, leb_ℤ, ◌+ℤ◌, ◌*ℤ◌, wrap64}
use guard_go.Text.{Bytes, codes, is_empty, trim_space}
use guard_go.Config.{World}
use guard_go.Http.{HttpRequest}
use guard_go.Decision.{millisecond}
use guard_go.Cache.{blacklist, is_blacklisted}
use guard_go.Engine.{
  Site, Engine, Event, inc_redis_errors, stat, emit, tell_error, round_trip, bloom_add, header_get,
}

-- The keys, from the prefix.
unfoldable pub blacklist_key : Bytes → Bytes → Bytes
blacklist_key prefix ip = prefix ++ (codes ":bl:" ++ ip)

unfoldable pub counter_key : Bytes → Bytes → Bytes
counter_key prefix key = prefix ++ (codes ":rl:" ++ key)

-- `redisKeysFor`.
unfoldable pub redis_keys_for : Bytes → Bytes → Bytes → Bytes × Bytes
redis_keys_for prefix ip key = (blacklist_key prefix ip, counter_key prefix key)

unfoldable pub penalty_key : Bytes → Bytes → Bytes
penalty_key prefix ip = prefix ++ (codes ":pbox:" ++ ip)

module _ (w : World) (x : Site w) where
  -- A statistic of value 1 with one label.
  abbrev pub count : Bytes → Bytes → Bytes → Event w
  count name label value = stat name (w.literal 100) (label, value)

  -- The pipeline of `banIP`.
  unfoldable pub ban_command : Bytes → ℤ → x.redis.Store → Unit {0} × x.redis.Store
  ban_command key ttl s = (tt, x.redis.pexpire key (x.milliseconds ttl) (x.redis.sadd key s))

  -- `banIP`, with the reading of the clock that it takes; the Boolean says that there was no error.
  unfoldable pub ban_ip : Bytes → ℤ → ℤ → Engine w x → Option (Bool × Engine w x)
  ban_ip ip ttl now e =
      if is_empty ip
      then some (true, e)
      else (let (reply, e1) = round_trip w x (ban_command (blacklist_key e.cfg.prefix ip) ttl) e in
          elim reply [
            | none ↦ some (
              false,
              tell_error w x (
                  emit w x (count (codes "redis_errors_total") (codes "op") (codes "ban_ip"))
                    (emit w x inc_redis_errors e1)),
            )
            | some done ↦ do
              e2 ←
                  bloom_add w x ip
                    (record e1 { cache = blacklist x.lru ip (wrap64 (now +ℤ ttl)) e1.cache })
              some (true, e2)
          ])

  -- `isInPenalty`: whether, for how long, and the engine.
  unfoldable pub box_ttl : Engine w x → ℤ
  box_ttl e =
      if e.cfg.reputation.enabled
      then e.cfg.reputation.penalty_ttl
      else e.cfg.behavioral.penalty_ttl

  unfoldable pub penalty_reply : Bytes → ℤ → Option ℤ → Engine w x → Bool × ℤ × Engine w x
  penalty_reply ip now none e = (false, pos 0, e)
  penalty_reply ip now (some millis) e =
      let ttl = wrap64 (millis *ℤ pos millisecond) in
      if leb_ℤ ttl (pos 0)
      then (false, pos 0, e)
      else (true, ttl, record e { pbox = blacklist x.lru ip (wrap64 (now +ℤ ttl)) e.pbox })

  unfoldable pub is_in_penalty : Bytes → ℤ → Engine w x → Bool × ℤ × Engine w x
  is_in_penalty ip now e =
      let (boxed, pbox) = is_blacklisted x.lru ip now e.pbox in
      let e1 = record e { pbox = pbox } in
      if boxed
      then (true, box_ttl e1, e1)
      else (let (reply, e2) =
            round_trip w x (λ s. (x.redis.pttl (penalty_key e.cfg.prefix ip) s, s)) e1 in
          penalty_reply ip now reply e2)

  -- `setPenalty`, with the reading of the clock that it takes.
  unfoldable pub set_penalty : Bytes → ℤ → ℤ → Engine w x → Engine w x
  set_penalty ip ttl now e =
      if is_empty ip
      then e
      else (let (reply, e1) =
            round_trip w x
              (λ s. (tt, x.redis.set_px (penalty_key e.cfg.prefix ip) (x.milliseconds ttl) s)) e in
          elim reply [
            | none ↦
                emit w x (count (codes "redis_errors_total") (codes "op") (codes "set_penalty")) e1
            | some done ↦
                emit w x
                  (count (codes "penalty_box_entries_total") (codes "reason")
                    (codes "risk_threshold"))
                  (record e1 { pbox = blacklist x.lru ip (wrap64 (now +ℤ ttl)) e1.pbox })
          ])

  -- `passesPenaltyChecks`; a request that is nil is `none`.
  unfoldable pub passes_penalty_checks : Option HttpRequest → Engine w x → Bool
  passes_penalty_checks none e = false
  passes_penalty_checks (some r) e =
      if e.cfg.behavioral.require_user_agent
        && is_empty (trim_space x.unicode (header_get w x r.header (codes "User-Agent")))
      then false
      else (if e.cfg.behavioral.require_referer
            && is_empty (trim_space x.unicode (header_get w x r.header (codes "Referer")))
          then false
          else true)
