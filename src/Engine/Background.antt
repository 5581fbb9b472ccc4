-- ===== src/Engine/Background.antt =====
-- engine_background.go and engine_reputation.go: what a worker does with a snapshot. It reads the
-- clock at most once before the adaptive ban, `now`, and at most once in it, `later`.
pub mod Effects
pub mod Reactions
pub mod Banned
pub mod Adaptive
use guard_go.Base.{
  ℕ, ◌≡◌, Bool, true, false, Option, none, some, List, [], ◌∷◌, ◌++◌, if◌then◌else◌, ◌>>=◌,
}
use guard_go.Base.Int.{ℤ, pos, leb_ℤ, ◌+ℤ◌, ◌*ℤ◌, wrap64, quot}
use guard_go.Text.{Bytes, codes, is_empty, to_lower, trim_space}
use guard_go.Config.{World}
use guard_go.Floats.{nought}
use guard_go.Http.{HttpRequest}
use guard_go.Behavior
use guard_go.Redis.{Commands, Keys, Levels, Verdict, reputation}
use guard_go.Decision.{millisecond}
use guard_go.Cache.{blacklist}
use guard_go.Engine.{
  Site, Engine, Event, Snapshot, inc_redis_errors, stat, emit, tell_error, round_trip, bloom_add,
}
use guard_go.Engine.Penalty.{count, blacklist_key, penalty_key, ban_ip, set_penalty}
use guard_go.Engine.Replies.{Cell, integer, LuaValue, single, array, as_int, is_code}
use guard_go.Engine.Keys.{attempts_key, threat_key, score_key}
use guard_go.Engine.Scoring.{evaluate_ruleset}

-- The reply of the reputation script: action, duration of the ban, attempts.
unfoldable pub parse_reputation : LuaValue → ℤ × ℤ × ℤ
parse_reputation (array (a ∷ b ∷ c ∷ d ∷ cells)) =
    (as_int b, wrap64 (as_int c *ℤ pos millisecond), as_int d)
parse_reputation _ = (pos 0, pos 0, pos 0)

-- The request that `processSnapshot` makes of a snapshot.
unfoldable pub request_of : Snapshot → HttpRequest
request_of s = record {
  method = s.method;
  host = s.host;
  url = some (record { path = s.path; raw_query = s.raw_query });
  header = s.header;
}

module _ (w : World) (x : Site w) where
  unfoldable pub fingerprint : Bytes → Bytes → Bytes → Bytes
  fingerprint ip ua lang =
      let clean = λ (s : Bytes). to_lower x.unicode (trim_space x.unicode s) in
      x.hex (x.hash64 (clean ip ++ (codes "|" ++ (clean ua ++ (codes "|" ++ clean lang)))))

  unfoldable pub reputation_field : Snapshot → Bytes
  unfolding fingerprint
  reputation_field s = s.ip ++ (codes "|" ++ fingerprint s.ip s.ua s.lang)

  unfoldable pub reputation_keys : Bytes → Bytes → Keys
  reputation_keys prefix ip = record {
    hash = score_key prefix;
    penalty = penalty_key prefix ip;
    blacklist = blacklist_key prefix ip;
    attempts = attempts_key prefix ip;
  }

  unfoldable pub levels_of : Engine w x → Levels x.redis
  levels_of e = record {
    score_window = quot e.cfg.reputation.score_window millisecond;
    warning = x.number e.cfg.reputation.warning_level;
    threshold = x.number e.cfg.reputation.threshold;
    penalty_ttl = quot e.cfg.reputation.penalty_ttl millisecond;
    backoff_window = quot e.cfg.reputation.backoff_window millisecond;
    ban1 = quot e.cfg.reputation.ban_level1 millisecond;
    ban2 = quot e.cfg.reputation.ban_level2 millisecond;
    ban3 = quot e.cfg.reputation.ban_level3 millisecond;
  }

  -- How the client hands over the script's reply.
  abbrev pub lua_verdict : Verdict x.redis → LuaValue
  lua_verdict v = array (
      integer (x.whole v.score)
      ∷ integer (pos v.action)
      ∷ integer v.ban_ttl
      ∷ integer (pos v.attempts)
      ∷ [])

  -- `applyReputationScore`; `none` is its error.
  unfoldable pub apply_reputation_score :
      Snapshot → w.Float → Engine w x → Option (ℤ × ℤ × ℤ) × Engine w x
  apply_reputation_score s score e =
      let (reply, e1) =
        round_trip w x
          (reputation x.redis (reputation_keys e.cfg.prefix s.ip) (levels_of e) (reputation_field s)
            (x.number score))
          e in
      (elim reply [ none ↦ none | some v ↦ some (parse_reputation (lua_verdict v)) ], e1)

  -- The score of `processSnapshot`, in the order of its sums.
  unfoldable pub add_rules : HttpRequest → List w.Rule → w.Float → w.Float
  add_rules r [] score = score
  add_rules r (rule ∷ rules) score =
      add_rules r rules (x.arithmetic.add score (x.arithmetic.from_int (x.evaluate rule r)))

  unfoldable pub add_evaluators : HttpRequest → List w.Evaluator → w.Float → w.Float
  add_evaluators r [] score = score
  add_evaluators r (v ∷ vs) score =
      add_evaluators r vs (x.arithmetic.add score (x.calculate_score v r))

  unfoldable pub add_ruleset : HttpRequest → w.Float → Engine w x → Option (w.Float × Engine w x)
  add_ruleset r score e = elim e.compiled [
    | none ↦ some (score, e)
    | some c ↦ do
      (n, e1) ← evaluate_ruleset w x r e
      some (x.arithmetic.add score (x.arithmetic.from_int n), e1)
  ]

  unfoldable pub add_behavior : Snapshot → HttpRequest → w.Float → Engine w x → w.Float × Engine w x
  add_behavior s r score e = elim e.behavior [
    | none ↦ (score, e)
    | some store ↦
        let (n, store') = Behavior.observe x.hash64 e.cfg.behavioral s.ip (some r) s.ts store in
        (x.arithmetic.add score (x.arithmetic.from_int n), record e { behavior = some store' })
  ]

  unfoldable pub risk_score : Snapshot → Engine w x → Option (w.Float × Engine w x)
  risk_score s e = do
    let r = request_of s
    let sum = add_evaluators r e.cfg.evaluators (add_rules r e.cfg.rules (nought w))
    (score, e1) ← add_ruleset r sum e
    some (add_behavior s r score e1)

  -- The switch on the action of the reputation script.
  unfoldable pub act_on : Bytes → ℤ → ℤ × ℤ × ℤ → Engine w x → Option (Engine w x)
  act_on ip now (action, ban_ttl, attempts) e =
      if is_code 1 action
      then some (set_penalty w x ip e.cfg.reputation.penalty_ttl now e)
      else (if is_code 2 action
          then (do
            e1 ←
                bloom_add w x ip
                  (record e { cache = blacklist x.lru ip (wrap64 (now +ℤ ban_ttl)) e.cache })
            some (
                emit w x
                  (count w x (codes "reputation_blacklist_total") (codes "attempt")
                    (x.decimal attempts))
                  e1))
          else some e)

  -- An error of Redis in the background, with its name.
  unfoldable pub report : Bytes → Engine w x → Engine w x
  report op e = tell_error w x (
      emit w x (count w x (codes "redis_errors_total") (codes "op") op)
        (emit w x inc_redis_errors e))

  unfoldable pub after_reputation :
      Bytes → ℤ → Option (ℤ × ℤ × ℤ) → Engine w x → Option (Engine w x)
  after_reputation ip now none e = some (report (codes "reputation_lua") e)
  after_reputation ip now (some verdict) e = act_on ip now verdict e

  -- Reputation, or else the penalty box of the behavioural score.
  unfoldable pub react : Snapshot → w.Float → ℤ → Engine w x → Option (Engine w x)
  react s score now e =
      if e.cfg.reputation.enabled
      then (let (verdict, e1) = apply_reputation_score s score e in
          after_reputation s.ip now verdict e1)
      else (if w.at_most (x.arithmetic.from_int e.cfg.behavioral.score_threshold) score
          then some (set_penalty w x s.ip e.cfg.behavioral.penalty_ttl now e)
          else some e)

  -- The adaptive ban: the threat is counted, and at the threshold the address is banned.
  unfoldable pub count_threat : Bytes → ℤ → x.redis.Store → ℕ × x.redis.Store
  count_threat key ttl s =
      let s1 = x.redis.incr key s in
      (x.redis.count key s1, x.redis.pexpire key (x.milliseconds ttl) s1)

  unfoldable pub after_threat : Bytes → ℤ → Option ℕ → Engine w x → Option (Engine w x)
  after_threat ip later none e = some (report (codes "adaptive_ban_increment") e)
  after_threat ip later (some n) e =
      if leb_ℤ e.cfg.adaptive_ban.threat_count_threshold (pos n)
      then (do (done, e1) ← ban_ip w x ip e.cfg.adaptive_ban.ban_ttl later e; some e1)
      else some e

  unfoldable pub adapt : Bytes → ℤ → Engine w x → Option (Engine w x)
  adapt ip later e =
      if e.cfg.adaptive_ban.enabled
      then (let (n, e1) =
            round_trip w x
              (count_threat (threat_key e.cfg.prefix ip) e.cfg.adaptive_ban.threat_key_window) e in
          after_threat ip later n e1)
      else some e

  -- What follows a score above zero.
  unfoldable pub respond : Snapshot → w.Float → ℤ → ℤ → Engine w x → Option (Engine w x)
  respond s score now later e =
      let e1 =
        emit w x (stat (codes "risk_score_add_total") score (codes "source", codes "pipeline")) e in
      if is_empty s.ip then some e1 else (do e2 ← react s score now e1; adapt s.ip later e2)

  -- `processSnapshot`.
  unfoldable pub process_snapshot : Snapshot → ℤ → ℤ → Engine w x → Option (Engine w x)
  process_snapshot s now later e = do
    (score, e1) ← risk_score s e
    if w.at_most score (nought w) then some e1 else respond s score now later e1
