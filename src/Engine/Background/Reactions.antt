-- ===== src/Engine/Background/Reactions.antt =====
-- engine_background.go: the reactions to a score judge no request and never panic.
use guard_go.Base.{
  ℕ, ◌≡◌, refl, sym, ap, subst, Bool, true, false, Option, none, some, if◌then◌else◌, ◌>>=◌,
  Bool-cases, Option-cases, inl, inr,
}
use guard_go.Base.Int.{ℤ, pos, leb_ℤ, ◌+ℤ◌, wrap64}
use guard_go.Text.{Bytes, codes, is_empty}
use guard_go.Config.{World}
use guard_go.Floats.{nought}
use guard_go.Cache.{blacklist}
use guard_go.Engine.{Site, Engine, Snapshot, stat, emit, round_trip}
use guard_go.Engine.Penalty.{count, set_penalty, penalty_key}
use guard_go.Engine.Replies.{is_code}
use guard_go.Engine.Keys.{threat_key}
use guard_go.Engine.Quiet.{
  statuses, allowances, FilterIsValid, IsQuiet, IsQuiet-trans, round_trip-IsQuiet, report-IsQuiet,
  bloom_add-IsQuiet, ban_ip-IsQuiet,
}
use guard_go.Engine.Bans.{IsInternal}
use guard_go.Engine.Scoring.Scored.{IsRequest}
use guard_go.Engine.Background.{
  request_of, act_on, report, after_reputation, apply_reputation_score, react, count_threat,
  after_threat, adapt, respond, process_snapshot,
}
use guard_go.Engine.Background.Effects.{IsFit, risk_score-IsInternal}

module _ (w : World) (x : Site w) where
  -- A step that ends without a panic and judges no request.
  pub record Ends (e : Engine w x) (m : Option (Engine w x)) : Type 0 where
    pub engine : Engine w x
    pub ends : m ≡ some engine
    pub quiet : IsQuiet w x e engine

  IsQuiet-Ends : (e e' : Engine w x) → IsQuiet w x e e' → Ends e (some e')
  IsQuiet-Ends e e' q = record { engine = e'; ends = refl; quiet = q }

  Ends-after :
      (e e1 : Engine w x) (m : Option (Engine w x)) → IsQuiet w x e e1 → Ends e1 m → Ends e m
  Ends-after e e1 m q t = record {
    engine = t.engine;
    ends = t.ends;
    quiet = IsQuiet-trans w x e e1 t.engine q t.quiet;
  }

  Ends-if :
      (e : Engine w x) (b : Bool) (m m' : Option (Engine w x))
      → Ends e m
      → Ends e m'
      → Ends e (if b then m else m')
  Ends-if e true m m' t f = t
  Ends-if e false m m' t f = f

  kept : (e : Engine w x) → FilterIsValid e.bf → IsQuiet w x e e
  kept e v = record { same_statuses = refl; same_allowances = refl; same_cfg = refl; valid = v }

  IsInternal-IsQuiet :
      (e e1 : Engine w x) → FilterIsValid e.bf → IsInternal w x e e1 → IsQuiet w x e e1
  IsInternal-IsQuiet e e1 v i = record {
    same_statuses = ap (statuses w) i.same_events;
    same_allowances = ap (allowances w) i.same_events;
    same_cfg = i.same_cfg;
    valid = subst FilterIsValid (sym i.same_bf) v;
  }

  set_penalty-IsQuiet :
      (ip : Bytes) (ttl now : ℤ) (e : Engine w x)
      → FilterIsValid e.bf
      → IsQuiet w x e (set_penalty w x ip ttl now e)
  unfolding set_penalty
  set_penalty-IsQuiet ip ttl now e v = elim (Bool-cases (is_empty ip)) [
    | inl unnamed ↦ rw unnamed (kept e v)
    | inr named ↦
        let command : x.redis.Store → Unit {0} × x.redis.Store =
          λ s. (tt, x.redis.set_px (penalty_key e.cfg.prefix ip) (x.milliseconds ttl) s) in
        let trip = round_trip w x command e in
        let quiet = round_trip-IsQuiet w x command e v in
        elim (Option-cases trip.0) [
          | inl lost ↦
              rw (named, lost)
                (record {
                  same_statuses = quiet.same_statuses;
                  same_allowances = quiet.same_allowances;
                  same_cfg = quiet.same_cfg;
                  valid = quiet.valid;
                })
          | inr (done, sent) ↦
              rw (named, sent)
                (record {
                  same_statuses = quiet.same_statuses;
                  same_allowances = quiet.same_allowances;
                  same_cfg = quiet.same_cfg;
                  valid = quiet.valid;
                })
        ]
  ]

  -- The action of the reputation script, whatever it is.
  act_on-Ends :
      (ip : Bytes) (now action ttl attempts : ℤ) (e : Engine w x)
      → FilterIsValid e.bf
      → Ends e (act_on w x ip now (action, ttl, attempts) e)
  unfolding act_on
  act_on-Ends ip now action ttl attempts e v = elim (Bool-cases (is_code 1 action)) [
    | inl warned ↦
        rw warned (IsQuiet-Ends e _ (set_penalty-IsQuiet ip e.cfg.reputation.penalty_ttl now e v))
    | inr unwarned ↦ elim (Bool-cases (is_code 2 action)) [
      | inl banned ↦
          let e1 : Engine w x = record e {
            cache = blacklist x.lru ip (wrap64 (now +ℤ ttl)) e.cache;
          } in
          let (e2, added, quiet) = bloom_add-IsQuiet w x ip e1 v in
          record {
            engine =
                emit w x
                  (count w x (codes "reputation_blacklist_total") (codes "attempt")
                    (x.decimal attempts))
                  e2;
            ends = rw (unwarned, banned, added, ◌>>=◌) refl;
            quiet = record {
              same_statuses = quiet.same_statuses;
              same_allowances = quiet.same_allowances;
              same_cfg = quiet.same_cfg;
              valid = quiet.valid;
            };
          }
      | inr calm ↦ rw (unwarned, calm) (IsQuiet-Ends e e (kept e v))
    ]
  ]

  after_reputation-Ends :
      (ip : Bytes) (now : ℤ) (verdict : Option (ℤ × ℤ × ℤ)) (e : Engine w x)
      → FilterIsValid e.bf
      → Ends e (after_reputation w x ip now verdict e)
  unfolding after_reputation report
  after_reputation-Ends ip now none e v =
      IsQuiet-Ends e _
        (report-IsQuiet w x (codes "redis_errors_total") (codes "op") (codes "reputation_lua") e v)
  after_reputation-Ends ip now (some (action, ttl, attempts)) e v =
      act_on-Ends ip now action ttl attempts e v

  apply_reputation_score-IsQuiet :
      (s : Snapshot) (score : w.Float) (e : Engine w x)
      → FilterIsValid e.bf
      → IsQuiet w x e ((apply_reputation_score w x s score e).1)
  unfolding apply_reputation_score
  apply_reputation_score-IsQuiet s score e v = round_trip-IsQuiet w x _ e v

  react-Ends :
      (s : Snapshot) (score : w.Float) (now : ℤ) (e : Engine w x)
      → FilterIsValid e.bf
      → Ends e (react w x s score now e)
  unfolding react
  react-Ends s score now e v =
      let quiet = apply_reputation_score-IsQuiet s score e v in
      let out = apply_reputation_score w x s score e in
      Ends-if e e.cfg.reputation.enabled _ _
        (Ends-after e out.1 _ quiet (after_reputation-Ends s.ip now out.0 out.1 quiet.valid))
        (Ends-if e (w.at_most (x.arithmetic.from_int e.cfg.behavioral.score_threshold) score) _ _
          (IsQuiet-Ends e _ (set_penalty-IsQuiet s.ip e.cfg.behavioral.penalty_ttl now e v))
          (IsQuiet-Ends e e (kept e v)))

  after_threat-Ends :
      (ip : Bytes) (later : ℤ) (n : Option ℕ) (e : Engine w x)
      → FilterIsValid e.bf
      → Ends e (after_threat w x ip later n e)
  unfolding after_threat report
  after_threat-Ends ip later none e v = IsQuiet-Ends e _ (
      report-IsQuiet w x (codes "redis_errors_total") (codes "op") (codes "adaptive_ban_increment")
        e v)
  after_threat-Ends ip later (some n) e v =
      let (done, e1, banned, quiet) = ban_ip-IsQuiet w x ip e.cfg.adaptive_ban.ban_ttl later e v in
      Ends-if e (leb_ℤ e.cfg.adaptive_ban.threat_count_threshold (pos n)) _ _
        (record { engine = e1; ends = rw (banned, ◌>>=◌) refl; quiet = quiet })
        (IsQuiet-Ends e e (kept e v))

  adapt-Ends :
      (ip : Bytes) (later : ℤ) (e : Engine w x) → FilterIsValid e.bf → Ends e (adapt w x ip later e)
  unfolding adapt
  adapt-Ends ip later e v =
      let command =
        count_threat w x (threat_key e.cfg.prefix ip) e.cfg.adaptive_ban.threat_key_window in
      let trip = round_trip w x command e in
      let quiet = round_trip-IsQuiet w x command e v in
      Ends-if e e.cfg.adaptive_ban.enabled _ _
        (Ends-after e trip.1 _ quiet (after_threat-Ends ip later trip.0 trip.1 quiet.valid))
        (IsQuiet-Ends e e (kept e v))

  respond-Ends :
      (s : Snapshot) (score : w.Float) (now later : ℤ) (e : Engine w x)
      → FilterIsValid e.bf
      → Ends e (respond w x s score now later e)
  unfolding respond
  respond-Ends s score now later e v =
      let e1 : Engine w x =
        emit w x (stat (codes "risk_score_add_total") score (codes "source", codes "pipeline")) e in
      let noted : IsQuiet w x e e1 = record {
        same_statuses = refl;
        same_allowances = refl;
        same_cfg = refl;
        valid = v;
      } in
      elim (Bool-cases (is_empty s.ip)) [
        | inl unnamed ↦ rw unnamed (IsQuiet-Ends e e1 noted)
        | inr named ↦
            let first = react-Ends s score now e1 v in
            let last = adapt-Ends s.ip later first.engine first.quiet.valid in
            record {
              engine = last.engine;
              ends = rw (named, first.ends, last.ends, ◌>>=◌) refl;
              quiet =
                  IsQuiet-trans w x e e1 last.engine noted
                    (IsQuiet-trans w x e1 first.engine last.engine first.quiet last.quiet);
            }
      ]

  -- A worker survives every snapshot: `processSnapshot` ends without a panic, whatever Redis answers,
  -- and it keeps the settings, leaves a valid filter and judges no request (it records no
  -- requests_total and never calls IncAllowed). (The engine's filter and rules are as their
  -- constructors build them, and the request is of bytes.)
  pub process_snapshot-Ends :
      (s : Snapshot) (now later : ℤ) (e : Engine w x)
      → IsFit w x e
      → IsRequest (request_of s)
      → Ends e (process_snapshot w x s now later e)
  unfolding process_snapshot
  process_snapshot-Ends s now later e fit ok =
      let (score, e1, scored, internal) = risk_score-IsInternal w x s e fit ok in
      let quiet = IsInternal-IsQuiet e e1 fit.filter internal in
      elim (Bool-cases (w.at_most score (nought w))) [
        | inl harmless ↦ record {
          engine = e1;
          ends = rw (scored, harmless, ◌>>=◌) refl;
          quiet = quiet;
        }
        | inr risky ↦
            let rest = respond-Ends s score now later e1 quiet.valid in
            record {
              engine = rest.engine;
              ends = rw (scored, risky, ◌>>=◌) rest.ends;
              quiet = IsQuiet-trans w x e e1 rest.engine quiet rest.quiet;
            }
      ]
