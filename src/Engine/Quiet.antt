-- ===== src/Engine/Quiet.antt =====
-- engine_process.go: what the steps before the decision leave as it is.
use guard_go.Base.{
  ℕ, ◌+◌, ◌≡◌, ◌∙◌, refl, Bool, true, false, Option, none, some, List, [], ◌∷◌, ◌>>=◌, Bool-cases,
  Option-cases, inl, inr,
}
use guard_go.Base.Int.{ℤ, pos, leb_ℤ, ◌+ℤ◌, ◌*ℤ◌, wrap64}
use guard_go.Text.{Bytes, codes, is_empty}
use guard_go.Config.{World}
use guard_go.Bloom.{Filter, IsValid}
use guard_go.Bloom.Membership.{add_total}
use guard_go.Cache.{is_blacklisted, blacklist}
use guard_go.Decision.{millisecond}
use guard_go.Engine.{
  Site, Engine, Event, inc_allowed, request_stat, inc_redis_errors, round_trip, tell_error,
  add_known, bloom_add, emit,
}
use guard_go.Engine.Penalty.{
  count, ban_ip, ban_command, blacklist_key, penalty_key, is_in_penalty, penalty_reply,
}
use guard_go.Engine.Process.{limit_for}

module _ (w : World) where
  -- The statuses of the statistic requests_total, and how often IncAllowed was called.
  abbrev pub statuses : List (Event w) → List Bytes
  statuses [] = []
  statuses (request_stat status source ∷ events) = status ∷ statuses events
  statuses (_ ∷ events) = statuses events

  abbrev pub allowances : List (Event w) → ℕ
  allowances [] = 0
  allowances (inc_allowed ∷ events) = 1 + allowances events
  allowances (_ ∷ events) = allowances events

-- The bloom filter is one that New has built, if there is one.
abbrev pub FilterIsValid : Option Filter → Type 0
FilterIsValid none = Unit
FilterIsValid (some f) = IsValid f

pub add_known-FilterIsValid :
    (ip : Bytes) (bf : Option Filter)
    → FilterIsValid bf
    → (bf' : Option Filter) × (add_known ip bf ≡ some bf') × FilterIsValid bf'
unfolding add_known
add_known-FilterIsValid ip none v = (none, refl, tt)
add_known-FilterIsValid ip (some f) v =
    let (g, added, valid, _, _, _) = add_total f ip v in (some g, rw (added, ◌>>=◌) refl, valid)

module _ (w : World) (x : Site w) where
  -- A step that judges no request.
  pub record IsQuiet (e e' : Engine w x) : Type 0 where
    pub same_statuses : statuses w e'.events ≡ statuses w e.events
    pub same_allowances : allowances w e'.events ≡ allowances w e.events
    pub same_cfg : e'.cfg ≡ e.cfg
    pub valid : FilterIsValid e'.bf

  pub IsQuiet-trans : (e e1 e2 : Engine w x) → IsQuiet e e1 → IsQuiet e1 e2 → IsQuiet e e2
  IsQuiet-trans e e1 e2 p q = record {
    same_statuses = q.same_statuses ∙ p.same_statuses;
    same_allowances = q.same_allowances ∙ p.same_allowances;
    same_cfg = q.same_cfg ∙ p.same_cfg;
    valid = q.valid;
  }

  pub limit_for-IsQuiet :
      (ip : Bytes) (now : ℤ) (e : Engine w x)
      → FilterIsValid e.bf
      → IsQuiet e ((limit_for w x ip now e).1)
  unfolding limit_for
  limit_for-IsQuiet ip now e v = elim (Option-cases e.sh) [
    | inl no_healing ↦
        rw no_healing
          (record { same_statuses = refl; same_allowances = refl; same_cfg = refl; valid = v })
    | inr (s, healing) ↦
        rw healing
          (record { same_statuses = refl; same_allowances = refl; same_cfg = refl; valid = v })
  ]

  pub round_trip-IsQuiet :
      {A : Type 0} (command : x.redis.Store → A × x.redis.Store) (e : Engine w x)
      → FilterIsValid e.bf
      → IsQuiet e ((round_trip w x command e).1)
  unfolding round_trip
  round_trip-IsQuiet command e v = record {
    same_statuses = refl;
    same_allowances = refl;
    same_cfg = refl;
    valid = v;
  }

  tell_error-IsQuiet : (e : Engine w x) → FilterIsValid e.bf → IsQuiet e (tell_error w x e)
  unfolding tell_error
  tell_error-IsQuiet e v = elim (Option-cases e.cfg.on_error) [
    | inl silent ↦
        rw silent
          (record { same_statuses = refl; same_allowances = refl; same_cfg = refl; valid = v })
    | inr (f, told) ↦
        rw told
          (record { same_statuses = refl; same_allowances = refl; same_cfg = refl; valid = v })
  ]

  -- The events of an error of Redis.
  pub report-IsQuiet :
      (name label value : Bytes) (e : Engine w x)
      → FilterIsValid e.bf
      → IsQuiet e
          (tell_error w x (emit w x (count w x name label value) (emit w x inc_redis_errors e)))
  report-IsQuiet name label value e v =
      let e1 : Engine w x = emit w x (count w x name label value) (emit w x inc_redis_errors e) in
      IsQuiet-trans e e1 (tell_error w x e1)
        (record { same_statuses = refl; same_allowances = refl; same_cfg = refl; valid = v })
        (tell_error-IsQuiet e1 v)

  pub bloom_add-IsQuiet :
      (ip : Bytes) (e : Engine w x)
      → FilterIsValid e.bf
      → (e' : Engine w x) × (bloom_add w x ip e ≡ some e') × IsQuiet e e'
  unfolding bloom_add
  bloom_add-IsQuiet ip e v =
      let (bf, added, valid) = add_known-FilterIsValid ip e.bf v in
      (
        record e { bf = bf },
        rw (added, ◌>>=◌) refl,
        record { same_statuses = refl; same_allowances = refl; same_cfg = refl; valid = valid },
      )

  penalty_reply-IsQuiet :
      (ip : Bytes) (now : ℤ) (reply : Option ℤ) (e : Engine w x)
      → FilterIsValid e.bf
      → IsQuiet e ((penalty_reply w x ip now reply e).2)
  unfolding penalty_reply
  penalty_reply-IsQuiet ip now none e v = record {
    same_statuses = refl;
    same_allowances = refl;
    same_cfg = refl;
    valid = v;
  }
  penalty_reply-IsQuiet ip now (some millis) e v =
      elim (Bool-cases (leb_ℤ (wrap64 (millis *ℤ pos millisecond)) (pos 0))) [
        | inl out ↦
            rw out
              (record { same_statuses = refl; same_allowances = refl; same_cfg = refl; valid = v })
        | inr boxed ↦
            rw boxed
              (record { same_statuses = refl; same_allowances = refl; same_cfg = refl; valid = v })
      ]

  pub is_in_penalty-IsQuiet :
      (ip : Bytes) (now : ℤ) (e : Engine w x)
      → FilterIsValid e.bf
      → IsQuiet e ((is_in_penalty w x ip now e).2)
  unfolding is_in_penalty
  is_in_penalty-IsQuiet ip now e v =
      let e1 : Engine w x = record e { pbox = (is_blacklisted x.lru ip now e.pbox).1 } in
      let kept : IsQuiet e e1 = record {
        same_statuses = refl;
        same_allowances = refl;
        same_cfg = refl;
        valid = v;
      } in
      elim (Bool-cases ((is_blacklisted x.lru ip now e.pbox).0)) [
        | inl boxed ↦ rw boxed kept
        | inr free ↦
            let ask : x.redis.Store → ℤ × x.redis.Store =
              λ s. (x.redis.pttl (penalty_key e.cfg.prefix ip) s, s) in
            let trip = round_trip w x ask e1 in
            rw free (
              IsQuiet-trans e e1 _ kept (
                IsQuiet-trans e1 trip.1 _ (round_trip-IsQuiet ask e1 v)
                  (penalty_reply-IsQuiet ip now trip.0 trip.1 (round_trip-IsQuiet ask e1 v).valid)))
      ]

  pub ban_ip-IsQuiet :
      (ip : Bytes) (ttl now : ℤ) (e : Engine w x)
      → FilterIsValid e.bf
      → (done : Bool) × (e' : Engine w x) × (ban_ip w x ip ttl now e ≡ some (done, e'))
        × IsQuiet e e'
  unfolding ban_ip
  ban_ip-IsQuiet ip ttl now e v = elim (Bool-cases (is_empty ip)) [
    | inl unnamed ↦ (
      true,
      e,
      rw unnamed refl,
      record { same_statuses = refl; same_allowances = refl; same_cfg = refl; valid = v },
    )
    | inr named ↦
        let command = ban_command w x (blacklist_key e.cfg.prefix ip) ttl in
        let trip = round_trip w x command e in
        let quiet = round_trip-IsQuiet command e v in
        elim (Option-cases trip.0) [
          | inl lost ↦
              let report =
                report-IsQuiet (codes "redis_errors_total") (codes "op") (codes "ban_ip") trip.1
                  quiet.valid in
              (false, _, rw (named, lost) refl, IsQuiet-trans e trip.1 _ quiet report)
          | inr (done, sent) ↦
              let e1 : Engine w x = record trip.1 {
                cache = blacklist x.lru ip (wrap64 (now +ℤ ttl)) trip.1.cache;
              } in
              let kept : IsQuiet trip.1 e1 = record {
                same_statuses = refl;
                same_allowances = refl;
                same_cfg = refl;
                valid = quiet.valid;
              } in
              let (e2, added, last) = bloom_add-IsQuiet ip e1 quiet.valid in
              (
                true,
                e2,
                rw (named, sent, added, ◌>>=◌) refl,
                IsQuiet-trans e trip.1 e2 quiet (IsQuiet-trans trip.1 e1 e2 kept last),
              )
        ]
  ]
