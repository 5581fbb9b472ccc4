-- ===== src/SelfHealing.antt =====
-- self_healing.go: the limiter that tightens the limit under a spike from one address. Instants and
-- durations are nanoseconds; the counters are ints, which a window does not overflow. Each method runs
-- under the mutex, so the calls of goroutines are a sequence.
pub mod Invariant
use guard_go.Base.{ℕ, ◌+◌, ◌≡◌, Bool, true, false, ◌||◌, List, [], ◌∷◌, if◌then◌else◌, ltb}
use guard_go.Base.Int.{ℤ, pos, leb_ℤ, ltb_ℤ, ◌-ℤ◌}
use guard_go.Text.{Bytes, is_empty, same_text}
use guard_go.Config.{World, SelfHealingConfig}
use guard_go.Floats.{Arithmetic, one}
use guard_go.Decision.{
  Reason, Decision, fail_open, allowed, rate_limited, blacklisted, redis_error, penalty_forbidden,
  other,
}

pub record Healing (w : World) : Type 0 where
  pub window_start : ℤ
  pub total : ℕ
  pub clean : ℕ
  pub per_ip : Bytes → ℕ
  pub multiplier : w.Float

-- `d.Reason == ReasonFailOpen`.
abbrev pub is_fail_open : Reason → Bool
is_fail_open fail_open = true
is_fail_open allowed = false
is_fail_open rate_limited = false
is_fail_open blacklisted = false
is_fail_open redis_error = false
is_fail_open penalty_forbidden = false
is_fail_open (other n) = false

-- A call of `effectiveLimit` or of `observe`.
pub data Call : Type 0 where
  limit : Bytes → ℤ → ℤ → Call
  saw : Decision → ℤ → Call

module _ (w : World) (f : Arithmetic w) (cfg : SelfHealingConfig w) where
  -- `newSelfHealingState`, at the instant of its `time.Now()`.
  unfoldable pub new_healing : ℤ → Healing w
  new_healing now = record {
    window_start = now;
    total = 0;
    clean = 0;
    per_ip = λ ip. 0;
    multiplier = one w;
  }

  -- The multiplier after a window.
  unfoldable pub decay : w.Float → w.Float
  decay m =
      if f.less (one w) m
      then (let m' = f.sub m cfg.decay_step in if f.less m' (one w) then one w else m')
      else m

  -- `rotateWindowIfNeeded`.
  unfoldable pub rotate : ℤ → Healing w → Healing w
  rotate now s = if ltb_ℤ (now -ℤ s.window_start) cfg.window then s else record {
    window_start = now;
    total = 0;
    clean = 0;
    per_ip = λ ip. 0;
    multiplier = decay s.multiplier;
  }

  -- The multiplier of a client with that many requests in the window.
  unfoldable pub raise_multiplier : ℕ → ℤ → w.Float → w.Float
  raise_multiplier ip_count base m =
      let product = f.mul (f.from_int base) cfg.spike_factor in
      let trigger = if f.less product (one w) then one w else product in
      if f.less trigger (f.from_int (pos ip_count))
      then (let spike = f.div (f.from_int (pos ip_count)) trigger in
          if f.less m spike then f.min cfg.max_sensitivity spike else m)
      else m

  -- The branch `ip != ""` of `effectiveLimit`.
  unfoldable pub count_client : Bytes → ℤ → Healing w → Healing w
  count_client ip base s =
      let s' = record s { per_ip = λ j. if same_text j ip then s.per_ip j + 1 else s.per_ip j } in
      if leb_ℤ cfg.min_samples (pos s.total)
      then (let ratio =
            f.div (f.from_int (pos s.clean))
              (f.from_int (pos (if ltb s.total 1 then 1 else s.total))) in
          if w.at_most cfg.clean_traffic_threshold ratio
          then record s' { multiplier = raise_multiplier (s.per_ip ip + 1) base s.multiplier }
          else s')
      else s'

  unfoldable pub watch : Bytes → ℤ → Healing w → Healing w
  watch ip base s = if is_empty ip then s else count_client ip base s

  -- `effectiveLimit`.
  unfoldable pub effective_limit : Bytes → ℤ → ℤ → Healing w → ℤ × Healing w
  effective_limit ip base now s =
      let s' = watch ip base (rotate now s) in
      let quotient = f.to_int (f.div (f.from_int base) s'.multiplier) in
      (if ltb_ℤ quotient (pos 1) then pos 1 else quotient, s')

  -- `observe`.
  unfoldable pub observe : Decision → ℤ → Healing w → Healing w
  observe d now s =
      let s' = rotate now s in
      record s' {
        total = s'.total + 1;
        clean = if d.is_allowed || is_fail_open d.reason then s'.clean + 1 else s'.clean;
      }

  -- The state after calls, from the first to the last.
  unfoldable pub after_calls : List Call → Healing w → Healing w
  after_calls [] s = s
  after_calls (limit ip base now ∷ calls) s = after_calls calls ((effective_limit ip base now s).1)
  after_calls (saw d now ∷ calls) s = after_calls calls (observe d now s)
