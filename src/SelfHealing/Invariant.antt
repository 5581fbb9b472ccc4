-- ===== src/SelfHealing/Invariant.antt =====
-- self_healing.go: the state stays sane over any calls, and the limit stays between 1 and the base.
use guard_go.Base.{
  ℕ, ◌+◌, ◌^◌, ◌≤◌, ◌<◌, ◌≡◌, true, ◌||◌, List, [], ◌∷◌, arith, if◌then◌else◌, ltb, Bool-cases, inl,
  inr,
}
use guard_go.Base.Int.{ℤ, pos, leb_ℤ, ltb_ℤ, ◌≤ℤ◌, ◌-ℤ◌}
use guard_go.Text.{Bytes, is_empty, same_text}
use guard_go.Config.{World, SelfHealingConfig}
use guard_go.Config.Positive.{IsSelfHealing}
use guard_go.Floats.{Arithmetic, one, nought}
use guard_go.Decision.{Decision}
use guard_go.SelfHealing.{
  Healing, Call, limit, saw, after_calls, is_fail_open, new_healing, decay, rotate,
  raise_multiplier, count_client, watch, effective_limit, observe,
}

-- The numbers of the settings are numbers.
pub record IsFinite {w : World} (f : Arithmetic w) (cfg : SelfHealingConfig w) : Type 0 where
  pub sensitivity : f.finite cfg.max_sensitivity ≡ true
  pub step : f.finite cfg.decay_step ≡ true

-- The multiplier stands between 1 and the largest sensitivity, and clean requests are requests.
pub record IsSane {w : World} (f : Arithmetic w) (cfg : SelfHealingConfig w) (s : Healing w)
    : Type 0 where
  pub finite : f.finite s.multiplier ≡ true
  pub above : w.at_most (one w) s.multiplier ≡ true
  pub below : w.at_most s.multiplier cfg.max_sensitivity ≡ true
  pub counted : s.clean ≤ s.total

module _ (w : World) (f : Arithmetic w) (cfg : SelfHealingConfig w) (complete : IsSelfHealing w cfg)
    (numbers : IsFinite f cfg) where
  max_above : w.at_most (one w) cfg.max_sensitivity ≡ true
  max_above =
      f.at_most_total cfg.max_sensitivity (one w) numbers.sensitivity (f.literal_finite 100)
        complete.sensitivity

  step_above : w.at_most (nought w) cfg.decay_step ≡ true
  step_above =
      f.at_most_total cfg.decay_step (nought w) numbers.step (f.literal_finite 0) complete.decay

  -- A multiplier between 1 and the largest sensitivity.
  abbrev IsBounded : w.Float → Type 0
  IsBounded m =
      (f.finite m ≡ true) × (w.at_most (one w) m ≡ true) × (w.at_most m cfg.max_sensitivity ≡ true)

  one-IsBounded : IsBounded (one w)
  one-IsBounded = (f.literal_finite 100, f.at_most_refl (one w) (f.literal_finite 100), max_above)

  decay-IsBounded : (m : w.Float) → IsBounded m → IsBounded (decay w f cfg m)
  unfolding decay
  decay-IsBounded m b = elim (Bool-cases (f.less (one w) m)) [
    | inr rest ↦ rw rest b
    | inl higher ↦
        let m' : w.Float = f.sub m cfg.decay_step in
        let fin : f.finite m' ≡ true =
          f.sub_finite m cfg.decay_step b.0 numbers.step b.1 step_above in
        elim (Bool-cases (f.less m' (one w))) [
          | inl under ↦ rw (higher, under) one-IsBounded
          | inr over ↦
              rw (higher, over)
                (
                  fin,
                  f.not_less m' (one w) fin (f.literal_finite 100) over,
                  f.at_most_trans m' m cfg.max_sensitivity
                      (f.sub_at_most m cfg.decay_step b.0 numbers.step step_above) b.2,
                )
        ]
  ]

  raise_multiplier-IsBounded :
      (n : ℕ) (base : ℤ) (m : w.Float) → IsBounded m → IsBounded (raise_multiplier w f cfg n base m)
  unfolding raise_multiplier
  raise_multiplier-IsBounded n base m b =
      let product : w.Float = f.mul (f.from_int base) cfg.spike_factor in
      let trigger : w.Float = if f.less product (one w) then one w else product in
      let spike : w.Float = f.div (f.from_int (pos n)) trigger in
      elim (Bool-cases (f.less trigger (f.from_int (pos n)))) [
        | inr calm ↦ rw calm b
        | inl hot ↦ elim (Bool-cases (f.less m spike)) [
          | inr lower ↦ rw (hot, lower) b
          | inl higher ↦
              let above : w.at_most (one w) spike ≡ true =
                f.at_most_trans (one w) m spike b.1 (f.less_at_most m spike higher) in
              rw (hot, higher)
                (
                  f.min_finite cfg.max_sensitivity spike numbers.sensitivity above,
                  f.min_above (one w) cfg.max_sensitivity spike max_above above,
                  f.min_at_most cfg.max_sensitivity spike numbers.sensitivity above,
                )
        ]
      ]

  rotate-IsSane : (now : ℤ) (s : Healing w) → IsSane f cfg s → IsSane f cfg (rotate w f cfg now s)
  unfolding rotate
  rotate-IsSane now s h = elim (Bool-cases (ltb_ℤ (now -ℤ s.window_start) cfg.window)) [
    | inl within ↦ rw within h
    | inr over ↦
        let m = decay-IsBounded s.multiplier (h.finite, h.above, h.below) in
        rw over (record { finite = m.0; above = m.1; below = m.2; counted = omega arith })
  ]

  with_multiplier-IsSane :
      (s : Healing w) (counts : Bytes → ℕ) (m : w.Float)
      → IsSane f cfg s
      → IsBounded m
      → IsSane f cfg (record s { per_ip = counts; multiplier = m })
  with_multiplier-IsSane s counts m h b = record {
    finite = b.0;
    above = b.1;
    below = b.2;
    counted = h.counted;
  }

  count_client-IsSane :
      (ip : Bytes) (base : ℤ) (s : Healing w)
      → IsSane f cfg s
      → IsSane f cfg (count_client w f cfg ip base s)
  unfolding count_client
  count_client-IsSane ip base s h =
      let counts : Bytes → ℕ = λ j. if same_text j ip then s.per_ip j + 1 else s.per_ip j in
      let same : IsBounded s.multiplier = (h.finite, h.above, h.below) in
      elim (Bool-cases (leb_ℤ cfg.min_samples (pos s.total))) [
        | inr few ↦ rw few (with_multiplier-IsSane s counts s.multiplier h same)
        | inl many ↦
            elim (Bool-cases (
              w.at_most cfg.clean_traffic_threshold (
                f.div (f.from_int (pos s.clean))
                  (f.from_int (pos (if ltb s.total 1 then 1 else s.total)))))) [
                    | inr dirty ↦
                        rw (many, dirty) (with_multiplier-IsSane s counts s.multiplier h same)
                    | inl usual ↦
                        rw (many, usual)
                          (with_multiplier-IsSane s counts _ h
                            (raise_multiplier-IsBounded (s.per_ip ip + 1) base s.multiplier same))
                  ]
      ]

  watch-IsSane :
      (ip : Bytes) (base : ℤ) (s : Healing w)
      → IsSane f cfg s
      → IsSane f cfg (watch w f cfg ip base s)
  unfolding watch
  watch-IsSane ip base s h = elim (Bool-cases (is_empty ip)) [
    | inl unknown_client ↦ rw unknown_client h
    | inr client ↦ rw client (count_client-IsSane ip base s h)
  ]

  effective_limit-IsSane :
      (ip : Bytes) (base now : ℤ) (s : Healing w)
      → IsSane f cfg s
      → IsSane f cfg ((effective_limit w f cfg ip base now s).1)
  unfolding effective_limit
  effective_limit-IsSane ip base now s h =
      watch-IsSane ip base (rotate w f cfg now s) (rotate-IsSane now s h)

  observe-IsSane :
      (d : Decision) (now : ℤ) (s : Healing w)
      → IsSane f cfg s
      → IsSane f cfg (observe w f cfg d now s)
  unfolding observe
  observe-IsSane d now s h =
      let r = rotate-IsSane now s h in
      record {
        finite = r.finite;
        above = r.above;
        below = r.below;
        counted = elim (Bool-cases (d.is_allowed || is_fail_open d.reason)) [
          | inl good ↦ rw good (omega (arith, r.counted))
          | inr bad ↦ rw bad (omega (arith, r.counted))
        ];
      }

  new_healing-IsSane : (now : ℤ) → IsSane f cfg (new_healing w f cfg now)
  unfolding new_healing
  new_healing-IsSane now = record {
    finite = one-IsBounded.0;
    above = one-IsBounded.1;
    below = one-IsBounded.2;
    counted = omega arith;
  }

  -- For a base limit from 1 to below 2^53 the effective limit stands between 1 and the base.
  pub effective_limit_bounds :
      (ip : Bytes) (base : ℕ) (now : ℤ) (s : Healing w)
      → 0 < base
      → base < 2 ^ 53
      → IsSane f cfg s
      → (pos 1 ≤ℤ (effective_limit w f cfg ip (pos base) now s).0)
        × ((effective_limit w f cfg ip (pos base) now s).0 ≤ℤ pos base)
  unfolding effective_limit
  effective_limit_bounds ip base now s positive small h =
      let s' : Healing w = watch w f cfg ip (pos base) (rotate w f cfg now s) in
      let sane = watch-IsSane ip (pos base) (rotate w f cfg now s) (rotate-IsSane now s h) in
      let quotient : ℤ = f.to_int (f.div (f.from_int (pos base)) s'.multiplier) in
      let under : quotient ≤ℤ pos base =
        f.quotient_at_most base s'.multiplier small sane.finite sane.above in
      elim (Bool-cases (ltb_ℤ quotient (pos 1))) [
        | inl low ↦ rw low (omega arith, omega arith)
        | inr high ↦ rw high (ground (arith, high), under)
      ]

  after_calls-IsSane :
      (calls : List Call) (s : Healing w)
      → IsSane f cfg s
      → IsSane f cfg (after_calls w f cfg calls s)
  unfolding after_calls
  after_calls-IsSane [] s h = h
  after_calls-IsSane (limit ip base now ∷ calls) s h =
      after_calls-IsSane calls _ (effective_limit-IsSane ip base now s h)
  after_calls-IsSane (saw d now ∷ calls) s h = after_calls-IsSane calls _ (observe-IsSane d now s h)

  -- For complete settings whose sensitivity and decay step are finite: after any calls on a new
  -- limiter the multiplier stands between 1 and the largest sensitivity, and no more requests are
  -- counted as clean than are counted.
  pub new_healing-after_calls-IsSane :
      (start : ℤ) (calls : List Call)
      → IsSane f cfg (after_calls w f cfg calls (new_healing w f cfg start))
  new_healing-after_calls-IsSane start calls =
      after_calls-IsSane calls (new_healing w f cfg start) (new_healing-IsSane start)
