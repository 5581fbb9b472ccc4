-- ===== src/Decision/Bounds.antt =====
-- decision.go: the numbers of a decision.
use guard_go.Base.{ℕ, ◌*◌, ◌-◌, ◌^◌, ◌<◌, ◌≡◌, refl, ◌/◌, Bool, true, false, arith}
use guard_go.Base.Int.{ℤ, pos, leb_ℤ, ◌+ℤ◌, ◌-ℤ◌, ◌*ℤ◌, wrap64}
use guard_go.Decision.{Reason, millisecond, at_least_zero, new_decision_with_ttl}

remaining_lem :
    (limit counter : ℕ)
    → limit < 2 ^ 63
    → counter < 2 ^ 63
    → at_least_zero (wrap64 (pos limit -ℤ pos counter)) ≡ pos (limit - counter)
unfolding ◌-ℤ◌ wrap64
remaining_lem limit counter hl hc = ground arith

millis_lem :
    (n : ℕ) → n * millisecond < 2 ^ 63 → wrap64 (pos n *ℤ pos millisecond) ≡ pos (n * millisecond)
unfolding ◌*ℤ◌ wrap64
millis_lem n h = ground arith

positive_ttl : (n : ℕ) → 0 < n → leb_ℤ (pos n) (pos 0) ≡ false
positive_ttl n h = ground arith

-- For a limit and a counter that are not negative, the remaining quota is limit - counter, 0 at the
-- least; and a positive time to live below 2^63 nanoseconds puts the reset that long after `now`.
pub new_decision_with_ttl_lem :
    (allow : Bool) (reason : Reason) (counter limit ttl : ℕ) (now window : ℤ)
    → counter < 2 ^ 63
    → limit < 2 ^ 63
    → 0 < ttl
    → ttl * millisecond < 2 ^ 63
    → let d = new_decision_with_ttl allow reason (pos counter) (pos limit) now (pos ttl) window in
      (d.remaining ≡ pos (limit - counter)) × (d.reset_at ≡ now +ℤ pos (ttl * millisecond))
unfolding new_decision_with_ttl
new_decision_with_ttl_lem allow reason counter limit ttl now window hc hl ht hw =
    (remaining_lem limit counter hl hc, rw (positive_ttl ttl ht, millis_lem ttl hw) refl)

-- Without a time to live (0 or less) the reset stands a window after `now`, the window cut to whole
-- milliseconds.
pub new_decision_with_ttl-fallback :
    (allow : Bool) (reason : Reason) (counter limit : ℤ) (now ttl : ℤ) (window : ℕ)
    → leb_ℤ ttl (pos 0) ≡ true
    → window < 2 ^ 63
    → (new_decision_with_ttl allow reason counter limit now ttl (pos window)).reset_at
      ≡ now +ℤ pos (window / millisecond * millisecond)
unfolding new_decision_with_ttl
new_decision_with_ttl-fallback allow reason counter limit now ttl window h hw =
    rw (h, millis_lem (window / millisecond) (omega arith)) refl
