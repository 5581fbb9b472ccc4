-- ===== src/Tests/DecisionTests.antt =====
-- decision.go at concrete inputs.
use guard_go.Base.{◌≡◌, ◌*◌, refl, true, arith}
use guard_go.Base.Int.{pos, ◌+ℤ◌}
use guard_go.Decision.{allowed, new_decision_with_ttl, millisecond}
use guard_go.Decision.Bounds.{new_decision_with_ttl_lem, new_decision_with_ttl-fallback}

new_decision_with_ttl_lem_example :
    ((new_decision_with_ttl true allowed (pos 3) (pos 10) (pos 7) (pos 250) (pos 0)).remaining
      ≡ pos 7)
    × ((new_decision_with_ttl true allowed (pos 3) (pos 10) (pos 7) (pos 250) (pos 0)).reset_at
        ≡ pos 7 +ℤ pos (250 * millisecond))
new_decision_with_ttl_lem_example =
    new_decision_with_ttl_lem true allowed 3 10 250 (pos 7) (pos 0) (omega arith) (omega arith)
      (omega arith) (omega arith)

new_decision_with_ttl-fallback_example :
    (new_decision_with_ttl true allowed (pos 3) (pos 10) (pos 7) (pos 0) (pos 1000000000)).reset_at
    ≡ pos 7 +ℤ pos (1000 * millisecond)
new_decision_with_ttl-fallback_example =
    new_decision_with_ttl-fallback true allowed (pos 3) (pos 10) (pos 7) (pos 0) 1000000000 refl
      (omega arith)
