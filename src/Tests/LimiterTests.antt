-- ===== src/Tests/LimiterTests.antt =====
-- self_healing.go and behavior_tracker.go on a few calls.
use guard_go.Base.{◌≡◌, refl, true, false, some, [], ◌∷◌, List, arith, length}
use guard_go.Base.Int.{pos, ◌≤ℤ◌, ◌+ℤ◌}
use guard_go.Config.{SelfHealingConfig, BehavioralConfig}
use guard_go.Config.Defaults.{with_defaults}
use guard_go.Config.Positive.{IsSelfHealing, with_defaults-IsComplete}
use guard_go.Decision.{allowed, new_decision}
use guard_go.SelfHealing.{Healing, Call, limit, saw, after_calls, new_healing, effective_limit}
use guard_go.SelfHealing.Invariant.{
  IsSane, IsFinite, effective_limit_bounds, new_healing-after_calls-IsSane,
}
use guard_go.Behavior.{Behavior, empty_store}
use guard_go.Behavior.Diversity.{after_requests, IsSeen, after_requests-IsSeen}
use guard_go.Tests.ConfigTests.{plain, bare}
use guard_go.Tests.Sites.{hundredths, attack, client}

abbrev healing_settings : SelfHealingConfig plain
healing_settings = (with_defaults plain bare).self_healing

healing-IsSelfHealing : IsSelfHealing plain healing_settings
healing-IsSelfHealing = (with_defaults-IsComplete plain bare).healing

healing-IsFinite : IsFinite hundredths healing_settings
unfolding hundredths
healing-IsFinite = record { sensitivity = refl; step = refl }

abbrev asked : List Call
asked =
    limit client (pos 20) (pos 5)
    ∷ saw (new_decision true allowed (pos 20) (pos 5) (pos 60)) (pos 5)
    ∷ limit client (pos 20) (pos 90)
    ∷ []

abbrev state : Healing plain
state =
    after_calls plain hundredths healing_settings asked
      (new_healing plain hundredths healing_settings (pos 0))

new_healing-after_calls-IsSane_example : IsSane hundredths healing_settings state
new_healing-after_calls-IsSane_example =
    new_healing-after_calls-IsSane plain hundredths healing_settings healing-IsSelfHealing
      healing-IsFinite (pos 0) asked

effective_limit_bounds_example :
    (pos 1 ≤ℤ (effective_limit plain hundredths healing_settings client (pos 20) (pos 95) state).0)
    × ((effective_limit plain hundredths healing_settings client (pos 20) (pos 95) state).0
        ≤ℤ pos 20)
effective_limit_bounds_example =
    effective_limit_bounds plain hundredths healing_settings healing-IsSelfHealing healing-IsFinite
      client 20 (pos 95) state (omega arith) (omega arith)
      (new_healing-after_calls-IsSane plain hundredths healing_settings healing-IsSelfHealing
        healing-IsFinite (pos 0) asked)

abbrev tracking : BehavioralConfig
tracking = record {
  enabled = true;
  risk_window = pos 100;
  score_threshold = pos 2;
  penalty_ttl = pos 10;
  penalty_ban_ttl = pos 10;
  require_user_agent = true;
  require_referer = false;
  query_diversity_threshold = pos 1;
  header_diversity_threshold = pos 2;
  diversity_weight = pos 3;
}

after_requests-IsSeen_example :
    (e : Behavior) × (after_requests
        (λ s. length s)
        tracking
        client
        ((attack, pos 40) ∷ (attack, pos 5) ∷ [])
        empty_store
        client
      ≡ some e)
    × IsSeen (λ s. length s) tracking (pos 5) ((attack, pos 40) ∷ (attack, pos 5) ∷ []) e
unfolding ◌+ℤ◌
after_requests-IsSeen_example =
    after_requests-IsSeen (λ s. length s) tracking client ((attack, pos 40) ∷ []) attack (pos 5)
      empty_store refl refl (refl, tt)
