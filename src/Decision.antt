-- ===== src/Decision.antt =====
-- decision.go: what the engine answers. Instants and durations are numbers of nanoseconds; a duration
-- is an int64. `middleware_http.go` is the first client.
pub mod Bounds
use guard_go.Base.{ℕ, ◌*◌, ◌≡◌, Bool, true, false, ◌&&◌, not, if◌then◌else◌}
use guard_go.Base.Int.{ℤ, pos, negsuc, leb_ℤ, ◌+ℤ◌, ◌-ℤ◌, ◌*ℤ◌, quot, wrap64}
use guard_go.Text.{Bytes, codes}

-- `other` is any further value of the underlying int.
pub data Reason : Type 0 where
  allowed rate_limited blacklisted redis_error fail_open penalty_forbidden : Reason
  other : ℤ → Reason

-- `String`.
unfoldable pub reason_string : Reason → Bytes
reason_string allowed = codes "allowed"
reason_string rate_limited = codes "rate_limited"
reason_string blacklisted = codes "blacklisted"
reason_string redis_error = codes "redis_error"
reason_string fail_open = codes "fail_open"
reason_string penalty_forbidden = codes "penalty_forbidden"
reason_string (other n) = codes "unknown"

pub record Decision : Type 0 where
  pub is_allowed : Bool
  pub reason : Reason
  pub counter : ℤ
  pub limit : ℤ
  pub remaining : ℤ
  pub reset_at : ℤ
  pub status_code : ℤ

-- `time.Millisecond`.
abbrev pub millisecond : ℕ
millisecond = 1000000

abbrev pub is_zero : ℤ → Bool
is_zero n = leb_ℤ n (pos 0) && leb_ℤ (pos 0) n

-- `max(n, 0)`.
abbrev pub at_least_zero : ℤ → ℤ
at_least_zero n = if leb_ℤ n (pos 0) then pos 0 else n

-- `newDecisionWithTTL`.
unfoldable pub new_decision_with_ttl : Bool → Reason → ℤ → ℤ → ℤ → ℤ → ℤ → Decision
new_decision_with_ttl allow reason counter limit now ttl_millis fallback_window =
    let ttl = if leb_ℤ ttl_millis (pos 0) then quot fallback_window millisecond else ttl_millis in
    record {
      is_allowed = allow;
      reason = reason;
      counter = counter;
      limit = limit;
      remaining = at_least_zero (wrap64 (limit -ℤ counter));
      reset_at = now +ℤ wrap64 (ttl *ℤ pos millisecond);
      status_code = pos 0;
    }

-- `newDecision`.
unfoldable pub new_decision : Bool → Reason → ℤ → ℤ → ℤ → Decision
new_decision allow reason limit now fallback_window =
    new_decision_with_ttl allow reason (pos 0) limit now (quot fallback_window millisecond)
      fallback_window

-- `StatusCodeOr`.
unfoldable pub status_code_or : Decision → ℤ → ℤ
status_code_or d default_code =
    if not (is_zero d.status_code)
    then d.status_code
    else (if not (is_zero default_code) then default_code else pos 429)

-- What `Middleware` does with a decision: it answers with a status, or calls the next handler.
pub data Outcome : Type 0 where
  blocked : ℤ → Outcome
  served : Outcome

unfoldable pub middleware : ℤ → Decision → Outcome
middleware deny_status_code d =
    if not d.is_allowed then blocked (status_code_or d deny_status_code) else served
