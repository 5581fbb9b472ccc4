-- ===== src/Redis/Quota.antt =====
-- internal/redislua/script.go: the quota of a window, over a sequence of runs of the critical path.
use guard_go.Base.{
  ℕ, zero, suc, ◌+◌, ◌-◌, ◌≡◌, ◌∙◌, true, false, if◌then◌else◌, ◌==◌, arith, inl, inr,
}
use Prim.Native.Nat.{min}
use guard_go.Base.Int.{ℤ, pos, ltb_ℤ}
use guard_go.Text.{Bytes}
use guard_go.Redis.{Commands}
use guard_go.Redis.Critical.{run, run_lem, IsCounted}

quota_step :
    (limit count n : ℕ)
    → (if (if ltb_ℤ (pos limit) (pos (count + 1)) then 1 else 0) == 0 then 1 else 0)
        + min n (limit - (count + 1))
      ≡ min (suc n) (limit - count)
quota_step limit count n = ground arith

module _ (r : Commands) (blacklist_key counter_key : Bytes) (window : ℤ) (limit : ℕ) where
  -- n requests of one client, one after the other, before the counter expires: how many are allowed.
  unfoldable pub admitted : ℕ → r.Store → ℕ
  admitted zero s = 0
  admitted (suc n) s =
      let (reply, s') = run r blacklist_key counter_key window (pos limit) s in
      (if reply.code == 0 then 1 else 0) + admitted n s'

  module _ (positive : ltb_ℤ (pos 0) window ≡ true) where
    free_run :
        (s : r.Store)
        → r.member blacklist_key s ≡ false
        → IsCounted r blacklist_key counter_key window
            (pos limit)
            s
            ((run r blacklist_key counter_key window (pos limit) s).0)
            ((run r blacklist_key counter_key window (pos limit) s).1)
    free_run s free = elim (run_lem r blacklist_key counter_key window (pos limit) positive s) [
      | inl b ↦ absurd (ground (arith, b.0))
      | inr c ↦ c.1
    ]

    admitted-from :
        (n : ℕ) (s : r.Store)
        → r.member blacklist_key s ≡ false
        → admitted n s ≡ min n (limit - r.count counter_key s)
    unfolding admitted
    admitted-from zero s free = omega arith
    admitted-from (suc n) s free =
        let c = free_run s free in
        let s' = (run r blacklist_key counter_key window (pos limit) s).1 in
        let rest : admitted n s' ≡ min n (limit - r.count counter_key s') =
          admitted-from n s' (c.elsewhere.bans blacklist_key ∙ free) in
        let count : r.count counter_key s' ≡ r.count counter_key s + 1 = c.count_is in
        rw (c.code_is, rest, count) (quota_step limit (r.count counter_key s) n)

    -- Of n requests of a client that is not banned, sent in a window whose counter starts at 0,
    -- exactly the smaller of n and the limit are allowed.
    pub admitted-min :
        (n : ℕ) (s : r.Store)
        → r.member blacklist_key s ≡ false
        → r.count counter_key s ≡ 0
        → admitted n s ≡ min n limit
    admitted-min n s free start = omega (arith, admitted-from n s free, start)
