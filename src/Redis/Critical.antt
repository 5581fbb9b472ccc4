-- ===== src/Redis/Critical.antt =====
-- internal/redislua/script.go: what one run of the critical path answers and changes.
use guard_go.Base.{
  ◌+◌, ◌≡◌, ◌≢◌, ◌⊎◌, ◌∙◌, refl, true, false, if◌then◌else◌, ◌==◌, arith, inl, inr, Bool-cases,
}
use guard_go.Base.Int.{ℤ, pos, ltb_ℤ}
use guard_go.Text.{Bytes}
use guard_go.Redis.{Commands, Reply, count_request, critical_path}

module _ (r : Commands) (blacklist_key counter_key : Bytes) (window limit : ℤ) where
  unfoldable pub run : r.Store → Reply × r.Store
  run s = critical_path r blacklist_key counter_key window limit s

  -- A store with the same bans, whose other counters are those of s.
  pub record SameElsewhere (s s' : r.Store) : Type 0 where
    pub bans : (j : Bytes) → r.member j s' ≡ r.member j s
    pub flags : (j : Bytes) → r.flag j s' ≡ r.flag j s
    pub counters : (j : Bytes) → j ≢ counter_key → r.count j s' ≡ r.count j s

  pub run-banned :
      (s : r.Store)
      → r.member blacklist_key s ≡ true
      → run s ≡ (record { code = 2; counter = 0; ttl = r.pttl blacklist_key s }, s)
  unfolding run critical_path
  run-banned s h = rw h refl

  -- What a run answers and leaves when the client is not banned.
  pub record IsCounted (s : r.Store) (reply : Reply) (s' : r.Store) : Type 0 where
    pub code_is : reply.code ≡ (if ltb_ℤ limit (pos (r.count counter_key s + 1)) then 1 else 0)
    pub counter_is : reply.counter ≡ r.count counter_key s + 1
    pub count_is : r.count counter_key s' ≡ r.count counter_key s + 1
    pub ttl_is : reply.ttl ≡ r.pttl counter_key s'
    pub starts_window : r.count counter_key s ≡ 0 → reply.ttl ≡ window
    pub elsewhere : SameElsewhere s s'

  -- The store that the counting branch leaves.
  unfoldable after : r.Store → r.Store
  after s =
      let s1 = r.incr counter_key s in
      if r.count counter_key s1 == 1 then r.pexpire counter_key window s1 else s1

  unfoldable answer : r.Store → Reply
  answer s = record {
    code = if ltb_ℤ limit (pos (r.count counter_key (r.incr counter_key s))) then 1 else 0;
    counter = r.count counter_key (r.incr counter_key s);
    ttl = r.pttl counter_key (after s);
  }

  run-eq : (s : r.Store) → r.member blacklist_key s ≡ false → run s ≡ (answer s, after s)
  unfolding run critical_path count_request answer after
  run-eq s h = elim (Bool-cases (ltb_ℤ limit (pos (r.count counter_key (r.incr counter_key s))))) [
    | inl over ↦ rw (h, over) refl
    | inr within ↦ rw (h, within) refl
  ]

  module _ (positive : ltb_ℤ (pos 0) window ≡ true) where
    after_counted :
        (s : r.Store)
        → (after s ≡ r.incr counter_key s)
          ⊎ (after s ≡ r.pexpire counter_key window (r.incr counter_key s))
    unfolding after
    after_counted s = elim (Bool-cases (r.count counter_key (r.incr counter_key s) == 1)) [
      | inl first ↦ inr (rw first refl)
      | inr later ↦ inl (rw later refl)
    ]

    after-count : (j : Bytes) (s : r.Store) → r.count j (after s) ≡ r.count j (r.incr counter_key s)
    after-count j s = elim (after_counted s) [
      | inl e ↦ rw e refl
      | inr e ↦ rw e (r.pexpire_count counter_key j window (r.incr counter_key s) positive)
    ]

    after-SameElsewhere : (s : r.Store) → SameElsewhere s (after s)
    after-SameElsewhere s = record {
      bans = λ j. elim (after_counted s) [
        | inl e ↦ rw e (r.incr_member counter_key j s)
        | inr e ↦
            rw (e, r.pexpire_member counter_key j window (r.incr counter_key s) positive)
              (r.incr_member counter_key j s)
      ];
      flags = λ j. elim (after_counted s) [
        | inl e ↦ rw e (r.incr_flag counter_key j s)
        | inr e ↦
            rw (e, r.pexpire_flag counter_key j window (r.incr counter_key s) positive)
              (r.incr_flag counter_key j s)
      ];
      counters = λ j ne. after-count j s ∙ r.incr_other counter_key j s ne;
    }

    after-starts : (s : r.Store) → r.count counter_key s ≡ 0 → r.pttl counter_key (after s) ≡ window
    unfolding after
    after-starts s zero_count =
        let one : r.count counter_key (r.incr counter_key s) ≡ 1 =
          rw (r.incr_count counter_key s, zero_count) refl in
        let first : (r.count counter_key (r.incr counter_key s) == 1) ≡ true = rw one refl in
        rw first (
          r.pexpire_counter_pttl counter_key window (r.incr counter_key s) positive
            (rw one (omega arith)))

    after-IsCounted : (s : r.Store) → IsCounted s (answer s) (after s)
    unfolding answer
    after-IsCounted s = record {
      code_is = rw (r.incr_count counter_key s) refl;
      counter_is = r.incr_count counter_key s;
      count_is = after-count counter_key s ∙ r.incr_count counter_key s;
      ttl_is = refl;
      starts_window = after-starts s;
      elsewhere = after-SameElsewhere s;
    }

    -- One run of the critical path. A client in the blacklist is answered 2 with the time to live of
    -- the ban, and the store is unchanged. Any other client's counter goes up by one and is the
    -- answer's; the answer is 1 exactly when it exceeds the limit, else 0; the first request of a
    -- window starts its time to live; bans, flags and other counters stay as they are.
    pub run_lem :
        (s : r.Store)
        → ((r.member blacklist_key s ≡ true)
            × (run s ≡ (record { code = 2; counter = 0; ttl = r.pttl blacklist_key s }, s)))
          ⊎ ((r.member blacklist_key s ≡ false) × IsCounted s ((run s).0) ((run s).1))
    run_lem s = elim (Bool-cases (r.member blacklist_key s)) [
      | inl banned ↦ inl (banned, run-banned s banned)
      | inr free ↦ inr (free, rw (run-eq s free) (after-IsCounted s))
    ]
