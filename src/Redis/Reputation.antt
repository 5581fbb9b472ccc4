-- ===== src/Redis/Reputation.antt =====
-- internal/redislua/reputation.go: what one run of the reputation script answers and changes.
use guard_go.Base.{
  ℕ, zero, suc, ◌+◌, ◌≡◌, ◌≢◌, ◌⊎◌, ◌∙◌, refl, sym, ap, true, false, if◌then◌else◌, ◌==◌, arith,
  inl, inr, Bool-cases,
}
use guard_go.Base.Int.{ℤ, pos, ltb_ℤ}
use guard_go.Text.{Bytes}
use guard_go.Redis.{Commands, Keys, Levels, Verdict, ban_level, ban, reputation}

-- The durations are positive.
pub record IsTimed {r : Commands} (l : Levels r) : Type 0 where
  pub scores : ltb_ℤ (pos 0) l.score_window ≡ true
  pub penalty : ltb_ℤ (pos 0) l.penalty_ttl ≡ true
  pub backoff : ltb_ℤ (pos 0) l.backoff_window ≡ true
  pub first : ltb_ℤ (pos 0) l.ban1 ≡ true
  pub second : ltb_ℤ (pos 0) l.ban2 ≡ true
  pub third : ltb_ℤ (pos 0) l.ban3 ≡ true

module _ (r : Commands) (k : Keys) (l : Levels r) where
  -- The duration of the ban for a client with `previous` bans behind it.
  unfoldable pub ban_after : ℕ → ℤ
  ban_after zero = l.ban1
  ban_after (suc zero) = l.ban2
  ban_after (suc (suc n)) = l.ban3

  ban_level-ban_after : (previous : ℕ) → ban_level r l (previous + 1) ≡ ban_after previous
  unfolding ban_level ban_after
  ban_level-ban_after zero = refl
  ban_level-ban_after (suc zero) = refl
  ban_level-ban_after (suc (suc n)) = ground arith

  ban_after-positive : (n : ℕ) → IsTimed l → ltb_ℤ (pos 0) (ban_after n) ≡ true
  unfolding ban_after
  ban_after-positive zero t = t.first
  ban_after-positive (suc zero) t = t.second
  ban_after-positive (suc (suc n)) t = t.third

  -- After `previous` bans the client is banned for its level, its penalty is lifted and the attempt
  -- is counted.
  pub record IsBan (previous : ℕ) (v : Verdict r) (s' : r.Store) : Type 0 where
    pub acts : v.action ≡ 2
    pub counted : v.attempts ≡ previous + 1
    pub kept : r.count k.attempts s' ≡ previous + 1
    pub lasts : v.ban_ttl ≡ ban_after previous
    pub banned : r.member k.blacklist s' ≡ true
    pub expires : r.pttl k.blacklist s' ≡ v.ban_ttl
    pub lifted : r.flag k.penalty s' ≡ false

  -- The client is put into the penalty box; bans and other counters stay, and so does every time to live
  -- but that of the box and the one of the scores, which starts anew.
  pub record IsPenalty (s : r.Store) (v : Verdict r) (s' : r.Store) : Type 0 where
    pub acts : v.action ≡ 1
    pub boxed : r.flag k.penalty s' ≡ true
    pub expires : r.pttl k.penalty s' ≡ l.penalty_ttl
    pub bans : (j : Bytes) → j ≢ k.penalty → r.member j s' ≡ r.member j s
    pub counters : (j : Bytes) → j ≢ k.penalty → r.count j s' ≡ r.count j s
    pub ttls : (j : Bytes) → j ≢ k.penalty → j ≢ k.hash → r.pttl j s' ≡ r.pttl j s
    pub window : k.hash ≢ k.penalty → r.pttl k.hash s' ≡ l.score_window

  -- Bans, flags, counters and the scores of other clients stay, and every time to live but the one of
  -- the scores, which starts anew.
  pub record IsNothing (field : Bytes) (s : r.Store) (v : Verdict r) (s' : r.Store) : Type 0 where
    pub acts : v.action ≡ 0
    pub bans : (j : Bytes) → r.member j s' ≡ r.member j s
    pub flags : (j : Bytes) → r.flag j s' ≡ r.flag j s
    pub counters : (j : Bytes) → r.count j s' ≡ r.count j s
    pub scores : (g : Bytes) → g ≢ field → r.score k.hash g s' ≡ r.score k.hash g s
    pub ttls : (j : Bytes) → j ≢ k.hash → r.pttl j s' ≡ r.pttl j s
    pub window : r.pttl k.hash s' ≡ l.score_window

  -- The score that a run adds up.
  abbrev pub new_score : Bytes → r.Float → r.Store → r.Float
  new_score field delta s = r.score k.hash field (r.hincrbyfloat k.hash field delta s)

  module _ (timed : IsTimed l) (apart : k.attempts ≢ k.penalty)
      (apart' : k.blacklist ≢ k.penalty) where
    -- The store once the attempt is counted.
    unfoldable counted_store : r.Store → r.Store
    counted_store s =
        let s1 = r.incr k.attempts s in
        if r.count k.attempts s1 == 1 then r.pexpire k.attempts l.backoff_window s1 else s1

    counted_store-count :
        (s : r.Store) → r.count k.attempts (counted_store s) ≡ r.count k.attempts s + 1
    unfolding counted_store
    counted_store-count s = elim (Bool-cases (r.count k.attempts (r.incr k.attempts s) == 1)) [
      | inl first ↦
          rw
            (
              first,
              r.pexpire_count k.attempts k.attempts l.backoff_window (r.incr k.attempts s)
                  timed.backoff,
            )
            (r.incr_count k.attempts s)
      | inr later ↦ rw later (r.incr_count k.attempts s)
    ]

    -- The store once the client is banned, before its penalty is lifted.
    unfoldable banned_store : r.Store → r.Store
    unfolding counted_store
    banned_store s =
        r.pexpire k.blacklist (ban_after (r.count k.attempts s))
          (r.sadd k.blacklist (counted_store s))

    banned_store-count :
        (s : r.Store) → r.count k.attempts (banned_store s) ≡ r.count k.attempts s + 1
    unfolding banned_store
    banned_store-count s =
        rw
          (
            r.pexpire_count k.blacklist k.attempts (ban_after (r.count k.attempts s))
                (r.sadd k.blacklist (counted_store s))
                (ban_after-positive (r.count k.attempts s) timed),
            r.sadd_count k.blacklist k.attempts (counted_store s),
          )
          (counted_store-count s)

    banned_store-member : (s : r.Store) → r.member k.blacklist (banned_store s) ≡ true
    unfolding banned_store
    banned_store-member s =
        rw
          (r.pexpire_member k.blacklist k.blacklist (ban_after (r.count k.attempts s))
            (r.sadd k.blacklist (counted_store s))
            (ban_after-positive (r.count k.attempts s) timed))
          (r.sadd_member k.blacklist (counted_store s))

    banned_store-pttl :
        (s : r.Store) → r.pttl k.blacklist (banned_store s) ≡ ban_after (r.count k.attempts s)
    unfolding banned_store
    banned_store-pttl s =
        r.pexpire_set_pttl k.blacklist (ban_after (r.count k.attempts s))
          (r.sadd k.blacklist (counted_store s)) (ban_after-positive (r.count k.attempts s) timed)
          (r.sadd_member k.blacklist (counted_store s))

    unfoldable verdict : r.Float → r.Store → Verdict r
    verdict score s = record {
      score = score;
      action = 2;
      ban_ttl = ban_after (r.count k.attempts s);
      attempts = r.count k.attempts (r.incr k.attempts s);
    }

    ban-eq :
        (score : r.Float) (s : r.Store)
        → ban r k l score s ≡ (verdict score s, r.del k.penalty (banned_store s))
    unfolding ban verdict banned_store counted_store
    ban-eq score s =
        let level : ban_level r l (r.count k.attempts (r.incr k.attempts s))
            ≡ ban_after (r.count k.attempts s) =
          ap (ban_level r l) (r.incr_count k.attempts s)
          ∙ ban_level-ban_after (r.count k.attempts s) in
        rw level refl

    banned_store-IsBan :
        (score : r.Float) (s : r.Store)
        → IsBan (r.count k.attempts s) (verdict score s) (r.del k.penalty (banned_store s))
    unfolding verdict
    banned_store-IsBan score s = record {
      acts = refl;
      counted = r.incr_count k.attempts s;
      kept = r.del_count k.penalty k.attempts (banned_store s) apart ∙ banned_store-count s;
      lasts = refl;
      banned = r.del_member k.penalty k.blacklist (banned_store s) apart' ∙ banned_store-member s;
      expires = r.del_pttl k.penalty k.blacklist (banned_store s) apart' ∙ banned_store-pttl s;
      lifted = r.del_flag k.penalty (banned_store s);
    }

    unfoldable scored : Bytes → r.Float → r.Store → r.Store
    scored field delta s = r.pexpire k.hash l.score_window (r.hincrbyfloat k.hash field delta s)

    scored-IsNothing :
        (field : Bytes) (delta score : r.Float) (s : r.Store)
        → IsNothing field s
            (record { score = score; action = 0; ban_ttl = pos 0; attempts = 0 })
            (scored field delta s)
    unfolding scored
    scored-IsNothing field delta score s =
        let added : r.Store = r.hincrbyfloat k.hash field delta s in
        record {
          acts = refl;
          bans = λ j.
              r.pexpire_member k.hash j l.score_window added timed.scores
              ∙ r.hincrbyfloat_member k.hash field j delta s;
          flags = λ j.
              r.pexpire_flag k.hash j l.score_window added timed.scores
              ∙ r.hincrbyfloat_flag k.hash field j delta s;
          counters = λ j.
              r.pexpire_count k.hash j l.score_window added timed.scores
              ∙ r.hincrbyfloat_count k.hash field j delta s;
          scores = λ g ne.
              r.pexpire_score k.hash k.hash g l.score_window added timed.scores
              ∙ r.hincrbyfloat_other_score k.hash field g delta s ne;
          ttls = λ j ne.
              r.pexpire_other_pttl k.hash j l.score_window added timed.scores ne
              ∙ r.hincrbyfloat_other_pttl k.hash field j delta s ne;
          window = r.pexpire_hash_pttl k.hash field delta l.score_window s timed.scores;
        }

    boxed-IsPenalty :
        (field : Bytes) (score : r.Float) (s s' : r.Store)
        → IsNothing field s (record { score = score; action = 0; ban_ttl = pos 0; attempts = 0 }) s'
        → IsPenalty s
            (record { score = score; action = 1; ban_ttl = pos 0; attempts = 0 })
            (r.set_px k.penalty l.penalty_ttl s')
    boxed-IsPenalty field score s s' same = record {
      acts = refl;
      boxed = r.set_px_flag k.penalty l.penalty_ttl s' timed.penalty;
      expires = r.set_px_pttl k.penalty l.penalty_ttl s' timed.penalty;
      bans = λ j ne. r.set_px_member k.penalty j l.penalty_ttl s' ne ∙ same.bans j;
      counters = λ j ne. r.set_px_count k.penalty j l.penalty_ttl s' ne ∙ same.counters j;
      ttls = λ j ne ne'. r.set_px_other_pttl k.penalty j l.penalty_ttl s' ne ∙ same.ttls j ne';
      window = λ ne. r.set_px_other_pttl k.penalty k.hash l.penalty_ttl s' ne ∙ same.window;
    }

    -- One run of the reputation script, for positive durations and keys of the ban and of the attempts
    -- that differ from the penalty key. A score that reaches the threshold bans the client, for the level
    -- of the bans it has had, counts the attempt and lifts the penalty; else a score that reaches the
    -- warning level puts the client into the penalty box, and bans, other counters and other times to
    -- live stay; else bans, flags, counters, the scores of other clients and all times to live stay, but
    -- for the one of the scores, which starts anew.
    pub reputation_lem :
        (field : Bytes) (delta : r.Float) (s : r.Store)
        → let score = new_score field delta s in
          let v = (reputation r k l field delta s).0 in
          let s' = (reputation r k l field delta s).1 in
          ((r.at_least score l.threshold ≡ true) × IsBan (r.count k.attempts s) v s')
          ⊎ (((r.at_least score l.threshold ≡ false)
                × (r.at_least score l.warning ≡ true)
                × IsPenalty s v s')
              ⊎ ((r.at_least score l.threshold ≡ false)
                  × (r.at_least score l.warning ≡ false)
                  × IsNothing field s v s'))
    unfolding reputation scored
    reputation_lem field delta s =
        let score : r.Float = new_score field delta s in
        let same = scored-IsNothing field delta score s in
        elim (Bool-cases (r.at_least score l.threshold)) [
          | inl ban_it ↦ inl (
            ban_it,
            rw (ban_it, ban-eq score (scored field delta s), sym (same.counters k.attempts))
                (banned_store-IsBan score (scored field delta s)),
          )
          | inr below ↦ elim (Bool-cases (r.at_least score l.warning)) [
            | inl warned ↦ inr (
                inl (
                  below,
                  warned,
                  rw (below, warned) (boxed-IsPenalty field score s (scored field delta s) same),
                ))
            | inr calm ↦ inr (inr (below, calm, rw (below, calm) same))
          ]
        ]
