-- ===== src/Redis.antt =====
-- internal/redislua: the Lua scripts, over the Redis commands that they call. Redis is a parameter,
-- `Commands`, with the documented behaviour of each command; it runs a script as one atomic step in
-- which no key expires. A script that a failing command aborts is the client's error, not modelled here.
pub mod Critical
pub mod Quota
pub mod Reputation
use guard_go.Base.{ℕ, ◌+◌, ◌<◌, ◌≡◌, ◌≢◌, Bool, true, false, if◌then◌else◌, ltb, leb, ◌==◌}
use guard_go.Base.Int.{ℤ, pos, leb_ℤ, ltb_ℤ}
use guard_go.Text.{Bytes}

-- `count k`, `member k` and `flag k` say what the keys hold: the integer of a counter (0 if there is
-- none), whether "1" is in a set, whether a string is set; a key holds what its commands expect. `pttl` is
-- the reply of PTTL.
pub record Commands : Type 1 where
  pub Store : Type 0
  pub Float : Type 0
  pub at_least : Float → Float → Bool
  pub count : Bytes → Store → ℕ
  pub member : Bytes → Store → Bool
  pub flag : Bytes → Store → Bool
  pub pttl : Bytes → Store → ℤ
  pub incr : Bytes → Store → Store
  pub incr_count : (k : Bytes) (s : Store) → count k (incr k s) ≡ count k s + 1
  pub incr_other : (k j : Bytes) (s : Store) → j ≢ k → count j (incr k s) ≡ count j s
  pub incr_member : (k j : Bytes) (s : Store) → member j (incr k s) ≡ member j s
  pub incr_flag : (k j : Bytes) (s : Store) → flag j (incr k s) ≡ flag j s
  pub sadd : Bytes → Store → Store
  pub sadd_member : (k : Bytes) (s : Store) → member k (sadd k s) ≡ true
  pub sadd_other : (k j : Bytes) (s : Store) → j ≢ k → member j (sadd k s) ≡ member j s
  pub sadd_count : (k j : Bytes) (s : Store) → count j (sadd k s) ≡ count j s
  pub sadd_flag : (k j : Bytes) (s : Store) → flag j (sadd k s) ≡ flag j s
  -- A key that is there gets the time to live; nothing else changes.
  pub pexpire : Bytes → ℤ → Store → Store
  pub pexpire_count :
      (k j : Bytes) (ms : ℤ) (s : Store)
      → ltb_ℤ (pos 0) ms ≡ true
      → count j (pexpire k ms s) ≡ count j s
  pub pexpire_member :
      (k j : Bytes) (ms : ℤ) (s : Store)
      → ltb_ℤ (pos 0) ms ≡ true
      → member j (pexpire k ms s) ≡ member j s
  pub pexpire_flag :
      (k j : Bytes) (ms : ℤ) (s : Store)
      → ltb_ℤ (pos 0) ms ≡ true
      → flag j (pexpire k ms s) ≡ flag j s
  pub pexpire_counter_pttl :
      (k : Bytes) (ms : ℤ) (s : Store)
      → ltb_ℤ (pos 0) ms ≡ true
      → 0 < count k s
      → pttl k (pexpire k ms s) ≡ ms
  pub pexpire_set_pttl :
      (k : Bytes) (ms : ℤ) (s : Store)
      → ltb_ℤ (pos 0) ms ≡ true
      → member k s ≡ true
      → pttl k (pexpire k ms s) ≡ ms
  pub pexpire_other_pttl :
      (k j : Bytes) (ms : ℤ) (s : Store)
      → ltb_ℤ (pos 0) ms ≡ true
      → j ≢ k
      → pttl j (pexpire k ms s) ≡ pttl j s
  -- `SET k "1" PX ms` and `DEL k`, of a string key.
  pub set_px : Bytes → ℤ → Store → Store
  pub set_px_flag :
      (k : Bytes) (ms : ℤ) (s : Store) → ltb_ℤ (pos 0) ms ≡ true → flag k (set_px k ms s) ≡ true
  pub set_px_pttl :
      (k : Bytes) (ms : ℤ) (s : Store) → ltb_ℤ (pos 0) ms ≡ true → pttl k (set_px k ms s) ≡ ms
  pub set_px_other_pttl :
      (k j : Bytes) (ms : ℤ) (s : Store) → j ≢ k → pttl j (set_px k ms s) ≡ pttl j s
  pub set_px_member :
      (k j : Bytes) (ms : ℤ) (s : Store) → j ≢ k → member j (set_px k ms s) ≡ member j s
  pub set_px_count :
      (k j : Bytes) (ms : ℤ) (s : Store) → j ≢ k → count j (set_px k ms s) ≡ count j s
  pub del : Bytes → Store → Store
  pub del_flag : (k : Bytes) (s : Store) → flag k (del k s) ≡ false
  pub del_member : (k j : Bytes) (s : Store) → j ≢ k → member j (del k s) ≡ member j s
  pub del_count : (k j : Bytes) (s : Store) → j ≢ k → count j (del k s) ≡ count j s
  pub del_pttl : (k j : Bytes) (s : Store) → j ≢ k → pttl j (del k s) ≡ pttl j s
  pub score : Bytes → Bytes → Store → Float
  pub hincrbyfloat : Bytes → Bytes → Float → Store → Store
  pub hincrbyfloat_count :
      (k f j : Bytes) (x : Float) (s : Store) → count j (hincrbyfloat k f x s) ≡ count j s
  pub hincrbyfloat_member :
      (k f j : Bytes) (x : Float) (s : Store) → member j (hincrbyfloat k f x s) ≡ member j s
  pub hincrbyfloat_flag :
      (k f j : Bytes) (x : Float) (s : Store) → flag j (hincrbyfloat k f x s) ≡ flag j s
  pub hincrbyfloat_other_pttl :
      (k f j : Bytes) (x : Float) (s : Store) → j ≢ k → pttl j (hincrbyfloat k f x s) ≡ pttl j s
  pub hincrbyfloat_other_score :
      (k f g : Bytes) (x : Float) (s : Store)
      → g ≢ f
      → score k g (hincrbyfloat k f x s) ≡ score k g s
  pub pexpire_hash_pttl :
      (k f : Bytes) (x : Float) (ms : ℤ) (s : Store)
      → ltb_ℤ (pos 0) ms ≡ true
      → pttl k (pexpire k ms (hincrbyfloat k f x s)) ≡ ms
  pub pexpire_score :
      (k j g : Bytes) (ms : ℤ) (s : Store)
      → ltb_ℤ (pos 0) ms ≡ true
      → score j g (pexpire k ms s) ≡ score j g s

-- The reply {code, counter, ttl} of the critical path.
pub record Reply : Type 0 where
  pub code : ℕ
  pub counter : ℕ
  pub ttl : ℤ

-- The keys of `reputationLua`.
pub record Keys : Type 0 where
  pub hash : Bytes
  pub penalty : Bytes
  pub blacklist : Bytes
  pub attempts : Bytes

module _ (r : Commands) where
  -- What follows the INCR of the counter key.
  unfoldable pub count_request : Bytes → ℤ → ℤ → r.Store → Reply × r.Store
  count_request counter_key window limit s =
      let cur = r.count counter_key s in
      let s' = if cur == 1 then r.pexpire counter_key window s else s in
      let ttl = r.pttl counter_key s' in
      if ltb_ℤ limit (pos cur)
      then (record { code = 1; counter = cur; ttl = ttl }, s')
      else (record { code = 0; counter = cur; ttl = ttl }, s')

  -- `criticalPathLua`.
  unfoldable pub critical_path : Bytes → Bytes → ℤ → ℤ → r.Store → Reply × r.Store
  critical_path blacklist_key counter_key window limit s =
      if r.member blacklist_key s
      then (record { code = 2; counter = 0; ttl = r.pttl blacklist_key s }, s)
      else count_request counter_key window limit (r.incr counter_key s)

  -- The arguments of `reputationLua`, durations in milliseconds.
  pub record Levels : Type 0 where
    pub score_window : ℤ
    pub warning : r.Float
    pub threshold : r.Float
    pub penalty_ttl : ℤ
    pub backoff_window : ℤ
    pub ban1 : ℤ
    pub ban2 : ℤ
    pub ban3 : ℤ

  -- The reply {score, action, ban_ttl, attempts}.
  pub record Verdict : Type 0 where
    pub score : r.Float
    pub action : ℕ
    pub ban_ttl : ℤ
    pub attempts : ℕ

  unfoldable pub ban_level : Levels → ℕ → ℤ
  ban_level l attempts =
      if attempts == 2 then l.ban2 else (if leb 3 attempts then l.ban3 else l.ban1)

  -- The branch `score >= threshold`.
  unfoldable pub ban : Keys → Levels → r.Float → r.Store → Verdict × r.Store
  ban k l score s =
      let s1 = r.incr k.attempts s in
      let attempts = r.count k.attempts s1 in
      let s2 = if attempts == 1 then r.pexpire k.attempts l.backoff_window s1 else s1 in
      let ttl = ban_level l attempts in
      let s3 = r.pexpire k.blacklist ttl (r.sadd k.blacklist s2) in
      (record { score = score; action = 2; ban_ttl = ttl; attempts = attempts }, r.del k.penalty s3)

  -- `reputationLua`.
  unfoldable pub reputation : Keys → Levels → Bytes → r.Float → r.Store → Verdict × r.Store
  reputation k l field score_delta s =
      let s1 = r.hincrbyfloat k.hash field score_delta s in
      let score = r.score k.hash field s1 in
      let s2 = r.pexpire k.hash l.score_window s1 in
      if r.at_least score l.threshold
      then ban k l score s2
      else (if r.at_least score l.warning
          then (
            record { score = score; action = 1; ban_ttl = pos 0; attempts = 0 },
            r.set_px k.penalty l.penalty_ttl s2,
          )
          else (record { score = score; action = 0; ban_ttl = pos 0; attempts = 0 }, s2))
