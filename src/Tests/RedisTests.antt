-- ===== src/Tests/RedisTests.antt =====
-- internal/redislua over a store of functions.
use guard_go.Base.{ℕ, ◌+◌, ◌≡◌, ◌≢◌, ◌⊎◌, refl, ap, Bool, true, false, leb, arith}
use Prim.Native.Nat.{min}
use guard_go.Base.Int.{ℤ, pos}
use guard_go.Text.{Bytes, codes, same_text}
use guard_go.Tests.Stores.{put, put-same, put-other}
use guard_go.Redis.{Commands, Keys, Levels, reputation}
use guard_go.Redis.Critical.{run, run_lem, IsCounted}
use guard_go.Redis.Quota.{admitted, admitted-min}
use guard_go.Redis.Reputation.{reputation_lem, IsBan, IsPenalty, IsNothing, IsTimed}

pub record Db : Type 0 where
  pub counts : Bytes → ℕ
  pub sets : Bytes → Bool
  pub flags : Bytes → Bool
  pub ttls : Bytes → ℤ
  pub scores : Bytes → ℕ

abbrev pub commands : Commands
commands = record {
  Store = Db;
  Float = ℕ;
  at_least = λ a b. leb b a;
  count = λ k s. s.counts k;
  member = λ k s. s.sets k;
  flag = λ k s. s.flags k;
  pttl = λ k s. s.ttls k;
  incr = λ k s. record s { counts = put s.counts k (s.counts k + 1) };
  incr_count = λ k s. put-same s.counts k (s.counts k + 1);
  incr_other = λ k j s ne. put-other s.counts k j (s.counts k + 1) ne;
  incr_member = λ k j s. refl;
  incr_flag = λ k j s. refl;
  sadd = λ k s. record s { sets = put s.sets k true };
  sadd_member = λ k s. put-same s.sets k true;
  sadd_other = λ k j s ne. put-other s.sets k j true ne;
  sadd_count = λ k j s. refl;
  sadd_flag = λ k j s. refl;
  pexpire = λ k ms s. record s { ttls = put s.ttls k ms };
  pexpire_count = λ k j ms s h. refl;
  pexpire_member = λ k j ms s h. refl;
  pexpire_flag = λ k j ms s h. refl;
  pexpire_counter_pttl = λ k ms s h p. put-same s.ttls k ms;
  pexpire_set_pttl = λ k ms s h p. put-same s.ttls k ms;
  pexpire_other_pttl = λ k j ms s h ne. put-other s.ttls k j ms ne;
  set_px = λ k ms s. record s { flags = put s.flags k true; ttls = put s.ttls k ms };
  set_px_flag = λ k ms s h. put-same s.flags k true;
  set_px_pttl = λ k ms s h. put-same s.ttls k ms;
  set_px_other_pttl = λ k j ms s ne. put-other s.ttls k j ms ne;
  set_px_member = λ k j ms s ne. refl;
  set_px_count = λ k j ms s ne. refl;
  del = λ k s. record s { flags = put s.flags k false; ttls = put s.ttls k (pos 0) };
  del_flag = λ k s. put-same s.flags k false;
  del_member = λ k j s ne. refl;
  del_count = λ k j s ne. refl;
  del_pttl = λ k j s ne. put-other s.ttls k j (pos 0) ne;
  score = λ k f s. s.scores f;
  hincrbyfloat = λ k f x s. record s { scores = put s.scores f (s.scores f + x) };
  hincrbyfloat_count = λ k f j x s. refl;
  hincrbyfloat_member = λ k f j x s. refl;
  hincrbyfloat_flag = λ k f j x s. refl;
  hincrbyfloat_other_pttl = λ k f j x s ne. refl;
  hincrbyfloat_other_score = λ k f g x s ne. put-other s.scores f g (s.scores f + x) ne;
  pexpire_hash_pttl = λ k f x ms s h. put-same s.ttls k ms;
  pexpire_score = λ k j g ms s h. refl;
}

abbrev pub empty : Db
empty = record {
  counts = λ k. 0;
  sets = λ k. false;
  flags = λ k. false;
  ttls = λ k. pos 0;
  scores = λ f. 0;
}

abbrev bl : Bytes
bl = codes "p:bl:1"

abbrev rl : Bytes
rl = codes "p:rl:1"

run_lem_example :
    ((false ≡ true)
      × (run commands bl rl (pos 1000) (pos 5) empty
          ≡ (record { code = 2; counter = 0; ttl = pos 0 }, empty)))
    ⊎ ((false ≡ false)
        × IsCounted commands bl rl
            (pos 1000)
            (pos 5)
            empty
            ((run commands bl rl (pos 1000) (pos 5) empty).0)
            ((run commands bl rl (pos 1000) (pos 5) empty).1))
run_lem_example = run_lem commands bl rl (pos 1000) (pos 5) refl empty

admitted-min_example : admitted commands bl rl (pos 1000) 5 8 empty ≡ min 8 5
admitted-min_example = admitted-min commands bl rl (pos 1000) 5 refl 8 empty refl refl

abbrev keys : Keys
keys = record {
  hash = codes "p:rep";
  penalty = codes "p:pbox:1";
  blacklist = bl;
  attempts = codes "p:ban_attempts:1";
}

abbrev levels : Levels commands
levels = record {
  score_window = pos 900000;
  warning = 60;
  threshold = 100;
  penalty_ttl = pos 1800000;
  backoff_window = pos 86400000;
  ban1 = pos 60000;
  ban2 = pos 600000;
  ban3 = pos 86400000;
}

levels-IsTimed : IsTimed {r = commands} levels
levels-IsTimed = record {
  scores = refl;
  penalty = refl;
  backoff = refl;
  first = refl;
  second = refl;
  third = refl;
}

attempts-neq : keys.attempts ≢ keys.penalty
attempts-neq e = ground (arith, ap (same_text keys.penalty) e)

blacklist-neq : keys.blacklist ≢ keys.penalty
blacklist-neq e = ground (arith, ap (same_text keys.penalty) e)

reputation_lem_example :
    ((true ≡ true)
      × IsBan commands keys levels 0
          ((reputation commands keys levels (codes "1|f") 120 empty).0)
          ((reputation commands keys levels (codes "1|f") 120 empty).1))
    ⊎ (((true ≡ false)
          × (true ≡ true)
          × IsPenalty commands keys levels empty
              ((reputation commands keys levels (codes "1|f") 120 empty).0)
              ((reputation commands keys levels (codes "1|f") 120 empty).1))
        ⊎ ((true ≡ false)
            × (true ≡ false)
            × IsNothing commands keys levels
                (codes "1|f")
                empty
                ((reputation commands keys levels (codes "1|f") 120 empty).0)
                ((reputation commands keys levels (codes "1|f") 120 empty).1)))
unfolding put
reputation_lem_example =
    reputation_lem commands keys levels levels-IsTimed attempts-neq blacklist-neq (codes "1|f") 120
      empty
