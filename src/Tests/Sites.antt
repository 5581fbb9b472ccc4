-- ===== src/Tests/Sites.antt =====
-- Instances of the parameters of the engine: floats as hundredths, a store and a cache of functions.
use guard_go.Base.{
  ℕ, ◌+◌, ◌-◌, ◌*◌, ◌/◌, ◌≤◌, ◌≡◌, refl, true, false, ◌&&◌, if◌then◌else◌, ltb, leb, leb→le, arith,
  [], ◌∷◌, none, some, length,
}
use guard_go.Base.Int.{ℤ, pos, negsuc, ltb_ℤ, ◌≤ℤ◌, quot}
use native.Mathlib.Nat.{div-le_of_le-mul, mul-le-mul_right}
use guard_go.Text.{Bytes, codes, ascii_only}
use guard_go.Config.Defaults.{with_defaults}
use guard_go.Floats.{Arithmetic}
use guard_go.Http.{HttpRequest}
use guard_go.Bloom.{Filter, new_filter, IsValid}
use guard_go.Bloom.Membership.{new_filter-some-IsFresh}
use guard_go.Engine.{Site, Engine}
use guard_go.Tests.ConfigTests.{plain, bare}
use guard_go.Tests.RedisTests.{commands, empty}
use guard_go.Tests.CacheTests.{unbounded}
use guard_go.Tests.DfaTests.{in-IsOrder}

abbrev pub smaller : ℕ → ℕ → ℕ
smaller a b = if leb a b then a else b

abbrev pub ratio : ℕ → ℕ → ℕ
ratio a b = a * 100 / b

quotient_le : (n m : ℕ) → 100 ≤ m → ratio (n * 100) m / 100 ≤ n
quotient_le n m h =
    let big : n * 100 * 100 ≤ m * (n * 100) = omega (arith, mul-le-mul_right (n * 100) h) in
    omega (arith, div-le_of_le-mul m {n = n * 100} big)

pub from_quotient : (n m : ℕ) → leb 100 m ≡ true → pos (ratio (n * 100) m / 100) ≤ℤ pos n
from_quotient n m h = omega (arith, quotient_le n m (leb→le 100 m h))

pub trans_lem : (a b c : ℕ) → leb a b ≡ true → leb b c ≡ true → leb a c ≡ true
trans_lem a b c p q = ground arith

pub total_lem : (a b : ℕ) → leb a b ≡ false → leb b a ≡ true
total_lem a b p = ground arith

pub less_lem : (a b : ℕ) → ltb a b ≡ true → leb a b ≡ true
less_lem a b p = ground arith

pub not_less_lem : (a b : ℕ) → ltb a b ≡ false → leb b a ≡ true
not_less_lem a b p = ground arith

pub sub_lem : (a b : ℕ) → leb (a - b) a ≡ true
sub_lem a b = ground arith

pub smaller_lem : (a b : ℕ) → leb (smaller a b) a ≡ true
smaller_lem a b = ground arith

pub above_lem : (c a b : ℕ) → leb c a ≡ true → leb c b ≡ true → leb c (smaller a b) ≡ true
above_lem c a b p q = ground arith

pub refl_lem : (a : ℕ) → leb a a ≡ true
refl_lem a = ground arith

unfoldable pub hundredths : Arithmetic plain
hundredths = record {
  less = ltb;
  from_int = λ n. elim n [ pos k ↦ k * 100 | negsuc k ↦ 0 ];
  to_int = λ a. pos (a / 100);
  add = λ a b. a + b;
  sub = λ a b. a - b;
  mul = λ a b. a * b / 100;
  div = ratio;
  min = smaller;
  finite = λ a. true;
  literal_finite = λ n. refl;
  at_most_refl = λ a h. refl_lem a;
  at_most_trans = trans_lem;
  at_most_total = λ a b p q h. total_lem a b h;
  less_at_most = less_lem;
  not_less = λ a b p q h. not_less_lem a b h;
  sub_finite = λ a b p q h k. refl;
  sub_at_most = λ a b p q h. sub_lem a b;
  min_finite = λ a b p q. refl;
  min_at_most = λ a b p q. smaller_lem a b;
  min_above = above_lem;
  quotient_at_most = λ n m small fin h. from_quotient n m h;
}

-- Durations as the Redis client writes them: whole milliseconds, at least one for what is above zero.
abbrev pub whole_milliseconds : ℤ → ℤ
whole_milliseconds (pos n) = if ltb n 1000000 && ltb 0 n then pos 1 else pos (n / 1000000)
whole_milliseconds (negsuc n) = quot (negsuc n) 1000000

pub whole_milliseconds_positive :
    (d : ℤ) → ltb_ℤ (pos 0) d ≡ true → ltb_ℤ (pos 0) (whole_milliseconds d) ≡ true
whole_milliseconds_positive (pos n) h = ground arith
whole_milliseconds_positive (negsuc n) h = absurd (ground arith)

abbrev pub attack : HttpRequest
attack = record {
  method = codes "GET";
  host = codes "h";
  url = some (record { path = codes "/"; raw_query = codes "q=union select" });
  header = [];
}

abbrev pub site : Site plain
site = record {
  redis = commands;
  lru = unbounded;
  arithmetic = hundredths;
  unicode = ascii_only;
  hash64 = λ s. length s;
  view = λ r. attack;
  canonical = λ s. s;
  milliseconds = whole_milliseconds;
  milliseconds_positive = whole_milliseconds_positive;
  number = λ a. a;
  hex = λ n. codes "0";
  decimal = λ n. codes "1";
  whole = λ a. pos a;
  iterate = λ seen. seen;
  iterate_order = in-IsOrder;
  walk = λ n h. h;
  walk_elem = λ n h field. ((λ here. here), (λ here. here));
  room = 1048576;
  channel_fits = λ size. true;
  evaluate = λ rule r. pos rule;
  calculate_score = λ v r. v;
}

abbrev pub known : Filter
known = record { words = 0 ∷ 0 ∷ []; bits = 128; k = 2 }

known-made : new_filter 4096 128 2 ≡ some known
unfolding new_filter
known-made = refl

pub known-IsValid : IsValid known
known-IsValid = (new_filter-some-IsFresh 4096 128 2 known (omega arith) known-made).valid

-- An engine with the defaults, reputation and a filter; Redis answers.
abbrev pub engine : Engine plain site
engine = record {
  cfg = with_defaults plain bare;
  cache = λ k. none;
  pbox = λ k. none;
  bf = some known;
  sh = none;
  behavior = none;
  manager = none;
  compiled = none;
  queue = some [];
  network = record { store = empty; trips = [] };
  events = [];
}

abbrev pub client : Bytes
client = codes "10.0.0.1"
