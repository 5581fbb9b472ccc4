-- ===== src/Engine.antt =====
-- engine.go: the state of the engine, and what it reaches outside: Redis, the clock and the telemetry.
-- A call of Redis is one round trip. Before it other clients may have changed the store and keys may
-- have expired (`meanwhile`); it may fail before the commands run (`unsent`) or after (`unanswered`).
pub mod Penalty
pub mod Replies
pub mod Snapshots
pub mod Process
pub mod Keys
pub mod Quiet
pub mod Accounting
pub mod Judged
pub mod Bans
pub mod Outage
pub mod Script
pub mod Limits
pub mod Listed
pub mod Scoring
pub mod Background
pub mod Workers
pub mod Lifecycle
use guard_go.Base.{
  ℕ, ◌≡◌, ◌≢◌, ◌↔◌, Elem, Bool, true, false, ◌&&◌, List, [], ◌∷◌, ◌++◌, Option, none, some,
  if◌then◌else◌, ◌>>=◌,
}
use guard_go.Base.Int.{ℤ, pos, leb_ℤ, ltb_ℤ}
use guard_go.Text.{Bytes, Unicode, codes, is_empty, same_text}
use guard_go.Config.{World, MiddlewareConfig}
use guard_go.Floats.{Arithmetic}
use guard_go.Http.{Header, HttpRequest}
use guard_go.Redis.{Commands}
use guard_go.Cache.{Lru}
use guard_go.Bloom
use guard_go.Bloom.{Filter}
use guard_go.SelfHealing.{Healing}
use guard_go.Behavior
use guard_go.Ruleset.{CompiledRuleset}
use guard_go.Ruleset.Manager.{Manager}
use guard_go.Dfa.Correct.{IsOrder}

-- The packages around the engine. `milliseconds` is how the Redis client writes a duration, `number`
-- how it writes a float; `canonical` is the canonical form of a header's name; `hex` is FormatUint in
-- base 16, `decimal` FormatInt in base 10, `whole` the integer that Redis makes of a Lua number; `iterate`
-- is the order of a walk over a map of indices, `walk n` the order of the n-th walk over a header's map;
-- `room` is how many words a slice can have, `channel_fits` which sizes a channel can have; `evaluate` and
-- `calculate_score` are the rules and evaluators of the application.
pub record Site (w : World) : Type 1 where
  pub redis : Commands
  pub lru : Lru
  pub arithmetic : Arithmetic w
  pub unicode : Unicode
  pub hash64 : Bytes → ℕ
  pub view : w.Request → HttpRequest
  pub canonical : Bytes → Bytes
  pub milliseconds : ℤ → ℤ
  pub milliseconds_positive :
      (d : ℤ) → ltb_ℤ (pos 0) d ≡ true → ltb_ℤ (pos 0) (milliseconds d) ≡ true
  pub number : w.Float → redis.Float
  pub hex : ℕ → Bytes
  pub decimal : ℤ → Bytes
  pub whole : redis.Float → ℤ
  pub iterate : List ℕ → List ℕ
  pub iterate_order : IsOrder iterate
  pub walk : ℕ → Header → Header
  pub walk_elem :
      (n : ℕ) (h : Header) (field : Bytes × List Bytes) → Elem field (walk n h) ↔ Elem field h
  pub room : ℕ
  pub channel_fits : ℤ → Bool
  pub evaluate : w.Rule → HttpRequest → ℤ
  pub calculate_score : w.Evaluator → HttpRequest → w.Float

pub data Delivery : Type 0 where
  answered unsent unanswered : Delivery

pub record Trip (S : Type 0) : Type 0 where
  pub meanwhile : S → S
  pub delivery : Delivery

-- The store, and how the next round trips go; after those every trip is answered and undisturbed.
pub record Network (S : Type 0) : Type 0 where
  pub store : S
  pub trips : List (Trip S)

-- The answer, or `none` for an error; the store once the trip is over.
unfoldable pub deliver : {S A : Type 0} → Delivery → S → (S → A × S) → Option A × S
deliver answered s command = let (a, s') = command s in (some a, s')
deliver unsent s command = (none, s)
deliver unanswered s command = let (a, s') = command s in (none, s')

unfoldable pub travel : {S A : Type 0} → S → List (Trip S) → (S → A × S) → Option A × Network S
unfolding deliver
travel s [] command = let (a, s') = command s in (some a, record { store = s'; trips = [] })
travel s (t ∷ ts) command =
    let (a, s') = deliver t.delivery (t.meanwhile s) command in
    (a, record { store = s'; trips = ts })

-- What the metrics, the statistics and the error callback are told. `stat` has one label, its key and
-- value; `request_stat` is the statistic requests_total with its labels status and source.
pub data Event (w : World) : Type 0 where
  inc_allowed inc_rate_limited inc_blacklisted inc_redis_errors observe_lua_latency on_error :
      Event w
  stat : Bytes → w.Float → Bytes × Bytes → Event w
  request_stat : Bytes → Bytes → Event w

pub record Snapshot : Type 0 where
  pub ip : Bytes
  pub key : Bytes
  pub method : Bytes
  pub host : Bytes
  pub path : Bytes
  pub raw_query : Bytes
  pub ua : Bytes
  pub lang : Bytes
  pub header : Header
  pub ts : ℤ

-- `queue` is the channel of snapshots, if there is one; `events` lists the last event first.
pub record Engine (w : World) (x : Site w) : Type 0 where
  pub cfg : MiddlewareConfig w
  pub cache : x.lru.State
  pub pbox : x.lru.State
  pub bf : Option Filter
  pub sh : Option (Healing w)
  pub behavior : Option Behavior.Store
  pub manager : Option Manager
  pub compiled : Option CompiledRuleset
  pub queue : Option (List Snapshot)
  pub network : Network x.redis.Store
  pub events : List (Event w)

-- `h.Values(name)` and `h.Get(name)`, the name in its canonical form.
unfoldable pub values_of : Header → Bytes → List Bytes
values_of [] name = []
values_of ((key, values) ∷ h) name = if same_text key name then values else values_of h name

abbrev pub first_of : List Bytes → Bytes
first_of [] = []
first_of (v ∷ vs) = v

-- `Add` on a filter that may be nil.
unfoldable pub add_known : Bytes → Option Filter → Option (Option Filter)
add_known ip none = some none
add_known ip (some f) = do g ← Bloom.add f ip; some (some g)

module _ (w : World) (x : Site w) where
  abbrev pub header_values : Header → Bytes → List Bytes
  header_values h name = values_of h (x.canonical name)

  abbrev pub header_get : Header → Bytes → Bytes
  header_get h name = first_of (header_values h name)

  -- `recordStat` and the calls of `Metrics`.
  abbrev pub emit : Event w → Engine w x → Engine w x
  emit ev e = record e { events = ev ∷ e.events }

  -- `recordRequestStat`.
  abbrev pub emit_request : Bytes → Bytes → Engine w x → Engine w x
  emit_request status source e = emit (request_stat status source) e

  -- `if e.cfg.OnError != nil { e.cfg.OnError(err) }`.
  unfoldable pub tell_error : Engine w x → Engine w x
  tell_error e = elim e.cfg.on_error [ none ↦ e | some f ↦ emit on_error e ]

  -- One round trip of the engine.
  unfoldable pub round_trip :
      {A : Type 0} → (x.redis.Store → A × x.redis.Store) → Engine w x → Option A × Engine w x
  unfolding travel
  round_trip command e =
      let (a, n) = travel e.network.store e.network.trips command in (a, record e { network = n })

  -- `if e.bf != nil { e.bf.Add(ip) }`; `none` is a panic.
  unfoldable pub bloom_add : Bytes → Engine w x → Option (Engine w x)
  bloom_add ip e = do bf ← add_known ip e.bf; some (record e { bf = bf })
