-- ===== src/Tests/EngineTests.antt =====
-- The engine's request path, on one address and a Redis that answers.
use guard_go.Base.{◌≡◌, refl, true, false, some, none, [], ◌∷◌, not, arith}
use guard_go.Base.Int.{pos, ◌+ℤ◌, ◌*ℤ◌, wrap64, IsInt64}
use guard_go.Text.{codes, is_empty}
use guard_go.Config.Defaults.{with_defaults, or_default}
use guard_go.Decision.{Decision}
use guard_go.Engine.Script.{IsCalm}
use guard_go.Engine.Limits.{exceeds, process-Decides}
use guard_go.Cache.History.{live}
use guard_go.Engine.Outage.{process-FailsOpen}
use guard_go.Tests.RedisTests.{Db, empty}
use guard_go.Engine.{Trip, unsent, Engine, round_trip, travel}
use guard_go.Engine.Penalty.{ban_ip, ban_command, blacklist_key}
use guard_go.Engine.Process.{process, ip_of, key_of, limit_for}
use guard_go.Engine.Accounting.{Judges}
use guard_go.Engine.Judged.{process-Judges}
use guard_go.Engine.Bans.{IsDenied, ban_ip-process-IsDenied}
use guard_go.Engine.Keys.{listed, key_for_injective}
use guard_go.Tests.ConfigTests.{plain}
use guard_go.Tests.Sites.{site, engine, client, known-IsValid}

process-Judges_example : Judges plain site engine (process plain site client (pos 5) (pos 6) engine)
process-Judges_example = process-Judges plain site client (pos 5) (pos 6) engine known-IsValid

named : is_empty (ip_of plain site engine client) ≡ false
unfolding ip_of with_defaults
named = refl

fits_60 : IsInt64 (pos 5 +ℤ pos 60000000)
unfolding ◌+ℤ◌
fits_60 = omega arith

key_for_injective_example : (listed ≡ listed) × (client ≡ client)
key_for_injective_example = key_for_injective listed listed (codes "gg") client client refl

ban_ip-process-IsDenied_example :
    (e' : Engine plain site) × (ban_ip plain site
        (ip_of plain site engine client)
        (pos 60000000)
        (pos 5)
        engine
      ≡ some (true, e'))
    × IsDenied plain site e' (process plain site client (pos 1000) (pos 1001) e')
unfolding round_trip travel ban_command ◌+ℤ◌
ban_ip-process-IsDenied_example =
    ban_ip-process-IsDenied plain site client (pos 60000000) (pos 5) (pos 1000) (pos 1001) engine
      named known-IsValid refl fits_60 refl

-- No filter, and a Redis that is away for two round trips.
abbrev away : Trip Db
away = record { meanwhile = λ s. s; delivery = unsent }

abbrev cut_off : Engine plain site
cut_off = record engine { bf = none; network = record { store = empty; trips = away ∷ away ∷ [] } }

process-FailsOpen_example :
    (d : Decision) × (e' : Engine plain site) × (process plain site client (pos 5) (pos 6) cut_off
      ≡ some (d, e'))
    × (d.is_allowed ≡ cut_off.cfg.fail_open)
unfolding ip_of with_defaults
process-FailsOpen_example =
    process-FailsOpen plain site client (pos 5) (pos 6) cut_off refl refl refl refl (refl, refl)

abbrev unfiltered : Engine plain site
unfiltered = record engine { bf = none }

unfiltered-IsCalm :
    IsCalm plain site false
      (ip_of plain site unfiltered client)
      unfiltered.cfg.prefix
      unfiltered.network
unfolding wrap64 ◌*ℤ◌
unfiltered-IsCalm = record { calm = refl; lists = refl; unboxed = refl }

process-Decides_example :
    (d : Decision) × (e' : Engine plain site) × (process plain site client
        (pos 5)
        (pos 6)
        unfiltered
      ≡ some (d, e'))
    × (d.is_allowed
        ≡ not (
            exceeds plain site
              (key_of plain site unfiltered client)
              (limit_for plain site (ip_of plain site unfiltered client) (pos 5) unfiltered).0
              unfiltered))
unfolding ip_of with_defaults or_default live
process-Decides_example =
    process-Decides plain site client (pos 5) (pos 6) unfiltered refl refl refl refl refl
      unfiltered-IsCalm

-- A Redis whose blacklist holds the address.
abbrev listing : Engine plain site
listing = record unfiltered {
  network = record {
    store =
        site.redis.sadd (blacklist_key unfiltered.cfg.prefix (ip_of plain site unfiltered client))
          empty;
    trips = [];
  };
}
