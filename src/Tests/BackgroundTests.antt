-- ===== src/Tests/BackgroundTests.antt =====
-- The background pipeline, on a snapshot of the same address.
use guard_go.Base.{◌≡◌, refl, true, some, [], ◌∷◌, arith}
use guard_go.Base.Int.{pos, ◌+ℤ◌, ◌*ℤ◌, wrap64}
use guard_go.Text.{codes}
use guard_go.Config.Defaults.{
  adaptive_defaults, with_defaults, or_default, or_literal, reputation_defaults,
}
use guard_go.Tests.Stores.{put}
use guard_go.Ruleset.{CompiledRuleset}
use guard_go.Ruleset.Compile.{compile_ruleset-IsCompiled}
use guard_go.Redis.Reputation.{IsTimed, ban_after}
use guard_go.Engine.{Engine, Snapshot}
use guard_go.Engine.Penalty.{blacklist_key}
use guard_go.Engine.Process.{process, ip_of}
use guard_go.Engine.Bans.{IsDenied}
use guard_go.Engine.Scoring.Scored.{IsRequest}
use guard_go.Engine.Background.{request_of, levels_of, reputation_field, react, process_snapshot}
use guard_go.Engine.Background.Effects.{IsFit}
use guard_go.Engine.Background.Reactions.{Ends, process_snapshot-Ends}
use guard_go.Engine.Background.Banned.{react-process-IsDenied}
use guard_go.Engine.Background.Adaptive.{adapt-process-IsDenied}
use guard_go.Engine.Background.{adapt}
use guard_go.Tests.ConfigTests.{plain}
use guard_go.Tests.RedisTests.{commands, empty}
use guard_go.Tests.RulesetTests.{two_rules}
use guard_go.Tests.Sites.{site, engine, client, known-IsValid}

abbrev snapshot : Snapshot
snapshot = record {
  ip = client;
  key = client;
  method = codes "GET";
  host = codes "h";
  path = codes "/";
  raw_query = codes "q=1";
  ua = codes "curl";
  lang = [];
  header = (codes "User-Agent", codes "curl" ∷ []) ∷ [];
  ts = pos 5;
}

engine-IsFit : IsFit plain site engine
engine-IsFit = record { filter = known-IsValid; rules = tt; manager = tt }

snapshot-IsRequest : IsRequest (request_of snapshot)
unfolding request_of
snapshot-IsRequest = record { method = omega arith; url = omega arith; header = omega arith }

process_snapshot-Ends_example :
    Ends plain site engine (process_snapshot plain site snapshot (pos 5) (pos 6) engine)
process_snapshot-Ends_example =
    process_snapshot-Ends plain site snapshot (pos 5) (pos 6) engine engine-IsFit snapshot-IsRequest

abbrev compiled : CompiledRuleset
compiled = (compile_ruleset-IsCompiled site.unicode two_rules (omega arith) (omega arith)).0

abbrev ruled : Engine plain site
ruled = record engine { compiled = some compiled }

levels_of-IsTimed : IsTimed (levels_of plain site engine)
unfolding levels_of with_defaults reputation_defaults or_default
levels_of-IsTimed = record {
  scores = refl;
  penalty = refl;
  backoff = refl;
  first = refl;
  second = refl;
  third = refl;
}

react-process-IsDenied_example :
    (e' : Engine plain site) × (react plain site snapshot 1000000 (pos 5) engine ≡ some e')
    × (commands.member (blacklist_key engine.cfg.prefix client) e'.network.store ≡ true)
    × IsDenied plain site e' (process plain site client (pos 1000) (pos 1001) e')
unfolding ip_of levels_of with_defaults ban_after reputation_defaults or_literal put
    reputation_field ◌+ℤ◌ wrap64 ◌*ℤ◌ or_default
react-process-IsDenied_example =
    react-process-IsDenied plain site snapshot 1000000 client (pos 5) (pos 1000) (pos 1001) engine
      refl refl known-IsValid refl refl levels_of-IsTimed refl (omega arith) refl

-- An address with 99 threats behind it.
abbrev threatened : Engine plain site
threatened = record engine {
  network = record { store = record empty { counts = λ k. 99 }; trips = [] };
}

adapt-process-IsDenied_example :
    (e' : Engine plain site) × (adapt plain site
        (ip_of plain site threatened client)
        (pos 5)
        threatened
      ≡ some e')
    × IsDenied plain site e' (process plain site client (pos 1000) (pos 1001) e')
unfolding ip_of with_defaults adaptive_defaults or_default ◌+ℤ◌
adapt-process-IsDenied_example =
    adapt-process-IsDenied plain site client (pos 5) (pos 1000) (pos 1001) threatened refl
      known-IsValid refl refl refl (omega arith) refl
