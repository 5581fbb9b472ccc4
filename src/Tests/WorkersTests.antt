-- ===== src/Tests/WorkersTests.antt =====
-- The workers and the start of the engine.
use guard_go.Base.{◌≡◌, refl, true, some, none, [], ◌∷◌, ℕ, ◌≤◌, ◌+◌, ◌*◌, List, length, arith, ltb}
use guard_go.Base.Int.{pos}
use guard_go.Text.{codes}
use guard_go.Config.Defaults.{with_defaults, bloom_defaults, or_nonzero}
use guard_go.Ruleset.{CompiledRuleset}
use guard_go.Ruleset.Manager.{Outcome, ok, failed, Files, Manager}
use guard_go.Ruleset.Manager.Reloads.{rules_in, rules_of}
use guard_go.Engine.{Engine}
use guard_go.Engine.Workers.{
  Pool, Move, arrive, take, leave, shut, finish, run, step, start_background, pick, under,
  move_arrive, move_take, move_finish, move_leave, move_shut,
}
use guard_go.Engine.Workers.Runs.{
  tally, held, workers, work_left, arrivals, brings, run-conserved, run_bounded,
}
use guard_go.Engine.Workers.Closing.{Retires, run-closed-Retires}
use guard_go.Engine.Lifecycle.{StartError, new_engine, in_force, dynamic_manager, compiled_rules}
use guard_go.Engine.Lifecycle.Fresh.{OutcomeIsStarted, new_engine-OutcomeIsStarted}
use guard_go.Tests.ConfigTests.{plain, bare}
use guard_go.Tests.RulesetTests.{two_rules}
use guard_go.Tests.Sites.{site, engine}

-- Two workers, a channel of one place: the third snapshot is refused.
abbrev moves : List (Move ℕ)
moves = arrive 1 ∷ take ∷ arrive 2 ∷ arrive 3 ∷ shut ∷ take ∷ finish 1 ∷ leave ∷ []

abbrev reached : Pool ℕ
reached = record {
  waiting = [];
  busy = 2 ∷ [];
  finished = 1 ∷ [];
  refused = 3 ∷ [];
  idle = 0;
  exited = 1;
  closed = true;
}

reached_lem : run 1 moves (start_background 2) ≡ some reached
unfolding run step start_background pick under move_arrive move_take move_finish move_leave
    move_shut
reached_lem = refl

run-conserved_example :
    (held (λ n. ltb n 3) reached ≡ tally (λ n. ltb n 3) (arrivals moves)) × (workers reached ≡ 2)
run-conserved_example = run-conserved 1 2 (λ n. ltb n 3) moves reached reached_lem

run_bounded_example : length moves ≤ 2 + brings moves
run_bounded_example = run_bounded 1 2 moves reached reached_lem

-- A snapshot that arrives after the close and stays in the channel.
abbrev late : Pool ℕ
late = record reached { waiting = 4 ∷ [] }

late_lem : run 1 (arrive 4 ∷ []) reached ≡ some late
unfolding run step move_arrive
late_lem = refl

run-closed-Retires_example :
    (1 ≤ work_left reached + 4 * length (arrivals {A = ℕ} (arrive 4 ∷ [])))
    × (workers late ≡ workers reached)
    × Retires 1 late
run-closed-Retires_example = run-closed-Retires 1 (arrive 4 ∷ []) reached late refl late_lem

-- A rule file in JSON that holds two rules, or cannot be read.
abbrev readable : Files ℕ
readable = record {
  read_file = λ path. ok [];
  extension = λ path. codes ".json";
  yaml = λ body. failed 1;
  json = λ body. ok two_rules;
  path_empty = 2;
}

abbrev missing : Files ℕ
missing = record readable { read_file = λ path. failed 3 }

abbrev manager : Manager
manager = record { path = codes "rules.json"; current = none }

abbrev no_manager : ℕ → Manager
no_manager n = manager

abbrev no_rules : ℕ → CompiledRuleset
no_rules n = record { any = none; query = none; headers = none; path = none }

new_engine-OutcomeIsStarted_example :
    (out : Outcome (StartError ℕ) (Engine plain site)) × (new_engine plain site ℕ missing no_manager
        no_rules 0 bare engine.network
        (pos 5)
      ≡ some out)
    × OutcomeIsStarted plain site ℕ missing no_manager no_rules 0 out
unfolding in_force dynamic_manager compiled_rules rules_in rules_of with_defaults bloom_defaults
    or_nonzero
new_engine-OutcomeIsStarted_example =
    new_engine-OutcomeIsStarted plain site ℕ missing no_manager no_rules 0 bare engine.network
      (pos 5) (omega arith) (omega arith) refl tt tt tt
