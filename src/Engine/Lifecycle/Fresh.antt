-- ===== src/Engine/Lifecycle/Fresh.antt =====
-- engine.go: what `NewEngine` returns.
use guard_go.Base.{
  ℕ, ◌+◌, ◌<◌, ◌^◌, ◌≡◌, ◌∙◌, refl, sym, ap, subst, Bool, true, false, not, ◌&&◌, Option, none,
  some, List, [], if◌then◌else◌, Bool-cases, inl, inr, ◌≤◌, ◌>>=◌, arith,
}
use guard_go.Base.Int.{ℤ}
use guard_go.Text.{Bytes, is_empty, trim_space}
use guard_go.Config.{World, MiddlewareConfig}
use guard_go.Config.Defaults.{is_nil}
use guard_go.Bloom.Membership.{words_needed, new_filter-IsFresh}
use guard_go.Bloom.{Filter}
use guard_go.Cache.{new_cache}
use guard_go.Ruleset.{CompiledRuleset, SignatureRule}
use guard_go.Ruleset.Manager.{Outcome, ok, failed, Files, Manager}
use guard_go.Ruleset.Manager.Reloads.{IsPlain, rules_in, started, new_ruleset_manager_lem}
use guard_go.Engine.{Site, Engine, Network, Snapshot}
use guard_go.Engine.Quiet.{FilterIsValid}
use guard_go.Engine.Scoring.Weighed.{compile_ruleset-IsReady}
use guard_go.Engine.Background.Effects.{IsFit, RulesetIsReady, ManagerIsReady}
use guard_go.Engine.Lifecycle.{
  StartError, rules_refused, cache_refused, Rules, file_rules, dynamic_manager, compiled_rules,
  should_run_background, start_filter, start_queue, start_rules, assemble, assemble_rules, in_force,
  with_caches, new_engine,
}

module _ (w : World) (x : Site w) (E : Type 0) (files : Files E) (manager_of : w.Manager → Manager)
    (ruleset_of : w.Ruleset → CompiledRuleset) (client : w.Client) where
  abbrev RulesAreReady : Outcome (StartError E) Rules → Type 0
  RulesAreReady (failed err) = Unit
  RulesAreReady (ok (manager, compiled)) = ManagerIsReady w x manager × RulesetIsReady w x compiled

  abbrev OutcomeIsReady : Outcome E Manager → Type 0
  OutcomeIsReady (failed err) = Unit
  OutcomeIsReady (ok m) = RulesetIsReady w x m.current

  file_rules-ready :
      (o : Outcome E Manager)
      → OutcomeIsReady o
      → (out : Outcome (StartError E) Rules) × (file_rules w x E files manager_of ruleset_of client
            (some o)
          ≡ some out)
        × RulesAreReady out
  unfolding file_rules
  file_rules-ready (failed err) h = (failed (rules_refused err), refl, tt)
  file_rules-ready (ok m) h = (ok (some m, m.current), refl, (h, h))

  started-ready :
      (path : Bytes) (o : Outcome E (List SignatureRule))
      → IsPlain E x.unicode o
      → OutcomeIsReady (started E x.unicode path o)
  unfolding started
  started-ready path (failed err) plain = tt
  started-ready path (ok rules) plain =
      let (c, made, ready) =
        compile_ruleset-IsReady x.iterate x.iterate_order x.unicode rules plain.0 plain.1 in
      subst (RulesetIsReady w x) (sym made) ready

  either-ready :
      (b : Bool) (o o' : Outcome E Manager)
      → OutcomeIsReady o
      → OutcomeIsReady o'
      → OutcomeIsReady (if b then o else o')
  either-ready true o o' h h' = h
  either-ready false o o' h h' = h'

  compiled_rules-ready :
      (c : Option w.Ruleset) (m : Option Manager)
      → RulesetIsReady w x (compiled_rules w x E files manager_of ruleset_of client c none)
      → ManagerIsReady w x m
      → RulesetIsReady w x (compiled_rules w x E files manager_of ruleset_of client c m)
  unfolding compiled_rules
  compiled_rules-ready (some c) m h h' = h
  compiled_rules-ready none none h h' = tt
  compiled_rules-ready none (some m) h h' = h'

  start_rules-ready :
      (cfg : MiddlewareConfig w)
      → IsPlain E x.unicode (rules_in E x.unicode files cfg.ruleset_file)
      → ManagerIsReady w x
          (dynamic_manager w x E files manager_of ruleset_of client cfg.dynamic_rules)
      → RulesetIsReady w x
          (compiled_rules w x E files manager_of ruleset_of client cfg.compiled_rules none)
      → (out : Outcome (StartError E) Rules) × (start_rules w x E files manager_of ruleset_of client
            cfg
          ≡ some out)
        × RulesAreReady out
  unfolding start_rules
  start_rules-ready cfg plain m c =
      let manager = dynamic_manager w x E files manager_of ruleset_of client cfg.dynamic_rules in
      elim (Bool-cases (not (is_empty cfg.ruleset_file) && is_nil manager)) [
        | inl loads ↦
            let (out, e, ready) = file_rules-ready _ (
              either-ready (is_empty (trim_space x.unicode cfg.ruleset_file))
                (failed files.path_empty)
                (started E x.unicode cfg.ruleset_file (rules_in E x.unicode files cfg.ruleset_file))
                tt (started-ready cfg.ruleset_file _ plain)) in
            (
              out,
              rw loads (
                  ap (file_rules w x E files manager_of ruleset_of client)
                    (new_ruleset_manager_lem E x.unicode files cfg.ruleset_file plain)
                  ∙ e),
              ready,
            )
        | inr keeps ↦ (
          ok (
            manager,
            compiled_rules w x E files manager_of ruleset_of client cfg.compiled_rules manager,
          ),
          rw keeps refl,
          (m, compiled_rules-ready cfg.compiled_rules manager c m),
        )
      ]

  -- An engine that has done nothing yet: its filter and rules are as their constructors build them, no
  -- address is banned or boxed, and nobody has been told anything.
  pub record IsStarted (e : Engine w x) : Type 0 where
    pub fit : IsFit w x e
    pub no_bans : (ip : Bytes) → x.lru.peek ip e.cache ≡ none
    pub no_penalties : (ip : Bytes) → x.lru.peek ip e.pbox ≡ none
    pub unheard : e.events ≡ []

  abbrev pub OutcomeIsStarted : Outcome (StartError E) (Engine w x) → Type 0
  OutcomeIsStarted (failed err) = Unit
  OutcomeIsStarted (ok e) = IsStarted e

  start_filter-FilterIsValid :
      (b : Bool) (bits hashes : ℕ)
      → bits + 63 < 2 ^ 64
      → words_needed bits ≤ x.room
      → (bf : Option Filter) × (start_filter w x E files manager_of ruleset_of client b bits hashes
          ≡ some bf)
        × FilterIsValid bf
  unfolding start_filter
  start_filter-FilterIsValid false bits hashes h fits = (none, refl, tt)
  start_filter-FilterIsValid true bits hashes h fits =
      elim (new_filter-IsFresh x.room bits hashes h) [
        | inl big ↦ absurd (omega (arith, big.0, fits))
        | inr (_, (f, made, fresh)) ↦ (some f, rw (made, ◌>>=◌) refl, fresh.valid)
      ]

  start_queue-some :
      (b : Bool) (size : ℤ)
      → x.channel_fits size ≡ true
      → (queue : Option (List Snapshot)) × (start_queue w x E files manager_of ruleset_of client b
            size
          ≡ some queue)
  unfolding start_queue
  start_queue-some false size fits = (none, refl)
  start_queue-some true size fits = (some [], rw fits refl)

  assemble_rules-IsStarted :
      (cfg : MiddlewareConfig w) (cache pbox : x.lru.State) (network : Network x.redis.Store)
      (now : ℤ) (bf : Option Filter) (o : Outcome (StartError E) Rules)
      → RulesAreReady o
      → FilterIsValid bf
      → x.channel_fits cfg.adaptive_ban.queue_size ≡ true
      → ((ip : Bytes) → x.lru.peek ip cache ≡ none)
      → ((ip : Bytes) → x.lru.peek ip pbox ≡ none)
      → (out : Outcome (StartError E) (Engine w x)) × (assemble_rules w x E files manager_of
            ruleset_of client cfg cache pbox network now bf
            (some o)
          ≡ some out)
        × OutcomeIsStarted out
  unfolding assemble_rules assemble
  assemble_rules-IsStarted cfg cache pbox network now bf (failed err) ready valid fits empty
        empty' =
      (failed err, refl, tt)
  assemble_rules-IsStarted cfg cache pbox network now bf (ok (manager, compiled)) ready valid fits
        empty empty' =
      let runs : Bool = should_run_background w x E files manager_of ruleset_of client cfg in
      let (queue, made) = start_queue-some runs cfg.adaptive_ban.queue_size fits in
      (
        ok (
            assemble w x E files manager_of ruleset_of client cfg cache pbox network now bf
              (manager, compiled) queue),
        rw (made, ◌>>=◌) refl,
        record {
          fit = record { filter = valid; rules = ready.1; manager = ready.0 };
          no_bans = empty;
          no_penalties = empty';
          unheard = refl;
        },
      )

  with_caches-IsStarted :
      (cfg : MiddlewareConfig w) (network : Network x.redis.Store) (now : ℤ)
      (o : Option x.lru.State) (rules : Outcome (StartError E) Rules)
      → x.lru.create cfg.cache_size ≡ o
      → RulesAreReady rules
      → cfg.bloom.bits + 63 < 2 ^ 64
      → words_needed cfg.bloom.bits ≤ x.room
      → x.channel_fits cfg.adaptive_ban.queue_size ≡ true
      → (out : Outcome (StartError E) (Engine w x)) × (with_caches w x E files manager_of ruleset_of
            client cfg o o network now
            (some rules)
          ≡ some out)
        × OutcomeIsStarted out
  unfolding with_caches
  with_caches-IsStarted cfg network now none rules made ready bits room fits =
      (failed cache_refused, refl, tt)
  with_caches-IsStarted cfg network now (some cache) rules made ready bits room fits =
      let empty : (ip : Bytes) → x.lru.peek ip cache ≡ none =
        λ ip. x.lru.create_peek cfg.cache_size cache ip made in
      let (bf, filtered, valid) =
        start_filter-FilterIsValid cfg.bloom.enabled cfg.bloom.bits cfg.bloom.hashes bits room in
      let (out, e, started) =
        assemble_rules-IsStarted cfg cache cache network now bf rules ready valid fits empty
          empty in
      (out, rw (filtered, ◌>>=◌) e, started)

  -- The settings in force.
  abbrev pub effective : MiddlewareConfig w → MiddlewareConfig w
  effective settings = in_force w x E files manager_of ruleset_of client settings

  -- `NewEngine` does not panic: it returns an error or an engine that is fit to judge requests and
  -- snapshots, with no address banned or boxed. (The filter has fewer than 2^64 - 63 bits and its words
  -- fit a slice, the queue's size is one that a channel can have; the rules that the settings hold are
  -- compiled ones, and a parsed rule file is of bytes and at most 10^20 rules.)
  pub new_engine-OutcomeIsStarted :
      (settings : MiddlewareConfig w) (network : Network x.redis.Store) (now : ℤ)
      → (effective settings).bloom.bits + 63 < 2 ^ 64
      → words_needed (effective settings).bloom.bits ≤ x.room
      → x.channel_fits (effective settings).adaptive_ban.queue_size ≡ true
      → IsPlain E x.unicode (rules_in E x.unicode files (effective settings).ruleset_file)
      → ManagerIsReady w x (
          dynamic_manager w x E files manager_of ruleset_of client
            (effective settings).dynamic_rules)
      → RulesetIsReady w x (
          compiled_rules w x E files manager_of ruleset_of client
            (effective settings).compiled_rules
            none)
      → (out : Outcome (StartError E) (Engine w x)) × (new_engine w x E files manager_of ruleset_of
            client settings network now
          ≡ some out)
        × OutcomeIsStarted out
  unfolding new_engine new_cache
  new_engine-OutcomeIsStarted settings network now bits room fits plain m c =
      let cfg : MiddlewareConfig w = in_force w x E files manager_of ruleset_of client settings in
      let (rules, loaded, ready) = start_rules-ready cfg plain m c in
      let (out, e, started) =
        with_caches-IsStarted cfg network now (x.lru.create cfg.cache_size) rules refl ready bits
          room fits in
      (
        out,
        ap
              (with_caches w x E files manager_of ruleset_of client cfg
                (x.lru.create cfg.cache_size) (x.lru.create cfg.cache_size) network now)
              loaded
            ∙ e,
        started,
      )
