-- ===== src/Lib.antt =====
-- Verification of GuardGo, a rate-limiting and request-filtering middleware for Go HTTP servers.
--
-- The program. Each request is judged by the engine (engine_process.go): a local cache of bans
-- (internal/blacklist/cache.go), a penalty box, an optional bloom filter of banned addresses
-- (pkg/bloom/filter.go) and a Lua script in Redis that checks the shared ban list and counts the
-- request (internal/redislua/script.go). The answer is a decision (decision.go), which the middleware
-- (middleware_http.go) turns into a status or a call of the next handler. In the background the
-- engine scores requests, among others with signature rules (ruleset.go) that are compiled into
-- Aho-Corasick matchers (pkg/dfa/matcher.go); a second script (internal/redislua/reputation.go) adds
-- the score up and bans or penalises the client. config.go holds the settings and their defaults.
--
-- The files.
--   Base, Text: tests, lists, signed and 64-bit integers, binary digits; Go strings as byte lists.
--   Bloom (pkg/bloom/filter.go): New, Add and Test as new_filter, add and test on a list of 64-bit
--     words; Bloom/Concurrent splits Add into its atomic loads and compare-and-swaps and runs them in
--     any order of goroutines.
--   Dfa (pkg/dfa/matcher.go): New, insert, buildFailures and FindAll as new_matcher, insert,
--     build_failures and find_all on a list of nodes; the other files below Dfa prove the automaton
--     right, one phase each: Grow and Insert the trie, Queue to Build the failure links, Search the
--     scan, Make and Correct the whole.
--   Ruleset (ruleset.go): extractPatternTokens, strconvI, CompileRuleset and Stats; Ruleset/Manager is
--     RulesetManager, with its loading and its reloads.
--   Rules (rules/basic.go): the Contains rules; Rules/Contains proves their search and Rules/Scores
--     their scores.
--   Redis (internal/redislua/script.go and reputation.go): the scripts as critical_path and
--     reputation over a store; Redis/Critical and Redis/Reputation judge one run, Redis/Quota a
--     sequence of runs.
--   Cache (internal/blacklist/cache.go): New, IsBlacklisted and Blacklist; Cache/History runs any
--     sequence of them.
--   Decision (decision.go, middleware_http.go): newDecision, newDecisionWithTTL, StatusCodeOr and the
--     branch of Middleware.
--   Config (config.go): the settings and withDefaults; Config/Kept, Config/Positive and Config/Fixed
--     say what it does.
--   Http, Floats: requests, and the float64 arithmetic as a parameter.
--   SelfHealing (self_healing.go): effectiveLimit and observe as effective_limit and observe;
--     SelfHealing/Invariant runs any sequence of them.
--   Behavior (behavior_tracker.go): observe, on a map of entries; Behavior/Diversity runs the requests
--     of a window.
--   Engine (engine.go): the engine's state and what it reaches outside. Below it, Process
--     (engine_process.go) is Process with one function for each early return, Penalty
--     (engine_penalty.go) bans and the penalty box, Snapshots and Replies the rest of
--     engine_process.go, Keys the keys in Redis, Scoring (engine_ruleset.go) evaluateRuleset, Background
--     (engine_background.go, engine_reputation.go) processSnapshot and applyReputationScore, Workers the
--     goroutines behind the channel and Close, Lifecycle NewEngine. Quiet, Accounting, Judged, Bans,
--     Outage, Script, Limits and Listed prove the request path; the files below Scoring, Background,
--     Workers and Lifecycle the rest.
--   Tests: the theorems at concrete inputs, with the parameters instantiated, and runs.
--
-- Numbers, panics, loops. int64 and time.Duration are integers whose operations wrap at 64 bits where
-- the source computes with them; the words of the bloom filter and its hashes are naturals below
-- 2^64; an expiry is a reading of UnixNano, which wraps at 64 bits too. A Go panic (an index out of
-- range, a slice or channel of an impossible size) is `none`. Loops are structural but for two that run
-- on fuel: the queue of buildFailures has as many rounds as there are nodes, since a node enters the
-- queue once, and strconvI has the 20 places of its buffer, enough for an index below 10^20.
--
-- Parameters, with their documented behaviour as laws: the Unicode tables of ToLower and TrimSpace
-- (Text.Unicode; ASCII is written out), the order in which Go walks a map (`iterate`,
-- `walk`), which slices and channels `make` can make (`room`, `channel_fits`), the commands of
-- Redis (Redis.Commands; a script is atomic and no key expires inside it), the LRU cache (Cache.Lru),
-- floats, requests and the handles that the settings hold (Config.World), float arithmetic
-- (Floats.Arithmetic, with the laws of IEEE 754 that are used), the packages around the engine
-- (Engine.Site: the canonical form of a header's name, the 64-bit FNV hash, the text of numbers, the
-- application's rules and evaluators), reading and parsing a rule file (Ruleset.Manager.Files).
--
-- Redis and time. A call of Redis, a pipeline too, is one round trip (Engine.Network): before it other
-- clients may have changed the store and keys may have expired, and it may fail before or after its
-- commands run. The clock is read into arguments. One request, or one snapshot, is judged at a time: the
-- goroutines that share an engine are not interleaved inside Process, but those of the workers are, as
-- moves, in Engine/Workers.
--
-- Not modelled: spans and durations of requests (tracing.go), the pool in which snapshots are kept for
-- reuse, the presets (rules/presets.go, lists of patterns), the constructors that only pass settings on
-- (helpers.go), the formatting of headers, telemetry, the adapters for web frameworks (frameworks.go),
-- the wiring of signals (hotreload_unix.go) and the commands (cmd/), which are input and output around
-- the library.
pub mod Base
pub mod Text
pub mod Config
pub mod Decision
pub mod Redis
pub mod Cache
pub mod Ruleset
pub mod Rules
pub mod Floats
pub mod Http
pub mod Behavior
pub mod Engine
pub mod SelfHealing
pub mod Bloom
pub mod Dfa
mod Tests
