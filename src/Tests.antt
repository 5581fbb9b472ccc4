-- ===== src/Tests.antt =====
-- The theorems at concrete inputs, and runs of the definitions.
mod BloomTests
mod Stores
mod DfaTests
mod RulesetTests
mod ConfigTests
mod Sites
mod EngineTests
mod BackgroundTests
mod WorkersTests
mod LimiterTests
mod DecisionTests
mod RedisTests
mod RulesTests
mod CacheTests
