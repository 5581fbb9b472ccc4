-- ===== src/Engine/Listed.antt =====
-- engine_process.go: an address that the blacklist of Redis holds.
use guard_go.Base.{◌≡◌, Option, some}
use guard_go.Base.Int.{ℤ, pos, ◌+ℤ◌, wrap64}
use guard_go.Text.{Bytes}
use guard_go.Config.{World}
use guard_go.Decision.{Decision}
use guard_go.Engine.{Site, Engine}
use guard_go.Engine.Bans.{IsRefusal, Holds}

module _ (w : World) (x : Site w) where
  -- The request is refused as blacklisted, and the cache keeps the address for two seconds.
  abbrev Refuses : Bytes → ℤ → Engine w x → Option (Decision × Engine w x) → Type 0
  Refuses ip now e m =
      (d : Decision) × (e' : Engine w x) × (m ≡ some (d, e'))
      × IsRefusal w x d
      × Holds w x ip (wrap64 (now +ℤ pos 2000000000)) e e'
