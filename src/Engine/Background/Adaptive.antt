-- ===== src/Engine/Background/Adaptive.antt =====
-- engine_background.go: the adaptive ban, from the count of threats to the next request of the address.
use guard_go.Base.{ℕ, ◌+◌, ◌≡◌, ◌∙◌, refl, ap, Bool, true, false, Option, some, [], ◌>>=◌}
use guard_go.Base.Int.{ℤ, pos, leb_ℤ, ◌+ℤ◌, IsInt64}
use guard_go.Text.{Bytes, is_empty}
use guard_go.Config.{World}
use guard_go.Engine.{Site, Engine, Network, travel, round_trip}
use guard_go.Engine.Keys.{threat_key}
use guard_go.Engine.Process.{ip_of, process}
use guard_go.Engine.Quiet.{FilterIsValid}
use guard_go.Engine.Bans.{IsDenied, ban_ip-process-IsDenied}
use guard_go.Engine.Background.{count_threat, after_threat, adapt}
use guard_go.Engine.Background.Banned.{travel_lem, if_true}

module _ (w : World) (x : Site w) where
  -- The threats of the address that Redis has counted.
  abbrev pub threats : Bytes → Engine w x → ℕ
  threats ip e = x.redis.count (threat_key e.cfg.prefix ip) e.network.store

  abbrev counted : Bytes → Engine w x → ℕ × x.redis.Store
  counted ip e =
      count_threat w x (threat_key e.cfg.prefix ip) e.cfg.adaptive_ban.threat_key_window
        e.network.store

  after_count : Bytes → Engine w x → Engine w x
  after_count ip e = record e { network = record { store = (counted ip e).1; trips = [] } }

  adapt-after_threat :
      (ip : Bytes) (now : ℤ) (e : Engine w x)
      → e.cfg.adaptive_ban.enabled ≡ true
      → e.network.trips ≡ []
      → adapt w x ip now e ≡ after_threat w x ip now (some (threats ip e + 1)) (after_count ip e)
  unfolding adapt round_trip after_count count_threat
  adapt-after_threat ip now e on quiet =
      if_true e.cfg.adaptive_ban.enabled _ _ on
      ∙ ap
          (λ (p : Option ℕ × Network x.redis.Store).
            after_threat w x ip now p.0 (record e { network = p.1 }))
          (travel_lem e.network.store e.network.trips
            (count_threat w x (threat_key e.cfg.prefix ip) e.cfg.adaptive_ban.threat_key_window)
            quiet)
      ∙ ap (λ (n : ℕ). after_threat w x ip now (some n) (after_count ip e))
          (x.redis.incr_count (threat_key e.cfg.prefix ip) e.network.store)

  -- A threat that brings the count of an address to its threshold bans it: if a request of the address is
  -- the next thing that this engine sees, before the ban expires, it is denied without a round trip to
  -- Redis. (The adaptive ban is on, Redis answers the count and the ban and nobody else changes the store
  -- meanwhile, the expiry is an instant that an int64 of nanoseconds can hold, and the filter is one that
  -- New has built.)
  pub adapt-process-IsDenied :
      (r : w.Request) (now now' later : ℤ) (e : Engine w x)
      → is_empty (ip_of w x e r) ≡ false
      → FilterIsValid e.bf
      → e.cfg.adaptive_ban.enabled ≡ true
      → e.network.trips ≡ []
      → leb_ℤ e.cfg.adaptive_ban.threat_count_threshold (pos (threats (ip_of w x e r) e + 1)) ≡ true
      → IsInt64 (now +ℤ e.cfg.adaptive_ban.ban_ttl)
      → leb_ℤ (now +ℤ e.cfg.adaptive_ban.ban_ttl) now' ≡ false
      → (e' : Engine w x) × (adapt w x (ip_of w x e r) now e ≡ some e')
        × IsDenied w x e' (process w x r now' later e')
  unfolding after_threat after_count ip_of round_trip travel
  adapt-process-IsDenied r now now' later e named v on quiet reached fits running =
      let ip : Bytes = ip_of w x e r in
      let e1 : Engine w x = after_count ip e in
      let (e', banned, denied) =
        ban_ip-process-IsDenied w x r e.cfg.adaptive_ban.ban_ttl now now' later e1 named v refl fits
          running in
      (
        e',
        adapt-after_threat ip now e on quiet
            ∙ if_true (leb_ℤ e.cfg.adaptive_ban.threat_count_threshold (pos (threats ip e + 1))) _ _
                reached
            ∙ ap (λ (o : Option (Bool × Engine w x)). do (done, e2) ← o; some e2) banned,
        denied,
      )
