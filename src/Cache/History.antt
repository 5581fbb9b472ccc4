-- ===== src/Cache/History.antt =====
-- internal/blacklist/cache.go: what the cache answers after a sequence of operations.
use guard_go.Base.{
  ◌≡◌, ◌⊎◌, ◌∙◌, refl, sym, ap, Bool, true, false, not, Option, none, some, List, [], ◌∷◌,
  if◌then◌else◌, inl, inr, Bool-cases, arith,
}
use guard_go.Base.Int.{ℤ, leb_ℤ}
use guard_go.Text.{Bytes, same_text, same_text-eq, same_text-neq}
use guard_go.Cache.{Lru, new_cache, check_expiry, is_blacklisted, blacklist}

-- A call of `Blacklist` with its instant, or of `IsBlacklisted` at an instant.
pub data Call : Type 0 where
  ban ask : Bytes → ℤ → Call

-- The instant of the last ban of the key, among calls listed from the last to the first.
unfoldable pub last_ban : Bytes → List Call → Option ℤ
last_ban key [] = none
last_ban key (ask k now ∷ calls) = last_ban key calls
last_ban key (ban k until ∷ calls) = if same_text key k then some until else last_ban key calls

module _ (l : Lru) where
  unfoldable pub after_call : Call → l.State → l.State
  after_call (ban key until) s = blacklist l key until s
  after_call (ask key now) s = (is_blacklisted l key now s).1

  unfoldable pub after_calls : List Call → l.State → l.State
  after_calls [] s = s
  after_calls (c ∷ calls) s = after_call c (after_calls calls s)

  check_expiry-peek :
      (key j : Bytes) (now : ℤ) (e : Option ℤ) (s : l.State)
      → (l.peek j ((check_expiry l key now (e, s)).1) ≡ l.peek j s)
        ⊎ (l.peek j ((check_expiry l key now (e, s)).1) ≡ none)
  unfolding check_expiry
  check_expiry-peek key j now none s = inl refl
  check_expiry-peek key j now (some exp) s = elim (Bool-cases (leb_ℤ exp now)) [
    | inr live ↦ inl (rw live refl)
    | inl expired ↦ elim (Bool-cases (same_text j key)) [
      | inl same ↦ inr (rw (expired, same_text-eq j key same) (l.remove_peek key s))
      | inr other ↦ inl (rw expired (l.remove_other key j s (same_text-neq j key other)))
    ]
  ]

  ask-peek :
      (key j : Bytes) (now : ℤ) (s : l.State)
      → (l.peek j ((is_blacklisted l key now s).1) ≡ l.peek j s)
        ⊎ (l.peek j ((is_blacklisted l key now s).1) ≡ none)
  unfolding is_blacklisted
  ask-peek key j now s = elim (check_expiry-peek key j now ((l.get key s).0) ((l.get key s).1)) [
    | inl e ↦ inl (e ∙ l.get_peek key j s)
    | inr e ↦ inr e
  ]

  -- The entry of a key is its last ban, or none.
  pub after_calls-peek :
      (calls : List Call) (s : l.State) (key : Bytes)
      → ((k : Bytes) → l.peek k s ≡ none)
      → (l.peek key (after_calls calls s) ≡ last_ban key calls)
        ⊎ (l.peek key (after_calls calls s) ≡ none)
  unfolding after_calls after_call last_ban blacklist
  after_calls-peek [] s key fresh = inr (fresh key)
  after_calls-peek (ask k now ∷ calls) s key fresh =
      elim (ask-peek k key now (after_calls calls s)) [
        | inr gone ↦ inr gone
        | inl e ↦ elim (after_calls-peek calls s key fresh) [
          | inl h ↦ inl (e ∙ h)
          | inr h ↦ inr (e ∙ h)
        ]
      ]
  after_calls-peek (ban k until ∷ calls) s key fresh = elim (Bool-cases (same_text key k)) [
    | inl same ↦ inl (rw (same, same_text-eq key k same) (l.add_peek k until (after_calls calls s)))
    | inr other ↦ elim (l.add_other k key until (after_calls calls s) (same_text-neq key k other)) [
      | inr gone ↦ inr gone
      | inl e ↦ elim (after_calls-peek calls s key fresh) [
        | inl h ↦ inl (rw other (e ∙ h))
        | inr h ↦ inr (e ∙ h)
      ]
    ]
  ]

  -- The answer for a key is whether its entry expires after `now`.
  unfoldable pub live : Option ℤ → ℤ → Bool
  live none now = false
  live (some exp) now = not (leb_ℤ exp now)

  check_expiry-live :
      (key : Bytes) (now : ℤ) (e : Option ℤ) (s : l.State)
      → (check_expiry l key now (e, s)).0 ≡ live e now
  unfolding check_expiry live
  check_expiry-live key now none s = refl
  check_expiry-live key now (some exp) s = elim (Bool-cases (leb_ℤ exp now)) [
    | inl expired ↦ rw expired refl
    | inr lasting ↦ rw lasting refl
  ]

  pub is_blacklisted-live :
      (key : Bytes) (now : ℤ) (s : l.State)
      → (is_blacklisted l key now s).0 ≡ live (l.peek key s) now
  unfolding is_blacklisted
  is_blacklisted-live key now s =
      check_expiry-live key now ((l.get key s).0) ((l.get key s).1)
      ∙ ap (λ (e : Option ℤ). live e now) (l.get_value key s)

  -- A key that was just banned is reported exactly until the ban expires.
  pub blacklist-is_blacklisted :
      (key : Bytes) (until now : ℤ) (s : l.State)
      → (is_blacklisted l key now (blacklist l key until s)).0 ≡ not (leb_ℤ until now)
  unfolding blacklist live
  blacklist-is_blacklisted key until now s =
      is_blacklisted-live key now (l.add key until s)
      ∙ ap (λ (e : Option ℤ). live e now) (l.add_peek key until s)

  -- After any calls on a cache fresh from New, a key is reported only if the last ban of that key is
  -- still running: no other key, no older ban and no expired ban makes the cache report it, whatever
  -- the cache evicts.
  pub is_blacklisted-last_ban :
      (size : ℤ) (s : l.State) (calls : List Call) (key : Bytes) (now : ℤ)
      → new_cache l size ≡ some s
      → (is_blacklisted l key now (after_calls calls s)).0 ≡ true
      → live (last_ban key calls) now ≡ true
  unfolding new_cache live
  is_blacklisted-last_ban size s calls key now fresh reported =
      let answer = is_blacklisted-live key now (after_calls calls s) in
      elim (after_calls-peek calls s key (λ k. l.create_peek size s k fresh)) [
        | inl e ↦ ap (λ (o : Option ℤ). live o now) (sym e) ∙ sym answer ∙ reported
        | inr gone ↦
            absurd (ground (arith, sym reported ∙ answer ∙ ap (λ (o : Option ℤ). live o now) gone))
      ]
