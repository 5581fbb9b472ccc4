-- ===== src/Rules/Contains.antt =====
-- rules/basic.go: the search for tokens.
use guard_go.Base.{
  ◌≡◌, ◌↔◌, refl, ap, true, false, ◌&&◌, not, List, [], ◌∷◌, ◌++◌, arith, ==-refl, Elem, Bool-cases,
  inl, inr,
}
use guard_go.Text.{Bytes, Unicode, to_lower, is_empty}
use guard_go.Rules.{starts, contains, any_token, any_value}

-- The text holds p as a substring.
abbrev pub Within : Bytes → Bytes → Type 0
Within p s = (before : Bytes) × (after : Bytes) × (s ≡ before ++ (p ++ after))

starts-prefix : (p s : Bytes) → starts p s ≡ true → (after : Bytes) × (s ≡ p ++ after)
unfolding starts
starts-prefix [] s h = (s, refl)
starts-prefix (a ∷ p) [] h = absurd (ground arith)
starts-prefix (a ∷ p) (b ∷ s) h =
    let head : a ≡ b = ground arith in
    let (after, e) = starts-prefix p s (ground arith) in (after, rw (head, e) refl)

starts-append : (p after : Bytes) → starts p (p ++ after) ≡ true
unfolding starts
starts-append [] after = refl
starts-append (a ∷ p) after = rw (==-refl a, starts-append p after) refl

contains-append : (before p after : Bytes) → contains (before ++ (p ++ after)) p ≡ true
unfolding contains
contains-append [] p after = at_start (p ++ after) (starts-append p after)
  where
    at_start : (s : Bytes) → starts p s ≡ true → contains s p ≡ true
    at_start [] h = h
    at_start (c ∷ s) h = rw h refl
contains-append (c ∷ before) p after = ground (arith, contains-append before p after)

contains-Within : (s p : Bytes) → contains s p ≡ true → Within p s
unfolding contains
contains-Within [] p h = let (after, e) = starts-prefix p [] h in ([], after, e)
contains-Within (c ∷ s) p h = elim (Bool-cases (starts p (c ∷ s))) [
  | inl here ↦ let (after, e) = starts-prefix p (c ∷ s) here in ([], after, e)
  | inr later ↦
      let (before, after, e) = contains-Within s p (ground (arith, h, later)) in
      (c ∷ before, after, ap (λ (t : Bytes). c ∷ t) e)
]

-- `strings.Contains` is true exactly for a substring.
pub contains_iff : (s p : Bytes) → (contains s p ≡ true) ↔ Within p s
contains_iff s p =
    (contains-Within s p, λ (before, after, e). rw e (contains-append before p after))

-- A token that is not empty occurs in the text, case aside.
abbrev pub SomeToken : Unicode → Bytes → List Bytes → Type 0
SomeToken u text tokens =
    (t : Bytes) × Elem t tokens × (is_empty t ≡ false) × Within (to_lower u t) text

abbrev Agrees : Unicode → Bytes → List Bytes → Type 0
Agrees u text tokens = (any_token u text tokens ≡ true) ↔ SomeToken u text tokens

any_token-found :
    (u : Unicode) (text t : Bytes) (ts : List Bytes)
    → Agrees u text ts
    → any_token u text (t ∷ ts) ≡ true
    → SomeToken u text (t ∷ ts)
unfolding any_token
any_token-found u text t ts rest h =
    elim (Bool-cases (not (is_empty t) && contains text (to_lower u t))) [
      | inl found ↦ (
        t,
        inl refl,
        ground (arith, found),
        (contains_iff text (to_lower u t)).0 (ground (arith, found)),
      )
      | inr missing ↦ let (t', e, filled, w) = rest.0 (rw missing at h) in (t', inr e, filled, w)
    ]

any_token-here :
    (u : Unicode) (text t : Bytes) (ts : List Bytes)
    → is_empty t ≡ false
    → Within (to_lower u t) text
    → any_token u text (t ∷ ts) ≡ true
unfolding any_token
any_token-here u text t ts filled w = rw (filled, (contains_iff text (to_lower u t)).1 w) refl

any_token-later :
    (u : Unicode) (text t : Bytes) (ts : List Bytes)
    → any_token u text ts ≡ true
    → any_token u text (t ∷ ts) ≡ true
unfolding any_token
any_token-later u text t ts h =
    elim (Bool-cases (not (is_empty t) && contains text (to_lower u t))) [
      | inl found ↦ rw found refl
      | inr missing ↦ rw missing h
    ]

any_token-back :
    (u : Unicode) (text t : Bytes) (ts : List Bytes)
    → Agrees u text ts
    → SomeToken u text (t ∷ ts)
    → any_token u text (t ∷ ts) ≡ true
any_token-back u text t ts rest (t', inl e, filled, w) =
    any_token-here u text t ts (rw e at filled) (rw e at w)
any_token-back u text t ts rest (t', inr e, filled, w) =
    any_token-later u text t ts (rest.1 (t', e, filled, w))

pub any_token_iff : (u : Unicode) (text : Bytes) (tokens : List Bytes) → Agrees u text tokens
unfolding any_token
any_token_iff u text [] = (λ h. absurd (ground (arith, h)), λ (t, e, _, _). absurd e)
any_token_iff u text (t ∷ ts) =
    let rest = any_token_iff u text ts in
    (any_token-found u text t ts rest, any_token-back u text t ts rest)

-- A value of the header holds a token.
abbrev pub SomeValue : Unicode → List Bytes → List Bytes → Type 0
SomeValue u values tokens = (v : Bytes) × Elem v values × SomeToken u (to_lower u v) tokens

any_value-found :
    (u : Unicode) (values tokens : List Bytes)
    → any_value u values tokens ≡ true
    → SomeValue u values tokens
unfolding any_value
any_value-found u [] tokens h = absurd (ground (arith, h))
any_value-found u (v ∷ vs) tokens h = elim (Bool-cases (any_token u (to_lower u v) tokens)) [
  | inl found ↦ (v, inl refl, (any_token_iff u (to_lower u v) tokens).0 found)
  | inr missing ↦
      let (v', e, some_token) = any_value-found u vs tokens (rw missing at h) in
      (v', inr e, some_token)
]

any_value-here :
    (u : Unicode) (v : Bytes) (vs tokens : List Bytes)
    → any_token u (to_lower u v) tokens ≡ true
    → any_value u (v ∷ vs) tokens ≡ true
unfolding any_value
any_value-here u v vs tokens h = rw h refl

any_value-later :
    (u : Unicode) (v : Bytes) (vs tokens : List Bytes)
    → any_value u vs tokens ≡ true
    → any_value u (v ∷ vs) tokens ≡ true
unfolding any_value
any_value-later u v vs tokens h = elim (Bool-cases (any_token u (to_lower u v) tokens)) [
  | inl found ↦ rw found refl
  | inr missing ↦ rw missing h
]

any_value-back :
    (u : Unicode) (values tokens : List Bytes)
    → SomeValue u values tokens
    → any_value u values tokens ≡ true
any_value-back u [] tokens (v', e, some_token) = absurd e
any_value-back u (v ∷ vs) tokens (v', inl e, some_token) =
    any_value-here u v vs tokens ((any_token_iff u (to_lower u v) tokens).1 (rw e at some_token))
any_value-back u (v ∷ vs) tokens (v', inr e, some_token) =
    any_value-later u v vs tokens (any_value-back u vs tokens (v', e, some_token))

pub any_value_iff :
    (u : Unicode) (values tokens : List Bytes)
    → (any_value u values tokens ≡ true) ↔ SomeValue u values tokens
any_value_iff u values tokens = (any_value-found u values tokens, any_value-back u values tokens)
