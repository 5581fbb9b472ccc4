-- ===== src/Bloom/Concurrent/Turn.antt =====
-- pkg/bloom/filter.go: one atomic access of one goroutine inside `Add`.
use Prim.Native.Nat.{bit_and, bit_or}
use guard_go.Base.{
  ℕ, ◌+◌, ◌/◌, ◌%◌, ◌^◌, ◌<◌, ◌≡◌, ◌∙◌, ap, refl, true, List, Option, some, inl, inr, arith,
  if◌then◌else◌, ◌==◌, ◌>>=◌, Bool-cases, length, All, get_elem?, set, ltb, get_elem?-some,
  length-set, ==_iff, ==-refl, All-set, All-get_elem?,
}
use guard_go.Base.Bits.{bit_or-lt, pow-lt}
use guard_go.Bloom.{Filter, u64, mask_of, probe, IsValid}
use guard_go.Bloom.Words.{is_set, is_set-set, already_set}
use guard_go.Bloom.Membership.{probe-covered}

-- Where a goroutine stands in the loops of `Add`: about to load the word of round i, about to swap
-- it after loading `old`, or returned.
pub data Pc : Type 0 where
  load : ℕ → Pc
  swap : ℕ → ℕ → Pc
  finished : Pc

module _ (f : Filter) (h1 h2 : ℕ) where
  unfoldable pub turn : Pc → List ℕ → Option (Pc × List ℕ)
  turn (load i) words =
      if ltb i f.k
      then (do
        let idx = probe f h1 h2 i
        old ← get_elem? words (idx / 64)
        some (if bit_and old (mask_of idx) == 0 then swap i old else load (i + 1), words))
      else some (finished, words)
  turn (swap i old) words = do
    let idx = probe f h1 h2 i
    current ← get_elem? words (idx / 64)
    some (
        if current == old
        then (load (i + 1), set words (idx / 64) (bit_or old (mask_of idx)))
        else (load i, words))
  turn finished words = some (finished, words)

  -- The rounds that are over have set their bits.
  abbrev pub Below : ℕ → List ℕ → Type 0
  Below i words = (m : ℕ) → m < i → is_set words (probe f h1 h2 m) ≡ true

  abbrev pub Progress : Pc → List ℕ → Type 0
  Progress (load i) words = Below i words
  Progress (swap i old) words = Below i words
  Progress finished words = Below f.k words

  abbrev Grows : List ℕ → List ℕ → Type 0
  Grows words words' = (j : ℕ) → is_set words j ≡ true → is_set words' j ≡ true

  Below-suc :
      (i : ℕ) (words : List ℕ)
      → Below i words
      → is_set words (probe f h1 h2 i) ≡ true
      → Below (i + 1) words
  Below-suc i words b h m lt = elim (Bool-cases (m == i)) [
    | inl e ↦ rw ((==_iff m i).0 e) h
    | inr ne ↦ b m (ground arith)
  ]

  pub Progress-Grows :
      (p : Pc) (words words' : List ℕ) → Grows words words' → Progress p words → Progress p words'
  Progress-Grows (load i) words words' g b = λ m h. g (probe f h1 h2 m) (b m h)
  Progress-Grows (swap i old) words words' g b = λ m h. g (probe f h1 h2 m) (b m h)
  Progress-Grows finished words words' g b = λ m h. g (probe f h1 h2 m) (b m h)

  module _ (valid : IsValid f) where
    pub turn_lem :
        (p : Pc) (words : List ℕ)
        → length words ≡ length f.words
        → All (λ w. w < u64) words
        → Progress p words
        → (p' : Pc) × (words' : List ℕ) × (turn p words ≡ some (p', words'))
          × (length words' ≡ length f.words)
          × All (λ w. w < u64) words'
          × Progress p' words'
          × Grows words words'
    unfolding turn
    turn_lem (load i) words len all b =
        let idx = probe f h1 h2 i in
        let (old, e) =
          get_elem?-some words (idx / 64) (omega (arith, probe-covered f h1 h2 i valid)) in
        elim (Bool-cases (ltb i f.k)) [
          | inl more ↦ elim (Bool-cases (bit_and old (mask_of idx) == 0)) [
            | inl clear ↦ (swap i old, words, rw (more, e, clear, ◌>>=◌), len, all, b, λ j h. h)
            | inr found ↦ (
              load (i + 1),
              words,
              rw (more, e, found, ◌>>=◌),
              len,
              all,
              Below-suc i words b
                  (ground (arith, already_set words idx idx old e found, ==-refl idx)),
              λ j h. h,
            )
          ]
          | inr end ↦ (finished, words, rw end, len, all, λ m h. b m (ground arith), λ j h. h)
        ]
    turn_lem (swap i old) words len all b =
        let idx = probe f h1 h2 i in
        let inside : idx / 64 < length words = omega (arith, probe-covered f h1 h2 i valid) in
        let (current, e) = get_elem?-some words (idx / 64) inside in
        let v = bit_or old (mask_of idx) in
        elim (Bool-cases (current == old)) [
          | inl same ↦
              let same' : current ≡ old = (==_iff _ _).0 same in
              let e' : get_elem? words (idx / 64) ≡ some old = e ∙ ap some same' in
              let small : old < 2 ^ 64 = All-get_elem? (λ w. w < u64) words (idx / 64) all e' in
              let grows : Grows words (set words (idx / 64) v) =
                λ j h. ground (arith, is_set-set words idx j old e' inside) in
              (
                load (i + 1),
                set words (idx / 64) v,
                rw (e, same, ◌>>=◌),
                length-set words (idx / 64) v ∙ len,
                All-set (λ w. w < u64) words (idx / 64) v all
                    (bit_or-lt 64 old (mask_of idx) small (pow-lt (idx % 64) 64 (omega arith))),
                Below-suc i (set words (idx / 64) v) (λ m h. grows (probe f h1 h2 m) (b m h))
                    (ground (arith, is_set-set words idx idx old e' inside, ==-refl idx)),
                grows,
              )
          | inr other ↦ (load i, words, rw (e, other, ◌>>=◌), len, all, b, λ j h. h)
        ]
    turn_lem finished words len all b = (finished, words, refl, len, all, b, λ j h. h)
