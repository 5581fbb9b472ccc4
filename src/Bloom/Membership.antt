-- ===== src/Bloom/Membership.antt =====
-- pkg/bloom/filter.go: what `Add` and `Test` do to the set of bits, for any sequence of calls.
use guard_go.Base.{
  ℕ, zero, suc, ◌+◌, ◌/◌, ◌%◌, ◌^◌, ◌<◌, ◌≡◌, refl, Bool, true, false, ◌&&◌, ◌||◌, List, [], ◌∷◌,
  Option, some, arith, ◌==◌, ◌>>=◌, length, All, All-replicate, length-replicate, get_elem?-some,
  ==-refl, if◌then◌else◌, replicate, none, inl, inr, ◌⊎◌, ◌≤◌, ◌∙◌, sym, subst, leb, leb→le,
  Bool-cases, Option-cases, get_elem?, All-get_elem?,
}
use guard_go.Base.Bits.{bit-zero}
use mathlib.Core.Option.{some-injective}
use guard_go.Bloom.{
  Filter, u64, new_filter, two_hashes, probe, add_loop, add, test_loop, test, IsValid,
}
use guard_go.Bloom.Words.{is_set, set_bit_lem, bit_and-mask}

-- Whether one of the n probes from round i on is the index j.
unfoldable pub hits : Filter → ℕ → ℕ → ℕ → ℕ → ℕ → Bool
hits f h1 h2 zero i j = false
hits f h1 h2 (suc n) i j = (j == probe f h1 h2 i) || hits f h1 h2 n (i + 1) j

-- Whether all of the n probes from round i on are set.
unfoldable pub all_set : Filter → ℕ → ℕ → ℕ → ℕ → List ℕ → Bool
all_set f h1 h2 zero i words = true
all_set f h1 h2 (suc n) i words = is_set words (probe f h1 h2 i) && all_set f h1 h2 n (i + 1) words

-- The indices that adding a value sets: none for the empty string.
unfoldable pub probed : Filter → List ℕ → ℕ → Bool
probed f [] j = false
probed f (b ∷ v) j = let hs = two_hashes (b ∷ v) in hits f hs.0 hs.1 f.k 0 j

unfoldable pub member : Filter → List ℕ → Bool
member f [] = false
member f (b ∷ v) = let hs = two_hashes (b ∷ v) in all_set f hs.0 hs.1 f.k 0 f.words

unfoldable pub add_all : Filter → List (List ℕ) → Option Filter
add_all f [] = some f
add_all f (v ∷ vs) = do g ← add f v; add_all g vs

-- The indices that adding a list of values sets.
unfoldable pub probed_by : Filter → List (List ℕ) → ℕ → Bool
probed_by f [] j = false
probed_by f (v ∷ vs) j = probed f v j || probed_by f vs j

-- The size of a filter for the bits that `New` is given, and the words that hold them.
abbrev pub size_of : ℕ → ℕ
size_of bits = if bits == 0 then 2 ^ 20 else bits

abbrev pub words_needed : ℕ → ℕ
words_needed bits = (size_of bits + 63) / 64

abbrev blank : ℕ → ℕ → Filter
blank bits hashes = record {
  words = replicate ((size_of bits + 63) % u64 / 64) 0;
  bits = size_of bits;
  k = if hashes == 0 then 6 else hashes;
}

blank-IsValid : (bits hashes : ℕ) → bits + 63 < 2 ^ 64 → IsValid (blank bits hashes)
blank-IsValid bits hashes h = record {
  some_bits = ground arith;
  covered = ground (
    arith,
    length-replicate {A = ℕ} ((bits + 63) % u64 / 64) 0,
    length-replicate {A = ℕ} 16384 0,
  );
  are_words = All-replicate (λ w. w < u64) _ 0 (omega arith);
}

count_eq : (bits : ℕ) → bits + 63 < 2 ^ 64 → (size_of bits + 63) % u64 / 64 ≡ words_needed bits
count_eq bits h = ground arith

is_set-replicate : (n j : ℕ) → is_set (replicate n 0) j ≡ false
unfolding is_set
is_set-replicate n j = elim (Option-cases (get_elem? (replicate {A = ℕ} n 0) (j / 64))) [
  | inl e ↦ rw (e, is_set)
  | inr (w, e) ↦
      let clear : w ≡ 0 =
        All-get_elem? (λ w. w ≡ 0) (replicate n 0) (j / 64) (All-replicate (λ w. w ≡ 0) n 0 refl)
          e in
      rw (e, clear, is_set) (ground (arith, bit-zero (j % 64)))
]

-- A filter with no bit set, of a size, whose words cover it and are no more than that takes.
pub record IsFresh (bits : ℕ) (f : Filter) : Type 0 where
  pub valid : IsValid f
  pub size : f.bits ≡ size_of bits
  pub fewest : length f.words ≡ words_needed bits
  pub clear : (j : ℕ) → is_set f.words j ≡ false

-- `New` for fewer than 2^64 - 63 bits panics exactly if the words for them are more than a slice can
-- have; else it gives a filter of the size asked for (2^20 for 0) whose words cover it, none more than
-- needed, and no bit of which is set.
pub new_filter-IsFresh :
    (room bits hashes : ℕ)
    → bits + 63 < 2 ^ 64
    → (room < words_needed bits × (new_filter room bits hashes ≡ none))
      ⊎ (words_needed bits ≤ room
          × ((f : Filter) × (new_filter room bits hashes ≡ some f) × IsFresh bits f))
unfolding new_filter
new_filter-IsFresh room bits hashes h =
    let same : (size_of bits + 63) % u64 / 64 ≡ words_needed bits = count_eq bits h in
    elim (Bool-cases (leb ((size_of bits + 63) % u64 / 64) room)) [
      | inl fits ↦ inr (
        omega (arith, same, leb→le ((size_of bits + 63) % u64 / 64) room fits),
        (
          blank bits hashes,
          rw fits refl,
          record {
            valid = blank-IsValid bits hashes h;
            size = refl;
            fewest = length-replicate {A = ℕ} ((size_of bits + 63) % u64 / 64) 0 ∙ same;
            clear = is_set-replicate ((size_of bits + 63) % u64 / 64);
          },
        ),
      )
      | inr big ↦ inl (ground (arith, same), rw big refl)
    ]

-- What `New` has returned is fresh.
pub new_filter-some-IsFresh :
    (room bits hashes : ℕ) (f : Filter)
    → bits + 63 < 2 ^ 64
    → new_filter room bits hashes ≡ some f
    → IsFresh bits f
new_filter-some-IsFresh room bits hashes f h e = elim (new_filter-IsFresh room bits hashes h) [
  | inl big ↦ absurd (ground (arith, sym big.1 ∙ e))
  | inr (_, (g, made, fresh)) ↦ subst (IsFresh bits) (some-injective g f (sym made ∙ e)) fresh
]

pub probe-covered : (f : Filter) (h1 h2 i : ℕ) → IsValid f → probe f h1 h2 i / 64 < length f.words
unfolding probe
probe-covered f h1 h2 i v = grind arith

pub hits→all_set :
    (f : Filter) (h1 h2 n i : ℕ) (words : List ℕ)
    → ((j : ℕ) → hits f h1 h2 n i j ≡ true → is_set words j ≡ true)
    → all_set f h1 h2 n i words ≡ true
unfolding hits all_set
hits→all_set f h1 h2 zero i words h = refl
hits→all_set f h1 h2 (suc n) i words h = ground (
  arith,
  h (probe f h1 h2 i),
  ==-refl (probe f h1 h2 i),
  hits→all_set f h1 h2 n (i + 1) words (λ j e. h j (ground arith)),
)

module _ (f : Filter) (h1 h2 : ℕ) (valid : IsValid f) where
  add_loop_lem :
      (n i : ℕ) (words : List ℕ)
      → length words ≡ length f.words
      → All (λ w. w < u64) words
      → (words' : List ℕ) × (add_loop f h1 h2 n i words ≡ some words')
        × (length words' ≡ length f.words)
        × All (λ w. w < u64) words'
        × ((j : ℕ) → is_set words' j ≡ (hits f h1 h2 n i j || is_set words j))
  unfolding add_loop hits
  add_loop_lem zero i words len all = (words, refl, len, all, λ j. refl)
  add_loop_lem (suc n) i words len all =
      let idx = probe f h1 h2 i in
      let (w1, e1, l1, a1, s1) =
        set_bit_lem words idx (omega (arith, probe-covered f h1 h2 i valid)) all in
      let (w2, e2, l2, a2, s2) = add_loop_lem n (i + 1) w1 (omega arith) a1 in
      (w2, rw (e1, e2, ◌>>=◌), l2, a2, λ j. ground (arith, s1 j, s2 j))

  test_loop_lem : (n i : ℕ) → test_loop f h1 h2 n i ≡ some (all_set f h1 h2 n i f.words)
  unfolding test_loop all_set is_set
  test_loop_lem zero i = refl
  test_loop_lem (suc n) i =
      let idx = probe f h1 h2 i in
      let (w, e) = get_elem?-some f.words (idx / 64) (probe-covered f h1 h2 i valid) in
      rw (e, ◌>>=◌) (ground (arith, e, bit_and-mask w (idx % 64), test_loop_lem n (i + 1)))

-- `Add` on a valid filter does not panic. It keeps the size, the number of hashes and the validity,
-- sets the bits that the value probes, and leaves every other bit as it was.
pub add_total :
    (f : Filter) (v : List ℕ)
    → IsValid f
    → (g : Filter) × (add f v ≡ some g)
      × IsValid g
      × (g.bits ≡ f.bits)
      × (g.k ≡ f.k)
      × ((j : ℕ) → is_set g.words j ≡ (probed f v j || is_set f.words j))
unfolding add probed
add_total f [] valid = (f, refl, valid, refl, refl, λ j. refl)
add_total f (b ∷ v) valid =
    let hs = two_hashes (b ∷ v) in
    let (ws, e, l, a, s) = add_loop_lem f hs.0 hs.1 valid f.k 0 f.words refl valid.are_words in
    (
      record f { words = ws },
      rw (e, ◌>>=◌),
      record { some_bits = valid.some_bits; covered = rw l valid.covered; are_words = a },
      refl,
      refl,
      s,
    )

-- `Test` on a valid filter does not panic. It answers true exactly for a non-empty value whose
-- probes are all set.
pub test-member : (f : Filter) (v : List ℕ) → IsValid f → test f v ≡ some (member f v)
unfolding test member
test-member f [] valid = refl
test-member f (b ∷ v) valid = let hs = two_hashes (b ∷ v) in test_loop_lem f hs.0 hs.1 valid f.k 0
