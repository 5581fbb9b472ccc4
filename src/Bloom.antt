-- ===== src/Bloom.antt =====
-- pkg/bloom/filter.go: the bloom filter, its two hashes, `Add` and `Test`. A read or write outside
-- the word slice is a panic in Go and `none` here. Strings are lists of bytes.
pub mod Words
pub mod Membership
pub mod History
pub mod Concurrent
use Prim.Native.Nat.{bit_and, bit_or, bit_xor}
use guard_go.Base.{
  ℕ, zero, suc, ◌+◌, ◌*◌, ◌/◌, ◌%◌, ◌^◌, ◌≤◌, ◌<◌, ◌≡◌, Bool, true, false, List, [], ◌∷◌, Option,
  none, some, if◌then◌else◌, ◌==◌, ◌>>=◌, length, get_elem?, set, replicate, All, leb,
}

pub record Filter : Type 0 where
  pub words : List ℕ
  pub bits : ℕ
  pub k : ℕ

abbrev pub u64 : ℕ
u64 = 2 ^ 64

-- `New`. A slice has room for at most `room` words: `make` panics (`none`) for more.
unfoldable pub new_filter : ℕ → ℕ → ℕ → Option Filter
new_filter room bits hashes =
    let bits' = if bits == 0 then 2 ^ 20 else bits in
    let hashes' = if hashes == 0 then 6 else hashes in
    let word_count = (bits' + 63) % u64 / 64 in
    if leb word_count room
    then some (record { words = replicate word_count 0; bits = bits'; k = hashes' })
    else none

abbrev prime : ℕ
prime = 1099511628211

abbrev golden : ℕ
golden = 0x9e3779b97f4a7c15

-- The loop of `twoHashes`.
unfoldable pub hash_loop : ℕ → ℕ → List ℕ → ℕ × ℕ
hash_loop h1 h2 [] = (h1, h2)
hash_loop h1 h2 (b ∷ value) =
    hash_loop (bit_xor h1 b * prime % u64) (bit_xor h2 ((b + golden) % u64) * prime % u64) value

unfoldable pub two_hashes : List ℕ → ℕ × ℕ
unfolding hash_loop
two_hashes value =
    let (h1, h2) = hash_loop 14695981039346656037 7809847782465536322 value in
    (h1, if h2 == 0 then golden else h2)

-- `idx := (h1 + uint64(i)*h2) % f.bits`.
unfoldable pub probe : Filter → ℕ → ℕ → ℕ → ℕ
probe f h1 h2 i = (h1 + i * h2 % u64) % u64 % f.bits

-- `uint64(1) << (idx % 64)`.
abbrev pub mask_of : ℕ → ℕ
mask_of idx = 2 ^ (idx % 64)

-- One round of the loop in `Add`, run with no other goroutine between the load and the swap.
unfoldable pub set_bit : List ℕ → ℕ → Option (List ℕ)
set_bit words idx = do
  old ← get_elem? words (idx / 64)
  if bit_and old (mask_of idx) == 0
      then some (set words (idx / 64) (bit_or old (mask_of idx)))
      else some words

-- `for i := uint8(0); i < f.k; i++`, with the rounds that are left.
unfoldable pub add_loop : Filter → ℕ → ℕ → ℕ → ℕ → List ℕ → Option (List ℕ)
add_loop f h1 h2 zero i words = some words
add_loop f h1 h2 (suc n) i words = do
  words' ← set_bit words (probe f h1 h2 i)
  add_loop f h1 h2 n (i + 1) words'

-- `Add`.
unfoldable pub add : Filter → List ℕ → Option Filter
add f [] = some f
add f (b ∷ value) = do
  let hs = two_hashes (b ∷ value)
  words ← add_loop f hs.0 hs.1 f.k 0 f.words
  some (record f { words = words })

unfoldable pub test_loop : Filter → ℕ → ℕ → ℕ → ℕ → Option Bool
test_loop f h1 h2 zero i = some true
test_loop f h1 h2 (suc n) i =
    let rest = test_loop f h1 h2 n (i + 1) in
    do
      let idx = probe f h1 h2 i
      word ← get_elem? f.words (idx / 64)
      if bit_and word (mask_of idx) == 0 then some false else rest

-- `Test`.
unfoldable pub test : Filter → List ℕ → Option Bool
test f [] = some false
test f (b ∷ value) = let hs = two_hashes (b ∷ value) in test_loop f hs.0 hs.1 f.k 0

-- What every filter built by `new_filter` is: the words cover the bits, and each word is a uint64.
pub record IsValid (f : Filter) : Type 0 where
  pub some_bits : 0 < f.bits
  pub covered : f.bits ≤ 64 * length f.words
  pub are_words : All (λ w. w < u64) f.words
