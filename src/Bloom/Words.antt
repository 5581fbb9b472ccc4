-- ===== src/Bloom/Words.antt =====
-- pkg/bloom/filter.go: single bits of the word slice, and what one round of `Add` does to them.
use Prim.Native.Nat.{bit_and, bit_or}
use guard_go.Base.{
  ℕ, ◌*◌, ◌/◌, ◌%◌, ◌^◌, ◌<◌, ◌≡◌, ap, ◌>>=◌, refl, Bool, true, false, List, none, some, inl, inr,
  arith, if◌then◌else◌, ◌==◌, ==_iff, Bool-cases, length, get_elem?, set, All, All-get_elem?,
  All-set, get_elem?-some, get_elem?-set_self, get_elem?-set_ne, length-set,
}
use guard_go.Base.Bits.{bit, bit-lt, bit-bit_or, bit_and-pow, bit-pow, bit_or-lt, pow-lt}
use guard_go.Bloom.{u64, mask_of, set_bit}
use native.Mathlib.Nat.{one-le-pow}

-- Bit `j` of the slice.
unfoldable pub is_set : List ℕ → ℕ → Bool
is_set words j = elim (get_elem? words (j / 64)) [ none ↦ false | some w ↦ bit w (j % 64) == 1 ]

pub bit_and-mask : (w k : ℕ) → (bit_and w (2 ^ k) == 0) ≡ (if bit w k == 1 then false else true)
bit_and-mask w k = elim (Bool-cases (bit w k == 1)) [
  | inl e ↦
      let one : bit w k ≡ 1 = (==_iff _ _).0 e in
      ground (arith, bit_and-pow w k, one-le-pow k 2, ap (λ (t : ℕ). t * 2 ^ k) one)
  | inr e ↦
      let none_set : bit w k ≡ 0 = ground (arith, bit-lt w k) in
      ground (arith, bit_and-pow w k, ap (λ (t : ℕ). t * 2 ^ k) none_set)
]

-- Setting the bit of `idx` in its word sets bit `idx` of the slice and no other.
pub is_set-set :
    (words : List ℕ) (idx j old : ℕ)
    → get_elem? words (idx / 64) ≡ some old
    → idx / 64 < length words
    → is_set (set words (idx / 64) (bit_or old (mask_of idx))) j
      ≡ (if j == idx then true else is_set words j)
unfolding is_set
is_set-set words idx j old e h =
    let v = bit_or old (mask_of idx) in
    elim (Bool-cases (j / 64 == idx / 64)) [
      | inl same ↦
          let s : j / 64 ≡ idx / 64 = (==_iff _ _).0 same in
          let g : get_elem? (set words (idx / 64) v) (j / 64) ≡ some v =
            rw s (get_elem?-set_self words (idx / 64) v h) in
          let o : get_elem? words (j / 64) ≡ some old = rw s e in
          rw (g, o, is_set)
            (ground (
              arith,
              bit-bit_or old (mask_of idx) (j % 64),
              bit-pow (idx % 64) (j % 64),
              bit-lt old (j % 64),
            ))
      | inr other ↦
          let g : get_elem? (set words (idx / 64) v) (j / 64) ≡ get_elem? words (j / 64) =
            get_elem?-set_ne words (idx / 64) (j / 64) v (ground arith) in
          rw (g, is_set) (ground arith)
    ]

pub already_set :
    (words : List ℕ) (idx j old : ℕ)
    → get_elem? words (idx / 64) ≡ some old
    → (bit_and old (mask_of idx) == 0) ≡ false
    → is_set words j ≡ (if j == idx then true else is_set words j)
unfolding is_set
already_set words idx j old e found = elim (Bool-cases (j == idx)) [
  | inl same ↦
      let s : j ≡ idx = (==_iff _ _).0 same in
      rw (same, s, e, is_set) (ground (arith, bit_and-mask old (idx % 64)))
  | inr other ↦ rw other
]

-- One round of `Add` at an index that the slice covers: it does not panic, keeps the slice's length
-- and the words' range, and sets that bit alone.
pub set_bit_lem :
    (words : List ℕ) (idx : ℕ)
    → idx / 64 < length words
    → All (λ w. w < u64) words
    → (words' : List ℕ) × (set_bit words idx ≡ some words')
      × (length words' ≡ length words)
      × All (λ w. w < u64) words'
      × ((j : ℕ) → is_set words' j ≡ (if j == idx then true else is_set words j))
unfolding set_bit
set_bit_lem words idx h all =
    let (old, e) = get_elem?-some words (idx / 64) h in
    let small : old < 2 ^ 64 = All-get_elem? (λ w. w < u64) words (idx / 64) all e in
    let v = bit_or old (mask_of idx) in
    elim (Bool-cases (bit_and old (mask_of idx) == 0)) [
      | inl clear ↦ (
        set words (idx / 64) v,
        rw (e, clear, ◌>>=◌),
        length-set words (idx / 64) v,
        All-set (λ w. w < u64) words (idx / 64) v all
            (bit_or-lt 64 old (mask_of idx) small (pow-lt (idx % 64) 64 (omega arith))),
        λ j. is_set-set words idx j old e h,
      )
      | inr found ↦
          (words, rw (e, found, ◌>>=◌), refl, all, λ j. already_set words idx j old e found)
    ]
