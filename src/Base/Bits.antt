-- ===== src/Base/Bits.antt =====
-- Binary digits of the native numbers, and what `bit_and`, `bit_or` and `bit_xor` do to them.
use Prim.Native.Nat.{min, max, digits, bit_and, bit_or, bit_and-bitwise, bit_or-bitwise}
use native.Mathlib.Nat.{le_refl, pow-suc, one-le-pow}
use guard_go.Base.{
  ℕ, zero, suc, ◌+◌, ◌*◌, ◌/◌, ◌%◌, ◌^◌, ◌≤◌, ◌<◌, ◌≡◌, refl, ap, arith, if◌then◌else◌, ◌==◌,
}

-- The digit of weight 2 ^ i.
unfoldable pub bit : ℕ → ℕ → ℕ
bit a zero = a % 2
bit a (suc i) = bit (a / 2) i

-- A digit-by-digit operation whose two operands run on enough rounds: more rounds change nothing.
module _ (low : ℕ → ℕ) (op : ℕ → ℕ → ℕ) where
  rounds : (k n a b : ℕ) → a ≤ n → n ≤ k → digits low op k a b ≡ digits low op n a b
  rounds k n zero b small le = digits-zero k n b
    where
      digits-zero : (i j c : ℕ) → digits low op i zero c ≡ digits low op j zero c
      digits-zero zero zero c = refl
      digits-zero zero (suc j) c = refl
      digits-zero (suc i) zero c = refl
      digits-zero (suc i) (suc j) c = refl
  rounds k zero (suc a) b small le = absurd (omega arith)
  rounds zero (suc n) (suc a) b small le = absurd (omega arith)
  rounds (suc k) (suc n) (suc a) b small le =
      ap (λ (high : ℕ). high * 2 + op (suc a % 2) (b % 2))
        (rounds k n (suc a / 2) (b / 2) (omega arith) (omega arith))

pub or_digit : (b a : ℕ) → bit_or a b ≡ max (a % 2) (b % 2) + bit_or (a / 2) (b / 2) * 2
or_digit b zero = simp bit_or-bitwise (omega arith)
or_digit b (suc a) =
    let half : ℕ = suc a / 2 in
    simp bit_or-bitwise
      (omega (arith, rounds (λ c. c) max a half half (b / 2) (le_refl half) (omega arith)))

pub and_digit : (b a : ℕ) → bit_and a b ≡ min (a % 2) (b % 2) + bit_and (a / 2) (b / 2) * 2
and_digit b zero = simp bit_and-bitwise (omega arith)
and_digit b (suc a) =
    let half : ℕ = suc a / 2 in
    simp bit_and-bitwise
      (omega (arith, rounds (λ c. 0) min a half half (b / 2) (le_refl half) (omega arith)))

pub bit-lt : (a i : ℕ) → bit a i < 2
unfolding bit
bit-lt a zero = omega arith
bit-lt a (suc i) = bit-lt (a / 2) i

pub bit-bit_or : (a b i : ℕ) → bit (bit_or a b) i ≡ max (bit a i) (bit b i)
unfolding bit
bit-bit_or a b zero = omega (arith, or_digit b a)
bit-bit_or a b (suc i) =
    let half : bit_or a b / 2 ≡ bit_or (a / 2) (b / 2) = omega (arith, or_digit b a) in
    rw half (bit-bit_or (a / 2) (b / 2) i)

-- Nothing is left of a number that is masked with 0.
masked_empty : (size a : ℕ) → a < size → bit_and a 0 ≡ 0
masked_empty zero a h = elim h [ ]
masked_empty (suc size) zero h = refl
masked_empty (suc size) (suc a) h =
    let rest : bit_and (suc a / 2) 0 ≡ 0 = masked_empty size (suc a / 2) (omega arith) in
    omega (arith, rest, and_digit 0 (suc a))

pub bit_and-pow : (a k : ℕ) → bit_and a (2 ^ k) ≡ bit a k * 2 ^ k
unfolding bit
bit_and-pow a zero = omega (arith, and_digit 1 a, masked_empty (suc (a / 2)) (a / 2) (omega arith))
bit_and-pow a (suc k) =
    let half : 2 ^ suc k / 2 ≡ 2 ^ k = omega (arith, pow-suc 2 k) in
    let step : bit_and a (2 ^ suc k) ≡ min (a % 2) (2 ^ suc k % 2) + bit_and (a / 2) (2 ^ k) * 2 =
      rw half at (and_digit (2 ^ suc k) a) in
    omega (
      arith,
      step,
      pow-suc 2 k,
      bit_and-pow (a / 2) k,
      ap (λ (t : ℕ). bit (a / 2) k * t) (pow-suc 2 k),
    )

pub bit-zero : (i : ℕ) → bit 0 i ≡ 0
unfolding bit
bit-zero zero = refl
bit-zero (suc i) = bit-zero i

pub bit-pow : (k i : ℕ) → bit (2 ^ k) i ≡ (if i == k then 1 else 0)
unfolding bit
bit-pow zero zero = refl
bit-pow zero (suc i) = ground (arith, bit-zero i)
bit-pow (suc k) zero = ground (arith, pow-suc 2 k)
bit-pow (suc k) (suc i) =
    let half : 2 ^ suc k / 2 ≡ 2 ^ k = omega (arith, pow-suc 2 k) in
    rw half (ground (arith, bit-pow k i))

pub bit_or-lt : (n a b : ℕ) → a < 2 ^ n → b < 2 ^ n → bit_or a b < 2 ^ n
bit_or-lt zero a b p q =
    let e : a ≡ 0 = omega arith in let d : b ≡ 0 = omega arith in rw (e, d) (omega arith)
bit_or-lt (suc n) a b p q = omega (
  arith,
  or_digit b a,
  pow-suc 2 n,
  bit_or-lt n (a / 2) (b / 2) (omega (arith, pow-suc 2 n)) (omega (arith, pow-suc 2 n)),
)

-- A power of two with an exponent below w is a word of w bits.
pub pow-lt : (i w : ℕ) → i < w → 2 ^ i < 2 ^ w
pow-lt zero zero h = elim h [ ]
pow-lt (suc i) zero h = elim h [ ]
pow-lt zero (suc w) h = omega (arith, pow-suc 2 w, one-le-pow w 2 (omega arith))
pow-lt (suc i) (suc w) h = omega (arith, pow-suc 2 i, pow-suc 2 w, pow-lt i w (omega arith))
