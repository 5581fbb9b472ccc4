-- ===== src/Ruleset/Names.antt =====
-- ruleset.go: the decimal names that `strconvI` gives.
use guard_go.Base.{
  ℕ, zero, suc, ◌+◌, ◌-◌, ◌*◌, ◌/◌, ◌%◌, ◌^◌, ◌≤◌, ◌<◌, ◌≡◌, All, ◌∙◌, refl, sym, ap, arith, [],
  ◌∷◌, some, ◌==◌, Bool-cases, inl, inr, ==_iff,
}
use native.Mathlib.Nat.{pow-suc}
use guard_go.Text.{Bytes, codes}
use guard_go.Ruleset.{digits_loop, strconv_i}

-- The number that decimal digits spell, after the number `acc`.
unfoldable pub decimal : ℕ → Bytes → ℕ
decimal acc [] = acc
decimal acc (c ∷ s) = decimal (acc * 10 + (c - 48)) s

-- The bytes '0' to '9'.
abbrev pub IsDigits : Bytes → Type 0
IsDigits s = All (λ c. (48 ≤ c) × (c < 58)) s

digits_loop_lem :
    (places i : ℕ) (buf : Bytes)
    → i < 10 ^ places
    → IsDigits buf
    → (s : Bytes) × (digits_loop places i buf ≡ some s) × (decimal 0 s ≡ decimal i buf) × IsDigits s
unfolding digits_loop decimal
digits_loop_lem zero zero buf h ok = (buf, refl, refl, ok)
digits_loop_lem zero (suc i) buf h ok = absurd (omega arith)
digits_loop_lem (suc places) i buf h ok = elim (Bool-cases (i == 0)) [
  | inl done ↦ (buf, rw done refl, ap (λ (n : ℕ). decimal n buf) (sym ((==_iff i 0).0 done)), ok)
  | inr more ↦
      let (s, e, spelled, digits) =
        digits_loop_lem places (i / 10) ((48 + i % 10) ∷ buf) (omega (arith, pow-suc 10 places))
          ((omega arith, omega arith), ok) in
      let back : i / 10 * 10 + (48 + i % 10 - 48) ≡ i = omega arith in
      (s, rw more e, spelled ∙ ap (λ (n : ℕ). decimal n buf) back, digits)
]

-- For an index below 10^20, which every int is, `strconvI` stays inside its buffer of 20 bytes, and
-- its bytes are decimal digits, which spell the index.
pub strconv_i-decimal :
    (i : ℕ) → i < 10 ^ 20 → (s : Bytes) × (strconv_i i ≡ some s) × (decimal 0 s ≡ i) × IsDigits s
unfolding strconv_i decimal
strconv_i-decimal i h = elim (Bool-cases (i == 0)) [
  | inl done ↦
      (codes "0", rw done refl, sym ((==_iff i 0).0 done), ((omega arith, omega arith), tt))
  | inr more ↦
      let (s, e, spelled, digits) = digits_loop_lem 20 i [] h tt in (s, rw more e, spelled, digits)
]
