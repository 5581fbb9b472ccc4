-- ===== src/Text.antt =====
-- Go strings as lists of bytes, and the functions of Go's `strings` package that the program calls.
-- Go folds case and trims space by Unicode tables once a string has a byte above 127. Those tables
-- are a parameter, `Unicode`; for a string of ASCII bytes both functions are defined here.
use Prim.Native.Char.{code}
use Prim.Native.String.{String}
use guard_go.Base.{
  ℕ, ◌+◌, ◌<◌, ◌≡◌, ◌≢◌, refl, Bool, true, false, ◌&&◌, ◌||◌, List, [], ◌∷◌, map, arith,
  if◌then◌else◌, ltb, leb, ◌==◌, ==-refl, All,
}

abbrev pub Bytes : Type 0
Bytes = List ℕ

abbrev pub IsBytes : Bytes → Type 0
IsBytes s = All (λ b. b < 256) s

-- The bytes of an ASCII literal.
abbrev pub codes : String → Bytes
codes String.[] = []
codes (String.◌∷◌ c s) = code c ∷ codes s

-- What the Unicode tables of Go's library do to a string that is not all ASCII.
pub record Unicode : Type 0 where
  pub lower : Bytes → Bytes
  pub trim : Bytes → Bytes
  pub lower_bytes : (s : Bytes) → IsBytes s → IsBytes (lower s)
  pub trim_bytes : (s : Bytes) → IsBytes s → IsBytes (trim s)

-- `if b >= 'A' && b <= 'Z' { b += 'a' - 'A' }`.
unfoldable pub lower_byte : ℕ → ℕ
lower_byte b = if leb b'A' b && leb b b'Z' then b + 32 else b

unfoldable pub is_ascii : Bytes → Bool
is_ascii [] = true
is_ascii (b ∷ s) = ltb b 128 && is_ascii s

-- '\t', '\n', '\v', '\f', '\r', ' '.
unfoldable pub is_space : ℕ → Bool
is_space b = b == 32 || (leb 9 b && leb b 13)

unfoldable pub drop_spaces : Bytes → Bytes
drop_spaces [] = []
drop_spaces (b ∷ s) = let rest = drop_spaces s in if is_space b then rest else b ∷ s

-- Drops the trailing bytes that the test accepts.
unfoldable pub drop_last : (ℕ → Bool) → Bytes → Bytes
drop_last p [] = []
drop_last p (b ∷ s) = elim (drop_last p s) [ [] ↦ if p b then [] else b ∷ [] | c ∷ r ↦ b ∷ c ∷ r ]

-- `strings.ToLower`.
unfoldable pub to_lower : Unicode → Bytes → Bytes
unfolding is_ascii
to_lower u s = if is_ascii s then map lower_byte s else u.lower s

-- `strings.TrimSpace`.
unfoldable pub trim_space : Unicode → Bytes → Bytes
unfolding is_ascii drop_spaces drop_last is_space
trim_space u s = if is_ascii s then drop_last is_space (drop_spaces s) else u.trim s

-- `s == ""`.
abbrev pub is_empty : Bytes → Bool
is_empty [] = true
is_empty (b ∷ s) = false

-- `a == b` on strings.
abbrev pub same_text : Bytes → Bytes → Bool
same_text [] [] = true
same_text (a ∷ s) (b ∷ t) = a == b && same_text s t
same_text _ _ = false

pub lower_byte-lt : (b : ℕ) → b < 256 → lower_byte b < 256
unfolding lower_byte
lower_byte-lt b h = ground arith

pub lower_byte_idem : (b : ℕ) → lower_byte (lower_byte b) ≡ lower_byte b
unfolding lower_byte
lower_byte_idem b = ground arith

map-lower_byte-IsBytes : (s : Bytes) → IsBytes s → IsBytes (map lower_byte s)
map-lower_byte-IsBytes [] h = tt
map-lower_byte-IsBytes (b ∷ s) h = (lower_byte-lt b h.0, map-lower_byte-IsBytes s h.1)

drop_spaces-IsBytes : (s : Bytes) → IsBytes s → IsBytes (drop_spaces s)
unfolding drop_spaces
drop_spaces-IsBytes [] h = tt
drop_spaces-IsBytes (b ∷ s) h = ground (arith, drop_spaces-IsBytes s h.1)

pub drop_last-IsBytes : (p : ℕ → Bool) (s : Bytes) → IsBytes s → IsBytes (drop_last p s)
unfolding drop_last
drop_last-IsBytes p [] h = tt
drop_last-IsBytes p (b ∷ s) h = ground (arith, drop_last-IsBytes p s h.1)

pub to_lower-IsBytes : (u : Unicode) (s : Bytes) → IsBytes s → IsBytes (to_lower u s)
unfolding to_lower
to_lower-IsBytes u s h = ground (arith, map-lower_byte-IsBytes s h, u.lower_bytes s h)

pub trim_space-IsBytes : (u : Unicode) (s : Bytes) → IsBytes s → IsBytes (trim_space u s)
unfolding trim_space
trim_space-IsBytes u s h =
    ground (
      arith,
      drop_last-IsBytes is_space (drop_spaces s) (drop_spaces-IsBytes s h),
      u.trim_bytes s h,
    )

pub same_text_refl : (s : Bytes) → same_text s s ≡ true
same_text_refl [] = refl
same_text_refl (b ∷ s) = rw (==-refl b) (same_text_refl s)

pub same_text-eq : (s t : Bytes) → same_text s t ≡ true → s ≡ t
same_text-eq [] [] h = refl
same_text-eq [] (b ∷ t) h = absurd (ground arith)
same_text-eq (a ∷ s) [] h = absurd (ground arith)
same_text-eq (a ∷ s) (b ∷ t) h =
    let head : a ≡ b = ground arith in
    let tail : s ≡ t = same_text-eq s t (ground arith) in rw (head, tail) refl

pub same_text-neq : (s t : Bytes) → same_text s t ≡ false → s ≢ t
same_text-neq s t h e = ground (arith, rw e at h, same_text_refl t)

abbrev pub ascii_only : Unicode
ascii_only = record { lower = λ s. s; trim = λ s. s; lower_bytes = λ s h. h; trim_bytes = λ s h. h }

trims : trim_space ascii_only (to_lower ascii_only (codes " Union Select\n")) ≡ codes "union select"
unfolding trim_space to_lower lower_byte
trims = refl
