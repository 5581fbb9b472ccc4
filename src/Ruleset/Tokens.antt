-- ===== src/Ruleset/Tokens.antt =====
-- ruleset.go: the tokens of a pattern.
use guard_go.Base.{
  ℕ, ◌≡◌, false, List, [], ◌∷◌, Option, none, some, arith, if◌then◌else◌, ◌==◌, All, Bool-cases,
  inl, inr,
}
use guard_go.Text.{
  Bytes, IsBytes, Unicode, to_lower, trim_space, is_empty, to_lower-IsBytes, trim_space-IsBytes,
  drop_last-IsBytes,
}
use guard_go.Ruleset.{
  strip, trim_prefix, trim_suffix, split, is_paren, drop_parens, trim_parens, tokens_of,
  pattern_body, extract_pattern_tokens,
}

strip-IsBytes :
    (p s : Bytes) → IsBytes s → All IsBytes (elim (strip p s) [ none ↦ [] | some rest ↦ rest ∷ [] ])
unfolding strip
strip-IsBytes [] s h = (h, tt)
strip-IsBytes (a ∷ p) [] h = tt
strip-IsBytes (a ∷ p) (b ∷ s) h = elim (Bool-cases (a == b)) [
  | inl same ↦ rw same (strip-IsBytes p s h.1)
  | inr other ↦ rw other tt
]

kept_rest :
    (o : Option Bytes) (s : Bytes)
    → All IsBytes (elim o [ none ↦ [] | some rest ↦ rest ∷ [] ])
    → IsBytes s
    → IsBytes (elim o [ none ↦ s | some rest ↦ rest ])
kept_rest none s h hs = hs
kept_rest (some rest) s h hs = h.0

trim_prefix-IsBytes : (p s : Bytes) → IsBytes s → IsBytes (trim_prefix p s)
trim_prefix-IsBytes p s h = kept_rest (strip p s) s (strip-IsBytes p s h) h

trim_suffix-IsBytes : (c : ℕ) (s : Bytes) → IsBytes s → IsBytes (trim_suffix c s)
unfolding trim_suffix
trim_suffix-IsBytes c [] h = tt
trim_suffix-IsBytes c (b ∷ []) h = ground (arith, h)
trim_suffix-IsBytes c (b ∷ d ∷ s) h = (h.0, trim_suffix-IsBytes c (d ∷ s) h.1)

split-IsBytes : (c : ℕ) (s : Bytes) → IsBytes s → All IsBytes (split c s)
unfolding split
split-IsBytes c [] h = (tt, tt)
split-IsBytes c (b ∷ s) h = grown (split c s) (split-IsBytes c s h.1)
  where
    grown :
        (words : List Bytes)
        → All IsBytes words
        → All IsBytes
            (elim words [ [] ↦ [] ∷ [] | w ∷ ws ↦ if b == c then [] ∷ w ∷ ws else (b ∷ w) ∷ ws ])
    grown [] hw = (tt, tt)
    grown (w ∷ ws) hw = elim (Bool-cases (b == c)) [
      | inl bar ↦ rw bar (tt, (hw.0, hw.1))
      | inr other ↦ rw other ((h.0, hw.0), hw.1)
    ]

drop_parens-IsBytes : (s : Bytes) → IsBytes s → IsBytes (drop_parens s)
unfolding drop_parens
drop_parens-IsBytes [] h = tt
drop_parens-IsBytes (b ∷ s) h = elim (Bool-cases (is_paren b)) [
  | inl paren ↦ rw paren (drop_parens-IsBytes s h.1)
  | inr other ↦ rw other h
]

-- A token of a pattern: bytes, at least one.
abbrev pub IsToken : Bytes → Type 0
IsToken t = IsBytes t × (is_empty t ≡ false)

tokens_of-IsToken :
    (u : Unicode) (parts : List Bytes) → All IsBytes parts → All IsToken (tokens_of u parts)
unfolding tokens_of
tokens_of-IsToken u [] h = tt
tokens_of-IsToken u (part ∷ parts) h =
    let token : Bytes = trim_parens (to_lower u (trim_space u part)) in
    let ok : IsBytes token =
      drop_last-IsBytes is_paren _
        (drop_parens-IsBytes _ (to_lower-IsBytes u _ (trim_space-IsBytes u part h.0))) in
    elim (Bool-cases (is_empty token)) [
      | inl blank ↦ rw blank (tokens_of-IsToken u parts h.1)
      | inr filled ↦ rw filled ((ok, filled), tokens_of-IsToken u parts h.1)
    ]

-- The tokens of a pattern of bytes are byte strings, none of them empty.
pub extract_pattern_tokens-IsToken :
    (u : Unicode) (pattern : Bytes)
    → IsBytes pattern
    → All IsToken (extract_pattern_tokens u pattern)
unfolding extract_pattern_tokens pattern_body
extract_pattern_tokens-IsToken u pattern h =
    let trimmed : IsBytes (trim_space u pattern) = trim_space-IsBytes u pattern h in
    elim (Bool-cases (is_empty (trim_space u pattern))) [
      | inl blank ↦ rw blank tt
      | inr filled ↦ rw filled (
          tokens_of-IsToken u _ (
            split-IsBytes 124 _ (
              trim_suffix-IsBytes 41 _ (
                trim_prefix-IsBytes _ _ (
                  trim_prefix-IsBytes _ _
                    (trim_prefix-IsBytes _ (trim_space u pattern) trimmed))))))
    ]
