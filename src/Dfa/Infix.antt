-- ===== src/Dfa/Infix.antt =====
-- `FindAll`: a token is a prefix of the reversed text read so far, at some byte, exactly when it
-- occurs in the text.
use mathlib.Core.List.{append-nil, append_assoc}
use guard_go.Base.{
  ◌≡◌, ◌≢◌, ◌∙◌, refl, sym, ap, subst, ◌⊎◌, ◌↔◌, inl, inr, [], ◌∷◌, ◌++◌, arith, map,
}
use guard_go.Text.{Bytes, lower_byte}
use guard_go.Dfa.Words.{Pre}
use guard_go.Dfa.Insert.{onto}

-- The token stands somewhere in the text, as a run of bytes.
abbrev pub Infix : Bytes → Bytes → Type 0
Infix tok text = (a : Bytes) × (b : Bytes) × (text ≡ a ++ (tok ++ b))

-- Reading `text` after the reversed text u, the reversed token x is met at the end of some byte.
abbrev pub Hits : Bytes → Bytes → Bytes → Type 0
Hits x u [] = ⊥
Hits x u (c ∷ text) = Pre x (lower_byte c ∷ u) ⊎ Hits x (lower_byte c ∷ u) text

unfoldable pub rev_onto : Bytes → Bytes → Bytes
rev_onto [] u = u
rev_onto (c ∷ s) u = rev_onto s (c ∷ u)

pub onto-rev : (token u : Bytes) → onto token u ≡ rev_onto (map lower_byte token) u
unfolding onto rev_onto
onto-rev [] u = refl
onto-rev (c ∷ token) u = onto-rev token (lower_byte c ∷ u)

rev_onto-append : (a b c : Bytes) → rev_onto a (b ++ c) ≡ rev_onto a b ++ c
unfolding rev_onto
rev_onto-append [] b c = refl
rev_onto-append (x ∷ a) b c = rev_onto-append a (x ∷ b) c

rev_onto-rev_onto : (a b c : Bytes) → rev_onto (rev_onto a b) c ≡ rev_onto b (a ++ c)
unfolding rev_onto
rev_onto-rev_onto [] b c = refl
rev_onto-rev_onto (x ∷ a) b c = rev_onto-rev_onto a (x ∷ b) c

append-rev_onto : (a b c : Bytes) → rev_onto (a ++ b) c ≡ rev_onto b (rev_onto a c)
unfolding rev_onto
append-rev_onto [] b c = refl
append-rev_onto (x ∷ a) b c = append-rev_onto a b (x ∷ c)

Pre-append : (x r : Bytes) → Pre x (x ++ r)
Pre-append [] r = tt
Pre-append (a ∷ x) r = (refl, Pre-append x r)

Pre-rest : (x v : Bytes) → Pre x v → (r : Bytes) × (v ≡ x ++ r)
Pre-rest [] v p = (v, refl)
Pre-rest (a ∷ x) [] p = elim p [ ]
Pre-rest (a ∷ x) (b ∷ v) p = let (r, e) = Pre-rest x v p.1 in (r, ground arith)

Hits→split :
    (x u text : Bytes)
    → Hits x u text
    → (p : Bytes) × (q : Bytes) × (map lower_byte text ≡ p ++ q) × Pre x (rev_onto p u)
unfolding rev_onto
Hits→split x u [] h = elim h [ ]
Hits→split x u (c ∷ text) (inl p) = (lower_byte c ∷ [], map lower_byte text, refl, p)
Hits→split x u (c ∷ text) (inr h) =
    let (p, q, e, pre) = Hits→split x (lower_byte c ∷ u) text h in
    (lower_byte c ∷ p, q, ap (◌∷◌ (lower_byte c)) e, pre)

split→Hits :
    (x u text p q : Bytes)
    → p ≢ []
    → map lower_byte text ≡ p ++ q
    → Pre x (rev_onto p u)
    → Hits x u text
unfolding rev_onto
split→Hits x u text [] q ne e pre = absurd (ne refl)
split→Hits x u [] (b ∷ p) q ne e pre = absurd (ground arith)
split→Hits x u (c ∷ text) (b ∷ []) q ne e pre =
    let c=b : b ≡ lower_byte c = ground arith in inl (subst (λ k. Pre x (k ∷ u)) c=b pre)
split→Hits x u (c ∷ text) (b ∷ b' ∷ p) q ne e pre =
    let c=b : b ≡ lower_byte c = ground arith in
    inr (
      split→Hits x (lower_byte c ∷ u) text (b' ∷ p) q (λ h. ground arith) (ground arith)
        (subst (λ k. Pre x (rev_onto (b' ∷ p) (k ∷ u))) c=b pre))

-- Reading the lowered text meets the reversed token exactly when the token occurs in it.
pub Hits-iff :
    (tok text : Bytes) → tok ≢ [] → Hits (rev_onto tok []) [] text ↔ Infix tok (map lower_byte text)
unfolding rev_onto
Hits-iff tok text ne = (
  λ h.
      let (p, q, e, pre) = Hits→split (rev_onto tok []) [] text h in
      let (r, rest) = Pre-rest (rev_onto tok []) (rev_onto p []) pre in
      let back : p ≡ rev_onto r [] ++ tok =
        sym (append-nil p)
        ∙ sym (rev_onto-rev_onto p [] [])
        ∙ ap (λ v. rev_onto v []) (rest ∙ sym (rev_onto-append tok [] r))
        ∙ rev_onto-rev_onto tok r []
        ∙ ap (rev_onto r) (append-nil tok)
        ∙ rev_onto-append r [] tok in
      (rev_onto r [], q, e ∙ ap (λ v. v ++ q) back ∙ append_assoc (rev_onto r []) tok q),
  λ (a, b, e).
      split→Hits (rev_onto tok []) [] text (a ++ tok) b (not_nil a) (e ∙ sym (append_assoc a tok b))
        (subst (Pre (rev_onto tok []))
          (sym (append-rev_onto a tok [] ∙ rev_onto-append tok [] (rev_onto a [])))
          (Pre-append (rev_onto tok []) (rev_onto a []))),
)
  where
    not_nil : (a : Bytes) → (a ++ tok) ≢ []
    not_nil [] = ne
    not_nil (x ∷ a) = λ h. ground arith
