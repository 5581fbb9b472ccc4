-- ===== src/Dfa/Search.antt =====
-- `FindAll`: the scan over the text collects exactly the rules whose token it meets, each once.
use guard_go.Base.{
  ℕ, ◌<◌, ◌≡◌, ◌≢◌, ◌∙◌, refl, sym, subst, ◌⊎◌, ◌↔◌, inl, inr, List, [], ◌∷◌, some, arith, ◌>>=◌,
  All, Elem, get_elem?, get_elem?-some, ◌==◌, ==_iff, Bool-cases,
}
use guard_go.Text.{Bytes, IsBytes, lower_byte, lower_byte-lt}
use guard_go.Dfa.{Node, mark, mark_all, scan}
use guard_go.Dfa.Words.{Pre, Pre-trans, Pre-of_le}
use guard_go.Dfa.Trie.{Trie}
use guard_go.Dfa.Suffix.{Longest, Longest-step}
use guard_go.Dfa.Build.{Built}
use guard_go.Dfa.Infix.{Hits}

-- No element twice.
abbrev pub Unique : List ℕ → Type 0
Unique [] = Unit
Unique (x ∷ xs) = All (λ y. x ≢ y) xs × Unique xs

pub Elem-mark : (i : ℕ) (seen : List ℕ) (j : ℕ) → Elem i (mark seen j) ↔ (Elem i seen ⊎ (i ≡ j))
unfolding mark
Elem-mark i [] j = (
  λ h. elim h [ inl e ↦ inr e | inr f ↦ absurd f ],
  λ h. elim h [ inl f ↦ absurd f | inr e ↦ inl e ],
)
Elem-mark i (k ∷ seen) j = elim (Bool-cases (k == j)) [
  | inl e ↦
      let k=j : k ≡ j = (==_iff k j).0 e in
      rw e (λ h. inl h, λ h. elim h [ inl l ↦ l | inr i=j ↦ inl (i=j ∙ sym k=j) ])
  | inr ne ↦
      let ih = Elem-mark i seen j in
      rw ne (
        λ h. elim h [
          | inl l ↦ inl (inl l)
          | inr r ↦ elim (ih.0 r) [ inl l ↦ inl (inr l) | inr e ↦ inr e ]
        ],
        λ h. elim h [
          | inl l ↦ elim l [ inl e ↦ inl e | inr r ↦ inr (ih.1 (inl r)) ]
          | inr e ↦ inr (ih.1 (inr e))
        ],
      )
]

Elem-mark_all :
    (i : ℕ) (seen out : List ℕ) → Elem i (mark_all seen out) ↔ (Elem i seen ⊎ Elem i out)
unfolding mark_all
Elem-mark_all i seen [] = (λ h. inl h, λ h. elim h [ inl l ↦ l | inr f ↦ absurd f ])
Elem-mark_all i seen (j ∷ out) =
    let ih = Elem-mark_all i (mark seen j) out in
    let here = Elem-mark i seen j in
    (
      λ h. elim (ih.0 h) [
        | inl m ↦ elim (here.0 m) [ inl s ↦ inl s | inr e ↦ inr (inl e) ]
        | inr o ↦ inr (inr o)
      ],
      λ h. elim h [
        | inl s ↦ ih.1 (inl (here.1 (inl s)))
        | inr o ↦ elim o [ inl e ↦ ih.1 (inl (here.1 (inr e))) | inr r ↦ ih.1 (inr r) ]
      ],
    )

mark-All :
    (k : ℕ) (seen : List ℕ) (j : ℕ) → k ≢ j → All (λ y. k ≢ y) seen → All (λ y. k ≢ y) (mark seen j)
unfolding mark
mark-All k [] j ne h = (ne, tt)
mark-All k (x ∷ seen) j ne h = ground (arith, mark-All k seen j ne h.1)

pub mark-Unique : (seen : List ℕ) (j : ℕ) → Unique seen → Unique (mark seen j)
unfolding mark
mark-Unique [] j h = (tt, tt)
mark-Unique (x ∷ seen) j h = elim (Bool-cases (x == j)) [
  | inl e ↦ rw e h
  | inr ne ↦ rw ne (mark-All x seen j (ground arith) h.0, mark-Unique seen j h.1)
]

mark_all-Unique : (seen out : List ℕ) → Unique seen → Unique (mark_all seen out)
unfolding mark_all
mark_all-Unique seen [] h = h
mark_all-Unique seen (j ∷ out) h = mark_all-Unique (mark seen j) out (mark-Unique seen j h)

module _ (nodes0 : List Node) (w : ℕ → Bytes) (toks : List Bytes) (T : Trie nodes0 w toks)
    (nodes : List Node) (B : Built nodes0 w toks nodes) where
  -- The rules that a node lists are those whose token ends where the text read so far ends.
  out_iff :
      (s i : ℕ) (u : Bytes) (m : Node)
      → get_elem? nodes s ≡ some m
      → Longest nodes0 w s u
      → Elem i m.out ↔ ((x : Bytes) × (get_elem? toks i ≡ some x) × Pre x u)
  out_iff s i u m e L = (
    λ h. let (x, at, p) = (B.complete s m e i).0 h in (x, at, Pre-trans x (w s) u p L.pre),
    λ (x, at, p).
        let (r, lt, is) = T.spelled i x at in
        let p' : Pre (w r) u = subst (λ y. Pre y u) (sym is) p in
        (B.complete s m e i).1
          (x, at, subst (λ y. Pre y (w s)) is (Pre-of_le (w r) (w s) u p' L.pre (L.most r lt p'))),
  )

  pub scan_lem :
      (text : Bytes) (s : ℕ) (u : Bytes) (seen : List ℕ)
      → IsBytes text
      → Longest nodes0 w s u
      → Unique seen
      → (seen' : List ℕ) × (scan nodes s seen text ≡ some seen')
        × Unique seen'
        × ((i : ℕ)
            → Elem i seen'
              ↔ (Elem i seen ⊎ ((x : Bytes) × (get_elem? toks i ≡ some x) × Hits x u text)))
  unfolding scan
  scan_lem [] s u seen ok L unique =
      (seen, refl, unique, λ i. (λ h. inl h, λ h. elim h [ inl l ↦ l | inr (x, at, f) ↦ absurd f ]))
  scan_lem (c ∷ text) s u seen ok L unique =
      let b = lower_byte c in
      let (n, at) = get_elem?-some nodes s (subst (λ k. s < k) (sym B.len) L.lt) in
      let F = B.full s b n at (lower_byte-lt c ok.0) in
      let M : Longest nodes0 w F.to (b ∷ u) = Longest-step nodes0 w toks T s F.to b u L F.longest in
      let (n', at') = get_elem?-some nodes F.to (subst (λ k. F.to < k) (sym B.len) M.lt) in
      let (seen', e, unique', iff) =
        scan_lem text F.to (b ∷ u) (mark_all seen n'.out) ok.1 M
          (mark_all-Unique seen n'.out unique) in
      (
        seen',
        rw (at, F.goes, at', ◌>>=◌) e,
        unique',
        λ i.
            let marked = Elem-mark_all i seen n'.out in
            let listed = out_iff F.to i (b ∷ u) n' at' M in
            (
              λ h. elim ((iff i).0 h) [
                | inl m ↦ elim (marked.0 m) [
                  | inl old ↦ inl old
                  | inr new ↦ inr (let (x, e', p) = listed.0 new in (x, e', inl p))
                ]
                | inr (x, e', later) ↦ inr (x, e', inr later)
              ],
              λ h. elim h [
                | inl old ↦ (iff i).1 (inl (marked.1 (inl old)))
                | inr (x, e', hit) ↦ elim hit [
                  | inl now ↦ (iff i).1 (inl (marked.1 (inr (listed.1 (x, e', now)))))
                  | inr later ↦ (iff i).1 (inr (x, e', later))
                ]
              ],
            ),
      )
