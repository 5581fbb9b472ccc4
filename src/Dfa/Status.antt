-- ===== src/Dfa/Status.antt =====
-- `buildFailures`: how far each node is, as a ghost state of the loops, and the number of nodes that
-- the queue has not met.
use guard_go.Base.{
  ℕ, zero, suc, ◌+◌, ◌≤◌, ◌<◌, ◌≡◌, ◌≢◌, refl, sym, subst, ap, List, [], ◌∷◌, ◌++◌, arith, All,
  Elem, inl, inr, if◌then◌else◌, ◌==◌, Bool-cases, ==_iff, ==-refl,
}

-- Not met, in the queue, being expanded, expanded.
pub data Status : Type 0 where
  raw queued busy done : Status

abbrev pub update : (ℕ → Status) → ℕ → Status → ℕ → Status
update st t x j = if t == j then x else st j

pub update_self : (st : ℕ → Status) (t : ℕ) (x : Status) → update st t x t ≡ x
update_self st t x = ground (arith, ==-refl t)

pub update_ne : (st : ℕ → Status) (t j : ℕ) (x : Status) → ¬ (j ≡ t) → update st t x j ≡ st j
update_ne st t j x h = ground arith

abbrev pub weight : Status → ℕ
weight raw = 1
weight _ = 0

-- The nodes below n that are raw.
unfoldable pub count_raw : (ℕ → Status) → ℕ → ℕ
count_raw st zero = 0
count_raw st (suc n) = count_raw st n + weight (st n)

count_raw-out :
    (st : ℕ → Status) (t n : ℕ) (x : Status) → n ≤ t → count_raw (update st t x) n ≡ count_raw st n
unfolding count_raw
count_raw-out st t zero x h = refl
count_raw-out st t (suc n) x h = ground (arith, count_raw-out st t n x)

pub count_raw-update :
    (st : ℕ → Status) (t n : ℕ) (x : Status)
    → t < n
    → count_raw (update st t x) n + weight (st t) ≡ count_raw st n + weight x
unfolding count_raw
count_raw-update st t zero x h = elim h [ ]
count_raw-update st t (suc n) x h = elim (Bool-cases (t == n)) [
  | inl e ↦
      let t=n : t ≡ n = (==_iff _ _).0 e in
      omega (
        arith,
        count_raw-out st t n x (omega arith),
        ap weight (update_here t=n),
        ap (λ k. weight (st k)) t=n,
      )
  | inr ne ↦ omega (
    arith,
    count_raw-update st t n x (ground arith),
    ap weight (update_ne st t n x (ground arith)),
  )
]
  where
    update_here : t ≡ n → update st t x n ≡ x
    update_here e = ground arith

pub count_raw-le : (st : ℕ → Status) (n : ℕ) → count_raw st n ≤ n
unfolding count_raw
count_raw-le st zero = omega arith
count_raw-le st (suc n) = ground (arith, count_raw-le st n)

-- A queue in the order of the nodes' depths, with no node twice.
module _ (depth : ℕ → ℕ) where
  abbrev pub Ordered : List ℕ → Type 0
  Ordered [] = Unit
  Ordered (x ∷ xs) = All (λ y. (depth x ≤ depth y) × (x ≢ y)) xs × Ordered xs

  pub Ordered-append :
      (xs : List ℕ) (t : ℕ)
      → Ordered xs
      → All (λ y. (depth y ≤ depth t) × (y ≢ t)) xs
      → Ordered (xs ++ t ∷ [])
  Ordered-append [] t h all = (tt, tt)
  Ordered-append (x ∷ xs) t h all = (all_append xs h.0, Ordered-append xs t h.1 all.1)
    where
      all_append :
          (ys : List ℕ)
          → All (λ y. (depth x ≤ depth y) × (x ≢ y)) ys
          → All (λ y. (depth x ≤ depth y) × (x ≢ y)) (ys ++ t ∷ [])
      all_append [] h' = (all.0, tt)
      all_append (y ∷ ys) h' = (h'.0, all_append ys h'.1)

pub All-Elem {κ} : {A : Type 0} (P : A → Type κ) (xs : List A) (a : A) → All P xs → Elem a xs → P a
All-Elem P [] a h e = elim e [ ]
All-Elem P (x ∷ xs) a h (inl e) = subst P (sym e) h.0
All-Elem P (x ∷ xs) a h (inr e) = All-Elem P xs a h.1 e
