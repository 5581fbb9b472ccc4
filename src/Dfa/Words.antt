-- ===== src/Dfa/Words.antt =====
-- Words of the trie, last byte first: a suffix of a word is a prefix of its reversal.
use guard_go.Base.{◌≤◌, ◌≡◌, refl, [], ◌∷◌, arith, length}
use guard_go.Text.{Bytes}

abbrev pub Pre : Bytes → Bytes → Type 0
Pre [] v = Unit
Pre (a ∷ u) [] = ⊥
Pre (a ∷ u) (b ∷ v) = (a ≡ b) × Pre u v

pub Pre-refl : (u : Bytes) → Pre u u
Pre-refl [] = tt
Pre-refl (a ∷ u) = (refl, Pre-refl u)

pub Pre-nil : (u : Bytes) → u ≡ [] → (v : Bytes) → Pre u v
Pre-nil [] e v = tt
Pre-nil (a ∷ u) e v = absurd (ground arith)

pub Pre-trans : (u v x : Bytes) → Pre u v → Pre v x → Pre u x
Pre-trans [] v x p q = tt
Pre-trans (a ∷ u) [] x p q = elim p [ ]
Pre-trans (a ∷ u) (b ∷ v) [] p q = elim q [ ]
Pre-trans (a ∷ u) (b ∷ v) (c ∷ x) p q = (ground arith, Pre-trans u v x p.1 q.1)

pub Pre-length : (u v : Bytes) → Pre u v → length u ≤ length v
Pre-length [] v p = omega arith
Pre-length (a ∷ u) [] p = elim p [ ]
Pre-length (a ∷ u) (b ∷ v) p = omega (arith, Pre-length u v p.1)

-- Of two prefixes of one word the shorter is a prefix of the longer.
pub Pre-of_le : (u v x : Bytes) → Pre u x → Pre v x → length u ≤ length v → Pre u v
Pre-of_le [] v x p q h = tt
Pre-of_le (a ∷ u) v [] p q h = elim p [ ]
Pre-of_le (a ∷ u) [] (c ∷ x) p q h = absurd (omega arith)
Pre-of_le (a ∷ u) (b ∷ v) (c ∷ x) p q h = (ground arith, Pre-of_le u v x p.1 q.1 (omega arith))

pub Pre-eq : (u v : Bytes) → Pre u v → length v ≤ length u → u ≡ v
Pre-eq [] [] p h = refl
Pre-eq [] (b ∷ v) p h = absurd (omega arith)
Pre-eq (a ∷ u) [] p h = elim p [ ]
Pre-eq (a ∷ u) (b ∷ v) p h = ground (arith, Pre-eq u v p.1 (omega arith))
