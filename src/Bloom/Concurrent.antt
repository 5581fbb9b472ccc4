-- ===== src/Bloom/Concurrent.antt =====
-- pkg/bloom/filter.go: `Add` called by many goroutines at once. A turn of a goroutine is one atomic
-- access: the load of a word, or the compare-and-swap. A schedule lists whose turn it is; every
-- interleaving is one. The value that goroutine t adds is `values t`.
mod Turn
pub use Turn.{Pc, load, swap, finished}
unfoldable pub use Turn.{turn}
use Turn.{Progress, Progress-Grows, turn_lem}
use guard_go.Base.{
  ℕ, zero, suc, ◌+◌, ◌*◌, ◌/◌, ◌%◌, ◌^◌, ◌≤◌, ◌<◌, ◌≡◌, ◌∙◌, ap, subst, ◌≢◌, ◌⊎◌, refl, sym, Bool,
  true, false, List, [], ◌∷◌, ◌++◌, Option, none, some, inl, inr, arith, if◌then◌else◌, ◌==◌, ◌>>=◌,
  Bool-cases, length, All, ==_iff,
}
use guard_go.Bloom.{Filter, u64, two_hashes, probe, test, IsValid}
use guard_go.Bloom.Words.{is_set}
use guard_go.Bloom.Membership.{hits, all_set, probed, member, test-member}

pub record System : Type 0 where
  pub words : List ℕ
  pub pc : ℕ → Pc

abbrev update : (ℕ → Pc) → ℕ → Pc → ℕ → Pc
update pc t p u = if t == u then p else pc u

all_set-words :
    (f : Filter) (h1 h2 n i : ℕ) (words : List ℕ)
    → all_set (record f { words = words }) h1 h2 n i words ≡ all_set f h1 h2 n i words
unfolding all_set probe
all_set-words f h1 h2 zero i words = refl
all_set-words f h1 h2 (suc n) i words = rw (all_set-words f h1 h2 n (i + 1) words)

all_set_below :
    (f : Filter) (h1 h2 n i : ℕ) (words : List ℕ)
    → i + n ≡ f.k
    → ((m : ℕ) → m < f.k → is_set words (probe f h1 h2 m) ≡ true)
    → all_set f h1 h2 n i words ≡ true
unfolding all_set
all_set_below f h1 h2 zero i words e h = refl
all_set_below f h1 h2 (suc n) i words e h =
    ground (arith, h i, all_set_below f h1 h2 n (i + 1) words (omega arith) h)

finished-member :
    (f : Filter) (v words : List ℕ)
    → v ≢ []
    → Progress f (two_hashes v).0 (two_hashes v).1 finished words
    → member (record f { words = words }) v ≡ true
unfolding member
finished-member f [] words ne h = absurd (ne refl)
finished-member f (b ∷ v) words ne h =
    all_set-words f _ _ f.k 0 words ∙ all_set_below f _ _ f.k 0 words (omega arith) h

module _ (f : Filter) (values : ℕ → List ℕ) where
  -- Every goroutine is about to begin its first round.
  abbrev pub start : System
  start = record { words = f.words; pc = λ t. Pc.load 0 }

  unfoldable pub run : List ℕ → System → Option System
  run [] s = some s
  run (t ∷ ts) s = do
    let hs = two_hashes (values t)
    (p, words) ← turn f hs.0 hs.1 (s.pc t) s.words
    run ts (record { words = words; pc = update s.pc t p })

  update-Progress :
      (s : System) (t u : ℕ) (p : Pc) (words : List ℕ)
      → Progress f (two_hashes (values t)).0 (two_hashes (values t)).1 p words
      → Progress f (two_hashes (values u)).0 (two_hashes (values u)).1 (s.pc u) words
      → Progress f (two_hashes (values u)).0 (two_hashes (values u)).1 (update s.pc t p u) words
  update-Progress s t u p words moved kept = elim (Bool-cases (t == u)) [
    | inl e ↦ rw e (
        subst (λ v. Progress f (two_hashes (values v)).0 (two_hashes (values v)).1 p words)
          ((==_iff t u).0 e) moved)
    | inr e ↦ rw e kept
  ]

  record Inv (s : System) : Type 0 where
    len : length s.words ≡ length f.words
    are_words : All (λ w. w < u64) s.words
    progress :
        (t : ℕ) → Progress f (two_hashes (values t)).0 (two_hashes (values t)).1 (s.pc t) s.words

  run-Inv :
      (valid : IsValid f) (ts : List ℕ) (s : System)
      → Inv s
      → (s' : System) × (run ts s ≡ some s')
        × Inv s'
        × ((j : ℕ) → is_set s.words j ≡ true → is_set s'.words j ≡ true)
  unfolding run
  run-Inv valid [] s inv = (s, refl, inv, λ j h. h)
  run-Inv valid (t ∷ ts) s inv =
      let hs = two_hashes (values t) in
      let (p, w, e, len, all, moved, grows) =
        turn_lem f hs.0 hs.1 valid (s.pc t) s.words inv.len inv.are_words (inv.progress t) in
      let s1 : System = record { words = w; pc = update s.pc t p } in
      let inv1 : Inv s1 = record {
        len = len;
        are_words = all;
        progress = λ u.
            update-Progress s t u p w moved
              (Progress-Grows f _ _ (s.pc u) s.words w grows (inv.progress u));
      } in
      let (s', e', inv', grows') = run-Inv valid ts s1 inv1 in
      (s', rw (e, ◌>>=◌) e', inv', λ j h. grows' j (grows j h))

  start-Inv : IsValid f → Inv start
  start-Inv valid = record {
    len = refl;
    are_words = valid.are_words;
    progress = λ t m h. elim h [ ];
  }

  -- However the atomic accesses of the goroutines interleave, no access panics, no bit that was set
  -- is ever lost, and a goroutine that has returned from adding a non-empty value leaves a filter
  -- that reports the value present.
  pub concurrent_add :
      (valid : IsValid f) (ts : List ℕ)
      → (s : System) × (run ts start ≡ some s)
        × ((j : ℕ) → is_set f.words j ≡ true → is_set s.words j ≡ true)
        × ((t : ℕ)
            → s.pc t ≡ finished
            → values t ≢ []
            → test (record f { words = s.words }) (values t) ≡ some true)
  concurrent_add valid ts =
      let (s, e, inv, grows) = run-Inv valid ts start (start-Inv valid) in
      let g : Filter = record f { words = s.words } in
      let valid_g : IsValid g = record {
        some_bits = valid.some_bits;
        covered = rw inv.len valid.covered;
        are_words = inv.are_words;
      } in
      (
        s,
        e,
        grows,
        λ t done ne.
            test-member g (values t) valid_g
            ∙ ap some (finished-member f (values t) s.words ne (rw done at (inv.progress t))),
      )
