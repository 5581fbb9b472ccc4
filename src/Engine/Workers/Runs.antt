-- ===== src/Engine/Workers/Runs.antt =====
-- engine_background.go: no snapshot is lost, and the workers do not spin.
use mathlib.Core.Option.{some-injective}
use guard_go.Base.{
  ℕ, zero, suc, ◌+◌, ◌*◌, ◌≤◌, ◌≡◌, ◌∙◌, refl, sym, ap, subst, Bool, true, false, List, [], ◌∷◌,
  ◌++◌, Option, none, some, ◌>>=◌, ltb, length, length-append, arith, inl, inr, Bool-cases,
  Option-cases,
}
use guard_go.Engine.Workers.{
  Pool, Move, arrive, take, leave, shut, finish, under, pick, move_arrive, move_take, move_finish,
  move_leave, move_shut, step, run, start_background,
}

abbrev one_if : Bool → ℕ
one_if true = 1
one_if false = 0

module _ {ℓ} {A : Type ℓ} where
  -- How many items pass a test.
  unfoldable pub tally : (A → Bool) → List A → ℕ
  tally P [] = 0
  tally P (a ∷ xs) = one_if (P a) + tally P xs

  tally_append : (P : A → Bool) (xs bs : List A) → tally P (xs ++ bs) ≡ tally P xs + tally P bs
  unfolding tally
  tally_append P [] bs = omega arith
  tally_append P (a ∷ xs) bs = omega (arith, tally_append P xs bs)

  -- The snapshots of a pool, wherever they are.
  abbrev pub held : (A → Bool) → Pool A → ℕ
  held P p = tally P p.waiting + tally P p.busy + tally P p.finished + tally P p.refused

  -- The snapshots that arrive in a run.
  unfoldable pub arrivals : List (Move A) → List A
  arrivals [] = []
  arrivals (arrive a ∷ ms) = a ∷ arrivals ms
  arrivals (_ ∷ ms) = arrivals ms

  -- Every worker waits, works or has returned.
  abbrev pub workers : Pool A → ℕ
  workers p = p.idle + length p.busy + p.exited

  -- What the workers still have to do if the channel is closed now.
  abbrev pub work_left : Pool A → ℕ
  work_left p = 3 * length p.waiting + 2 * length p.busy + p.idle

  -- How much work a move brings.
  unfoldable pub brings : List (Move A) → ℕ
  brings [] = 0
  brings (arrive a ∷ ms) = 4 + brings ms
  brings (shut ∷ ms) = 1 + brings ms
  brings (_ ∷ ms) = brings ms

  abbrev IsPicked : (A → Bool) → List A → Option (A × List A) → Type 0
  IsPicked P xs none = Unit
  IsPicked P xs (some (a, rest)) =
      (tally P xs ≡ one_if (P a) + tally P rest) × (length xs ≡ 1 + length rest)

  pick_under :
      (P : A → Bool) (b : A) (xs : List A) (o : Option (A × List A))
      → IsPicked P xs o
      → IsPicked P (b ∷ xs) (under b o)
  unfolding under tally
  pick_under P b xs none h = tt
  pick_under P b xs (some (c, bs)) h = (omega (arith, h.0), omega (arith, h.1))

  pick-IsPicked : (P : A → Bool) (k : ℕ) (xs : List A) → IsPicked P xs (pick k xs)
  unfolding pick tally
  pick-IsPicked P k [] = tt
  pick-IsPicked P zero (a ∷ xs) = (refl, omega arith)
  pick-IsPicked P (suc k) (a ∷ xs) = pick_under P a xs (pick k xs) (pick-IsPicked P k xs)

  -- A move that brings some snapshots and some work.
  record IsMove (P : A → Bool) (new : List A) (work : ℕ) (p p' : Pool A) : Type 0 where
    pub conserved : held P p' ≡ held P p + tally P new
    pub staffed : workers p' ≡ workers p
    pub spent : work_left p' + 1 ≤ work_left p + work

  abbrev Moves : (A → Bool) → List A → ℕ → Pool A → Option (Pool A) → Type 0
  Moves P new work p none = Unit
  Moves P new work p (some p') = IsMove P new work p p'

  module _ (capacity : ℕ) (P : A → Bool) where
    move_arrive-IsMove : (a : A) (p : Pool A) → IsMove P (a ∷ []) 4 p (move_arrive capacity a p)
    unfolding move_arrive tally
    move_arrive-IsMove a p = elim (Bool-cases (ltb (length p.waiting) capacity)) [
      | inl room ↦ rw room (record {
        conserved = omega (arith, tally_append P p.waiting (a ∷ []));
        staffed = refl;
        spent = omega (arith, length-append p.waiting (a ∷ []));
      })
      | inr full ↦ rw full (record { conserved = omega arith; staffed = refl; spent = omega arith })
    ]

    move_take-Moves :
        (i : ℕ) (xs : List A) (p : Pool A)
        → i ≡ p.idle
        → xs ≡ p.waiting
        → Moves P [] 0 p (move_take capacity i xs p)
    unfolding move_take tally
    move_take-Moves zero xs p e e' = tt
    move_take-Moves (suc i) [] p e e' = tt
    move_take-Moves (suc i) (a ∷ xs) p e e' =
        let t : tally P p.waiting ≡ one_if (P a) + tally P xs = ap (tally P) (sym e') in
        let l : length p.waiting ≡ suc (length xs) = ap length (sym e') in
        record {
          conserved = omega (arith, t);
          staffed = omega (arith, e);
          spent = omega (arith, e, l);
        }

    move_finish-Moves :
        (o : Option (A × List A)) (p : Pool A)
        → IsPicked P p.busy o
        → Moves P [] 0 p (move_finish capacity o p)
    unfolding move_finish tally
    move_finish-Moves none p h = tt
    move_finish-Moves (some (a, xs)) p h = record {
      conserved = omega (arith, h.0);
      staffed = omega (arith, h.1);
      spent = omega (arith, h.1);
    }

    move_leave-Moves :
        (b : Bool) (i : ℕ) (p : Pool A) → i ≡ p.idle → Moves P [] 0 p (move_leave capacity b i p)
    unfolding move_leave tally
    move_leave-Moves false i p e = tt
    move_leave-Moves true zero p e = tt
    move_leave-Moves true (suc i) p e = record {
      conserved = omega arith;
      staffed = omega (arith, e);
      spent = omega (arith, e);
    }

    move_shut-Moves : (b : Bool) (p : Pool A) → Moves P [] 1 p (move_shut capacity b p)
    unfolding move_shut tally
    move_shut-Moves true p = tt
    move_shut-Moves false p = record {
      conserved = omega arith;
      staffed = refl;
      spent = omega arith;
    }

    step-Moves :
        (m : Move A) (p : Pool A)
        → Moves P (arrivals (m ∷ [])) (brings (m ∷ [])) p (step capacity m p)
    unfolding step arrivals brings
    step-Moves (arrive a) p = move_arrive-IsMove a p
    step-Moves take p = move_take-Moves p.idle p.waiting p refl refl
    step-Moves leave p = move_leave-Moves p.closed p.idle p refl
    step-Moves shut p = move_shut-Moves p.closed p
    step-Moves (finish k) p = move_finish-Moves (pick k p.busy) p (pick-IsPicked P k p.busy)

    arrivals-tally :
        (m : Move A) (ms : List (Move A))
        → tally P (arrivals (m ∷ ms)) ≡ tally P (arrivals (m ∷ [])) + tally P (arrivals ms)
    unfolding arrivals tally
    arrivals-tally (arrive a) ms = omega arith
    arrivals-tally take ms = omega arith
    arrivals-tally leave ms = omega arith
    arrivals-tally shut ms = omega arith
    arrivals-tally (finish k) ms = omega arith

    brings_lem : (m : Move A) (ms : List (Move A)) → brings (m ∷ ms) ≡ brings (m ∷ []) + brings ms
    unfolding brings
    brings_lem (arrive a) ms = omega arith
    brings_lem take ms = omega arith
    brings_lem leave ms = omega arith
    brings_lem shut ms = omega arith
    brings_lem (finish k) ms = omega arith

    pub run-Moves :
        (ms : List (Move A)) (p p' : Pool A)
        → run capacity ms p ≡ some p'
        → (held P p' ≡ held P p + tally P (arrivals ms))
          × (workers p' ≡ workers p)
          × (work_left p' + length ms ≤ work_left p + brings ms)
    unfolding run arrivals brings tally
    run-Moves [] p p' e =
        let same : p ≡ p' = some-injective p p' e in rw (← same) (omega arith, refl, omega arith)
    run-Moves (m ∷ ms) p p' e = elim (Option-cases (step capacity m p)) [
      | inl stuck ↦ absurd (ground (arith, rw (stuck, ◌>>=◌) at e))
      | inr (q, made) ↦
          let one : IsMove P (arrivals (m ∷ [])) (brings (m ∷ [])) p q =
            subst (λ (o : Option (Pool A)). Moves P (arrivals (m ∷ [])) (brings (m ∷ [])) p o) made
              (step-Moves m p) in
          let (conserved, staffed, spent) = run-Moves ms q p' (rw (made, ◌>>=◌) at e) in
          (
            omega (arith, conserved, one.conserved, arrivals-tally m ms),
            staffed ∙ one.staffed,
            omega (arith, spent, one.spent, brings_lem m ms),
          )
    ]

  -- After a run from the start of the workers, every snapshot that arrived is in exactly one place as
  -- often as it arrived: in the channel, in a worker's hands, finished, or refused by the full channel;
  -- and every worker waits, works or has returned. (`P` is any test of snapshots.)
  pub run-conserved :
      (capacity n : ℕ) (P : A → Bool) (ms : List (Move A)) (p : Pool A)
      → run capacity ms (start_background n) ≡ some p
      → (held P p ≡ tally P (arrivals ms)) × (workers p ≡ n)
  unfolding start_background tally
  run-conserved capacity n P ms p e =
      let (conserved, staffed, _) = run-Moves capacity P ms (start_background n) p e in
      (omega (arith, conserved), omega (arith, staffed))

  -- Workers do not spin: a run of n workers has at most n moves, 4 more for each snapshot that arrives
  -- and 1 more for each call of `Close`.
  pub run_bounded :
      (capacity n : ℕ) (ms : List (Move A)) (p : Pool A)
      → run capacity ms (start_background n) ≡ some p
      → length ms ≤ n + brings ms
  unfolding start_background
  run_bounded capacity n ms p e =
      let (_, _, spent) = run-Moves capacity (λ a. true) ms (start_background n) p e in
      omega (arith, spent)
