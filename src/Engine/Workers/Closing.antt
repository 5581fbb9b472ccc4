-- ===== src/Engine/Workers/Closing.antt =====
-- engine.go and engine_background.go: how the workers end once `Close` has closed `bgStop`.
use mathlib.Core.Option.{some-injective}
use guard_go.Base.{
  ℕ, zero, suc, ◌+◌, ◌*◌, ◌≤◌, ◌≡◌, ◌∙◌, refl, sym, subst, Bool, true, false, List, [], ◌∷◌, Option,
  none, some, ◌>>=◌, length, arith, inl, inr, Option-cases, Bool-cases, ltb,
}
use guard_go.Engine.Workers.{
  Pool, Move, arrive, take, leave, shut, finish, pick, move_arrive, move_take, move_finish,
  move_leave, move_shut, step, run,
}
use guard_go.Engine.Workers.Runs.{workers, work_left, arrivals, brings, run-Moves}

module _ {ℓ} {A : Type ℓ} where
  -- The workers can all return by moves that neither take a snapshot from the channel nor let one
  -- arrive.
  pub record Retires (capacity : ℕ) (p : Pool A) : Type ℓ where
    pub rest : List (Move A)
    pub final : Pool A
    pub runs : run capacity rest p ≡ some final
    pub returned : final.exited ≡ workers p
    pub untouched : final.waiting ≡ p.waiting
    pub nothing_new : arrivals rest ≡ []

  -- A pool whose `bgStop` is closed.
  abbrev closing : List A → List A → List A → List A → ℕ → ℕ → Pool A
  closing ws bs fs rs i x = record {
    waiting = ws;
    busy = bs;
    finished = fs;
    refused = rs;
    idle = i;
    exited = x;
    closed = true;
  }

  idle-Retires : (capacity i x : ℕ) (ws fs rs : List A) → Retires capacity (closing ws [] fs rs i x)
  unfolding run step move_leave arrivals
  idle-Retires capacity zero x ws fs rs = record {
    rest = [];
    final = closing ws [] fs rs zero x;
    runs = refl;
    returned = omega arith;
    untouched = refl;
    nothing_new = refl;
  }
  idle-Retires capacity (suc i) x ws fs rs =
      let more = idle-Retires capacity i (x + 1) ws fs rs in
      record {
        rest = leave ∷ more.rest;
        final = more.final;
        runs = more.runs;
        returned = omega (arith, more.returned);
        untouched = more.untouched;
        nothing_new = more.nothing_new;
      }

  busy-Retires :
      (capacity : ℕ) (bs : List A) (i x : ℕ) (ws fs rs : List A)
      → Retires capacity (closing ws bs fs rs i x)
  unfolding run step move_finish pick arrivals
  busy-Retires capacity [] i x ws fs rs = idle-Retires capacity i x ws fs rs
  busy-Retires capacity (b ∷ bs) i x ws fs rs =
      let more = busy-Retires capacity bs (i + 1) x ws (b ∷ fs) rs in
      record {
        rest = finish 0 ∷ more.rest;
        final = more.final;
        runs = more.runs;
        returned = omega (arith, more.returned);
        untouched = more.untouched;
        nothing_new = more.nothing_new;
      }

  closed-Retires : (capacity : ℕ) (p : Pool A) → p.closed ≡ true → Retires capacity p
  closed-Retires capacity p e =
      subst (λ (c : Bool). Retires capacity (record p { closed = c })) (sym e)
        (busy-Retires capacity p.busy p.idle p.exited p.waiting p.finished p.refused)

  -- What a move leaves: `bgStop` stays closed.
  abbrev Stays : Option (Pool A) → Type 0
  Stays none = Unit
  Stays (some q) = q.closed ≡ true

  take-Stays :
      (capacity i : ℕ) (xs : List A) (p : Pool A)
      → p.closed ≡ true
      → Stays (move_take capacity i xs p)
  unfolding move_take
  take-Stays capacity zero xs p c = tt
  take-Stays capacity (suc i) [] p c = tt
  take-Stays capacity (suc i) (a ∷ xs) p c = c

  leave-Stays :
      (capacity i : ℕ) (b : Bool) (p : Pool A) → p.closed ≡ true → Stays (move_leave capacity b i p)
  unfolding move_leave
  leave-Stays capacity i false p c = tt
  leave-Stays capacity zero true p c = tt
  leave-Stays capacity (suc i) true p c = c

  finish-Stays :
      (capacity : ℕ) (o : Option (A × List A)) (p : Pool A)
      → p.closed ≡ true
      → Stays (move_finish capacity o p)
  unfolding move_finish
  finish-Stays capacity none p c = tt
  finish-Stays capacity (some (a, xs)) p c = c

  shut-Stays : (capacity : ℕ) (b : Bool) (p : Pool A) → Stays (move_shut capacity b p)
  unfolding move_shut
  shut-Stays capacity true p = tt
  shut-Stays capacity false p = refl

  arrive-Stays :
      (capacity : ℕ) (a : A) (p : Pool A)
      → p.closed ≡ true
      → (move_arrive capacity a p).closed ≡ true
  unfolding move_arrive
  arrive-Stays capacity a p c = elim (Bool-cases (ltb (length p.waiting) capacity)) [
    | inl room ↦ rw room c
    | inr full ↦ rw full c
  ]

  step-Stays :
      (capacity : ℕ) (m : Move A) (p : Pool A) → p.closed ≡ true → Stays (step capacity m p)
  unfolding step
  step-Stays capacity (arrive a) p c = arrive-Stays capacity a p c
  step-Stays capacity take p c = take-Stays capacity p.idle p.waiting p c
  step-Stays capacity leave p c = leave-Stays capacity p.idle p.closed p c
  step-Stays capacity shut p c = shut-Stays capacity p.closed p
  step-Stays capacity (finish k) p c = finish-Stays capacity (pick k p.busy) p c

  shut_twice : (capacity : ℕ) (b : Bool) (p : Pool A) → b ≡ true → move_shut capacity b p ≡ none
  unfolding move_shut
  shut_twice capacity true p c = refl
  shut_twice capacity false p c = absurd (ground arith)

  -- After the close only an arrival brings work.
  brings-closed :
      (capacity : ℕ) (m : Move A) (ms : List (Move A)) (p q : Pool A)
      → p.closed ≡ true
      → step capacity m p ≡ some q
      → brings ms ≤ 4 * length (arrivals ms)
      → brings (m ∷ ms) ≤ 4 * length (arrivals (m ∷ ms))
  unfolding brings arrivals step
  brings-closed capacity (arrive a) ms p q c e h = omega (arith, h)
  brings-closed capacity take ms p q c e h = h
  brings-closed capacity leave ms p q c e h = h
  brings-closed capacity shut ms p q c e h =
      absurd (ground (arith, sym (shut_twice capacity p.closed p c) ∙ e))
  brings-closed capacity (finish k) ms p q c e h = h

  run-closed :
      (capacity : ℕ) (ms : List (Move A)) (p p' : Pool A)
      → p.closed ≡ true
      → run capacity ms p ≡ some p'
      → (brings ms ≤ 4 * length (arrivals ms)) × (p'.closed ≡ true)
  unfolding run brings arrivals
  run-closed capacity [] p p' c e =
      let same : p ≡ p' = some-injective p p' e in
      (omega arith, subst (λ (q : Pool A). q.closed ≡ true) same c)
  run-closed capacity (m ∷ ms) p p' c e = elim (Option-cases (step capacity m p)) [
    | inl stuck ↦ absurd (ground (arith, rw (stuck, ◌>>=◌) at e))
    | inr (q, made) ↦
        let (few, still) =
          run-closed capacity ms q p' (subst Stays made (step-Stays capacity m p c))
            (rw (made, ◌>>=◌) at e) in
        (brings-closed capacity m ms p q c made few, still)
  ]

  -- Once `bgStop` is closed, the moves that follow, in any order, are no more than the work that was left
  -- and 4 for each snapshot that still arrives; and wherever they lead, the workers that wait and work
  -- there can all return, without taking another snapshot from the channel and whatever it holds.
  pub run-closed-Retires :
      (capacity : ℕ) (ms : List (Move A)) (p p' : Pool A)
      → p.closed ≡ true
      → run capacity ms p ≡ some p'
      → (length ms ≤ work_left p + 4 * length (arrivals ms))
        × (workers p' ≡ workers p)
        × Retires capacity p'
  run-closed-Retires capacity ms p p' c e =
      let (_, staffed, spent) = run-Moves capacity (λ a. true) ms p p' e in
      let (few, still) = run-closed capacity ms p p' c e in
      (omega (arith, spent, few), staffed, closed-Retires capacity p' still)
