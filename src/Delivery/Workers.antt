-- ===== src/Delivery/Workers.antt =====
-- The delivery loop of outbox/dispatcher.go and the workers that publish for it, over every order in
-- which the channels and the timers can fire.
use go_pulse.Base.{
  ℕ, suc, ◌+◌, ◌≡◌, refl, sym, ap, subst, Option, some, List, [], ◌∷◌, ◌++◌, length, length-append,
  Result, arith,
}
use go_pulse.Delivery.Loop.{
  Options, Completion, Loop, acknowledges, completes, claims, running, start, select_case, pass,
}
use go_pulse.Delivery.Bounds.{
  Bounded, on_tick-Bounded, on_done-Bounded, on_claim-Bounded, pass-eq-running, running-injective,
}

-- The loop and the records that the workers have and have not reported.
abbrev pub State : Type 0
State = Loop × List ℕ

-- Which events can come: a worker reports a record that it has, and the claim timer fires if it is
-- set. The records that a pass sends go to the workers.
pub data Step (o : Options) : State → State → Type 0 where
  acknowledged :
      (l l' : Loop) (out sent : List ℕ) (now : ℕ) (answer : List ℕ → List (Option ℕ) × Option ℕ)
      → pass o l (acknowledges now answer) ≡ running l' sent
      → Step o (l, out) (l', out ++ sent)
  completed :
      (l l' : Loop) (before later sent : List ℕ) (now : ℕ) (c : Completion)
      (answer : List ℕ → List (Option ℕ) × Option ℕ)
      → pass o l (completes now c answer) ≡ running l' sent
      → Step o (l, before ++ c.id ∷ later) (l', (before ++ later) ++ sent)
  claimed :
      (l l' : Loop) (out sent : List ℕ) (now t : ℕ) (random : ℕ → ℕ) (store : ℕ → Result ℕ (List ℕ))
      → l.timer ≡ some t
      → pass o l (claims now random store) ≡ running l' sent
      → Step o (l, out) (l', out ++ sent)

pub data Reach (o : Options) : State → Type 0 where
  started : (now : ℕ) → Reach o (start now, [])
  then_ : {s s' : State} → Reach o s → Step o s s' → Reach o s'

step-Bounded :
    (o : Options) (s s' : State)
    → Bounded o (length s.1) s.0
    → Step o s s'
    → Bounded o (length s'.1) s'.0
unfolding select_case
step-Bounded o s s' inv (acknowledged l l' out sent now answer h) =
    let (loops, nothing) = running-injective (pass-eq-running o l l' _ sent h) in
    rw (length-append out sent, sym nothing, right_zero (length out))
      (subst (λ x. Bounded o (length out) x) loops
        (on_tick-Bounded o now answer l (length out) inv))
  where
    right_zero : (n : ℕ) → n + 0 ≡ n
    right_zero n = omega arith
step-Bounded o s s' inv (completed l l' before later sent now c answer h) =
    let (loops, nothing) = running-injective (pass-eq-running o l l' _ sent h) in
    let fewer : length (before ++ c.id ∷ later) ≡ suc (length ((before ++ later) ++ sent)) = omega (
      arith,
      ap length nothing,
      length-append (before ++ later) sent,
      length-append before later,
      length-append before (c.id ∷ later),
    ) in
    subst (λ x. Bounded o (length ((before ++ later) ++ sent)) x) loops
      (on_done-Bounded o now c answer l (length ((before ++ later) ++ sent))
        (subst (λ n. Bounded o n l) fewer inv))
step-Bounded o s s' inv (claimed l l' out sent now t random store set h) =
    rw (length-append out sent) (
      on_claim-Bounded o l l' now random store sent (length out) inv
        (pass-eq-running o l l' _ sent h))

-- Whatever the store, the publishers and the timers answer, and in whatever order: every record in
-- flight is with a worker or waits for its acknowledgement, never more than `claim_batch` are in
-- flight, and a continuous loop that has room for a record has its claim timer set.
pub Reach-Bounded : (o : Options) (s : State) → Reach o s → Bounded o (length s.1) s.0
Reach-Bounded o s (started now) = record {
  counted = refl;
  within = omega arith;
  armed = λ _ _. refl;
}
Reach-Bounded o s (then_ {s = before} r step) =
    step-Bounded o before s (Reach-Bounded o before r) step
