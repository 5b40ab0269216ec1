-- ===== src/Delivery/Bounds.antt =====
-- The delivery loop of outbox/dispatcher.go together with its workers: what is in flight stays within
-- the claim batch, and claiming never stops.
use go_pulse.Base.{
  ℕ, suc, ◌+◌, ◌-◌, ◌≤◌, ◌<◌, ◌≡◌, refl, ap, subst, Bool, true, false, not, ◌&&◌, Option, none,
  some, List, [], ◌∷◌, length, length-append, Result, ok, err, ◌==◌, ltb, leb, if◌then◌else◌, arith,
  inl, inr, Bool-cases,
}
use go_pulse.Delivery.Loop.{
  Options, Completion, Loop, Event, running, returned, remember, remember_all, flush,
  schedule_claim, on_tick, count_done, flush_due, on_done, on_claimed, on_claim, select_case, pass,
}

abbrev pub is_set : Option ℕ → Bool
is_set none = false
is_set (some _) = true

remember_all_same :
    (es : List (Option ℕ)) (l : Loop)
    → ((remember_all es l).in_flight ≡ l.in_flight) × ((remember_all es l).timer ≡ l.timer)
unfolding remember_all remember
remember_all_same [] l = (refl, refl)
remember_all_same (e ∷ es) l = remember_all_same es (remember e l)

pub running-injective :
    {l l' : Loop} {xs ys : List ℕ} → running l xs ≡ running l' ys → (l ≡ l') × (xs ≡ ys)
running-injective h = (cc, cc)

not_running :
    {more : Bool} {e : Option ℕ} {l : Loop} {xs : List ℕ} → returned more e ≡ running l xs → ⊥
not_running h = cc

-- `flush` acknowledges all or nothing is pending.
flush_lem :
    (answer : List ℕ → List (Option ℕ) × Option ℕ) (l : Loop) (n : ℕ)
    → l.in_flight ≡ n + length l.pending
    → let l' = flush answer l in
      (l'.in_flight ≡ n) × (length l'.pending ≡ 0) × ((length l.pending ≡ 0) → l' ≡ l)
unfolding flush
flush_lem answer l n h = elim (Bool-cases (length l.pending == 0)) [
  | inl none_left ↦ rw none_left (ground arith, ground arith, λ _. refl)
  | inr some_left ↦ rw some_left (omega arith, refl, λ z. absurd (ground arith))
]

-- With `n` records at the workers: every record in flight is with a worker or is published and not yet
-- acknowledged, at most `claim_batch` are in flight, and while a continuous loop has room its claim
-- timer is set.
pub record Bounded (o : Options) (n : ℕ) (l : Loop) : Type 0 where
  pub counted : l.in_flight ≡ n + length l.pending
  pub within : l.in_flight ≤ o.claim_batch
  pub armed : o.continuous ≡ true → l.in_flight < o.claim_batch → is_set l.timer ≡ true

Armed : Options → Loop → Type 0
Armed o l = o.continuous ≡ true → l.in_flight < o.claim_batch → is_set l.timer ≡ true

-- A pass ends by setting the claim timer, or leaves the loop as it is.
settle-Bounded :
    (o : Options) (now : ℕ) (l : Loop) (n : ℕ) (due : Bool)
    → l.in_flight ≡ n + length l.pending
    → l.in_flight ≤ o.claim_batch
    → (due ≡ false → Armed o l)
    → Bounded o n (if o.continuous && due then schedule_claim now l else l)
unfolding schedule_claim Armed
settle-Bounded o now l n true counts fits later = elim (Bool-cases o.continuous) [
  | inl goes_on ↦ rw goes_on record { counted = counts; within = fits; armed = λ _ _. refl }
  | inr once ↦ rw once record { counted = counts; within = fits; armed = λ c _. absurd (cc) }
]
settle-Bounded o now l n false counts fits later =
    rw (and_false o.continuous) record { counted = counts; within = fits; armed = later refl }
  where
    and_false : (b : Bool) → (b && false) ≡ false
    and_false b = ground arith

pub on_tick-Bounded :
    (o : Options) (now : ℕ) (answer : List ℕ → List (Option ℕ) × Option ℕ) (l : Loop) (n : ℕ)
    → Bounded o n l
    → Bounded o n (on_tick o now answer l)
unfolding on_tick Armed
on_tick-Bounded o now answer l n inv =
    let (flown, empty, same) = flush_lem answer l n inv.counted in
    settle-Bounded o now (flush answer l) n
      (ltb 0 (length l.pending) && ltb (flush answer l).in_flight o.claim_batch) (omega arith)
      (omega (arith, inv.within, inv.counted))
      (λ quiet c room.
        let nothing : length l.pending ≡ 0 = ground (arith, quiet, room) in
        rw (same nothing) (inv.armed c (rw (same nothing) at room)))

-- A completion moves its record to the pending ones or out of the loop.
count_done_lem :
    (c : Completion) (l : Loop) (n : ℕ)
    → l.in_flight ≡ suc n + length l.pending
    → let l' = count_done c l in
      (l'.in_flight ≡ n + length l'.pending) × (l'.in_flight ≤ l.in_flight)
unfolding count_done
count_done_lem c l n h =
    elim (Bool-cases (c.published && elim c.error [ none ↦ true | some _ ↦ false ])) [
      | inl good ↦ rw good (omega (arith, length-append l.pending (c.id ∷ [])), omega arith)
      | inr bad ↦ rw bad (omega arith, omega arith)
    ]

pub on_done-Bounded :
    (o : Options) (now : ℕ) (c : Completion) (answer : List ℕ → List (Option ℕ) × Option ℕ)
    (l : Loop) (n : ℕ)
    → Bounded o (suc n) l
    → Bounded o n (on_done o now c answer l)
unfolding on_done remember Armed
on_done-Bounded o now c answer l n inv =
    let counted = count_done c (remember c.error l) in
    let (moved, fewer) = count_done_lem c (remember c.error l) n inv.counted in
    let (flown, empty, _) = flush_lem answer counted n moved in
    elim (Bool-cases (flush_due o counted)) [
      | inl due ↦ rw due (
          settle-Bounded o now (flush answer counted) n
            (ltb (flush answer counted).in_flight o.claim_batch) (omega arith)
            (omega (arith, inv.within, inv.counted))
            (λ full _ room. absurd (ground (arith, full, room))))
      | inr wait ↦ rw wait (
          settle-Bounded o now counted n (ltb counted.in_flight o.claim_batch) moved
            (omega (arith, inv.within)) (λ full _ room. absurd (ground (arith, full, room))))
    ]

on_claimed-Bounded :
    (o : Options) (now : ℕ) (random : ℕ → ℕ) (result : Result ℕ (List ℕ)) (l l' : Loop)
    (sent : List ℕ) (n : ℕ)
    → l.in_flight ≡ n + length l.pending
    → l.in_flight < o.claim_batch
    → on_claimed o now random (o.claim_batch - l.in_flight) result l ≡ running l' sent
    → Bounded o (n + length sent) l'
unfolding on_claimed Armed schedule_claim remember
on_claimed-Bounded o now random (err e) l l' sent n counts room h = elim (Bool-cases o.continuous) [
  | inl goes_on ↦
      let (loops, nothing) = running-injective (rw goes_on at h) in
      subst (λ x. Bounded o (n + length sent) x) loops
        record {
          counted = omega (arith, ap length nothing, counts);
          within = omega arith;
          armed = λ _ _. refl;
        }
  | inr once ↦ absurd (not_running (rw once at h))
]
on_claimed-Bounded o now random (ok records) l l' sent n counts room h =
    let free = o.claim_batch - l.in_flight in
    elim (Bool-cases (ltb free (length records))) [
      | inl many ↦ absurd (not_running (rw many at h))
      | inr fits ↦
          let (loops, same) = running-injective (rw fits at h) in
          subst (λ x. Bounded o (n + length sent) x) loops
            (settle-Bounded o now _ (n + length sent) (ltb (length records) free)
              (omega (arith, ap length same, counts)) (ground (arith, fits, room))
              (λ full _ left. absurd (ground (arith, full, left, fits, room))))
    ]

pub on_claim-Bounded :
    (o : Options) (l l' : Loop) (now : ℕ) (random : ℕ → ℕ) (store : ℕ → Result ℕ (List ℕ))
    (sent : List ℕ) (n : ℕ)
    → Bounded o n l
    → on_claim o now random store (record l { timer = none }) ≡ running l' sent
    → Bounded o (n + length sent) l'
unfolding on_claim
on_claim-Bounded o l l' now random store sent n inv h =
    elim (Bool-cases (not l.first_claim && not o.continuous)) [
      | inl over ↦
          let (loops, nothing) = running-injective (rw over at h) in
          subst (λ x. Bounded o (n + length sent) x) loops
            record {
              counted = omega (arith, ap length nothing, inv.counted);
              within = inv.within;
              armed = λ c _. absurd (ground (arith, over, c));
            }
      | inr claims_on ↦ elim (Bool-cases (leb o.claim_batch l.in_flight)) [
        | inl full ↦
            let (loops, nothing) = running-injective (rw (claims_on, full) at h) in
            subst (λ x. Bounded o (n + length sent) x) loops
              record {
                counted = omega (arith, ap length nothing, inv.counted);
                within = inv.within;
                armed = λ _ room. absurd (ground (arith, full, room));
              }
        | inr free ↦
            on_claimed-Bounded o now random (store (o.claim_batch - l.in_flight))
              (record l { timer = none }) l' sent n inv.counted (ground (arith, free))
              (rw (claims_on, free) at h)
      ]
    ]

-- A pass that does not return is one of the cases of the `select`.
pub pass-eq-running :
    (o : Options) (l l' : Loop) (event : Event) (sent : List ℕ)
    → pass o l event ≡ running l' sent
    → select_case o l event ≡ running l' sent
unfolding pass
pass-eq-running o l l' event sent h =
    elim (Bool-cases (not o.continuous && (not l.first_claim && l.in_flight == 0))) [
      | inl over ↦ absurd (not_running (rw over at h))
      | inr on ↦ rw on at h
    ]
