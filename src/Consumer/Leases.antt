-- ===== src/Consumer/Leases.antt =====
-- The leases of consumer/ownership.go over any sequence of assignments and revocations.
use go_pulse.Base.{
  ℕ, ◌+◌, ◌≤◌, ◌<◌, ◌≡◌, refl, sym, ap, subst, ◌∙◌, Bool, true, false, Option, none, some, List, [],
  ◌∷◌, ◌==◌, if◌then◌else◌, has, All, arith, ◌⊎◌, inl, inr, Bool-cases, Option-cases,
}
use go_pulse.Consumer.Ownership.{
  Partition, same, Owned, Ownership, part, without, cancel_old, assign_one, revoke_found,
  revoke_one, contexts, cancel_all, new_ownership,
}

pub same-eq : (p q : Partition) → same p q ≡ true → p ≡ q
unfolding same
same-eq p q h = ground (arith, h)

pub same_refl : (p : Partition) → same p p ≡ true
unfolding same
same_refl p = ground arith

pub some-none : {A : Type 0} {a : A} → some a ≡ none → ⊥
some-none h = cc

pub some-eq : {A : Type 0} {a b : A} → some a ≡ some b → a ≡ b
some-eq h = cc

twice :
    {A : Type 0} (b : Bool) (x y z : A)
    → (if b then x else z) ≡ (if b then x else (if b then y else z))
twice true x y z = refl
twice false x y z = refl

same_sym : (p q : Partition) → same p q ≡ same q p
unfolding same
same_sym p q = ground arith

pub part-without :
    (parts : List (Partition × Owned)) (q p : Partition)
    → part (without parts q) p ≡ (if same q p then none else part parts p)
unfolding part without
part-without [] q p = ground arith
part-without ((r, v) ∷ parts) q p =
    let rest = part-without parts q p in
    elim (Bool-cases (same r q)) [
      | inl gone ↦
          rw (gone, ap (λ x. same x p) (same-eq r q gone))
            (rest ∙ twice (same q p) none (some v) (part parts p))
      | inr kept ↦ elim (Bool-cases (same r p)) [
        | inl here ↦
            let other : same q p ≡ false =
              ap (same q) (sym (same-eq r p here)) ∙ (same_sym q r ∙ kept) in
            rw (kept, here, other) refl
        | inr there ↦ rw (kept, there) rest
      ]
    ]

bounded-without :
    (n : ℕ) (parts : List (Partition × Owned)) (q : Partition)
    → All (λ (e : Partition × Owned). e.1.ctx ≤ n) parts
    → All (λ (e : Partition × Owned). e.1.ctx ≤ n) (without parts q)
unfolding without
bounded-without n [] q a = tt
bounded-without n ((r, v) ∷ parts) q a = elim (Bool-cases (same r q)) [
  | inl gone ↦ rw gone (bounded-without n parts q a.1)
  | inr kept ↦ rw kept (a.0, bounded-without n parts q a.1)
]

bounded-suc :
    (n : ℕ) (parts : List (Partition × Owned))
    → All (λ (e : Partition × Owned). e.1.ctx ≤ n) parts
    → All (λ (e : Partition × Owned). e.1.ctx ≤ n + 1) parts
bounded-suc n [] a = tt
bounded-suc n (e ∷ parts) a = (omega (arith, a.0), bounded-suc n parts a.1)

one_more :
    (c k n : ℕ) (done : List ℕ)
    → c ≤ n
    → ((j : ℕ) → has done j ≡ true → j ≤ n)
    → has (c ∷ done) k ≡ true
    → k ≤ n
unfolding has
one_more c k n done small old h = elim (Bool-cases (has done k)) [
  | inl seen ↦ old k seen
  | inr new_one ↦ ground (arith, h, new_one, small)
]

contexts-old :
    (n k : ℕ) (parts : List (Partition × Owned)) (done : List ℕ)
    → All (λ (e : Partition × Owned). e.1.ctx ≤ n) parts
    → ((j : ℕ) → has done j ≡ true → j ≤ n)
    → has (contexts parts done) k ≡ true
    → k ≤ n
unfolding has
contexts-old n k [] done a old h = old k h
contexts-old n k ((r, v) ∷ parts) done a old h =
    contexts-old n k parts (v.ctx ∷ done) a.1 (λ j seen. one_more v.ctx j n done a.0 old seen) h

-- Every partition owned has a context of its own that is not cancelled, made at its generation.
pub record Sound (o : Ownership) : Type 0 where
  pub live :
      (p : Partition) (v : Owned)
      → part o.parts p ≡ some v
      → (v.ctx ≡ v.generation) × (v.generation ≤ o.next) × (has o.cancelled v.ctx ≡ false)
  pub old : (k : ℕ) → has o.cancelled k ≡ true → k ≤ o.next
  pub apart :
      (p q : Partition) (v w : Owned)
      → part o.parts p ≡ some v
      → part o.parts q ≡ some w
      → v.generation ≡ w.generation
      → p ≡ q
  pub bounded : All (λ (e : Partition × Owned). e.1.ctx ≤ o.next) o.parts

pub new-Sound : Sound new_ownership
unfolding part has
new-Sound = record {
  live = λ p v h. absurd (cc);
  old = λ k h. absurd (cc);
  apart = λ p q v w h i e. absurd (cc);
  bounded = tt;
}

pub cancel_all-Sound : (o : Ownership) → Sound o → Sound (cancel_all o)
unfolding cancel_all part
cancel_all-Sound o s = record {
  live = λ p v h. absurd (cc);
  old = λ k h. contexts-old o.next k o.parts o.cancelled s.bounded s.old h;
  apart = λ p q v w h i e. absurd (cc);
  bounded = tt;
}

-- What `without` leaves was there.
pub part-still :
    (parts : List (Partition × Owned)) (q p : Partition) (v : Owned)
    → part (without parts q) p ≡ some v
    → (same q p ≡ false) × (part parts p ≡ some v)
part-still parts q p v h = elim (Bool-cases (same q p)) [
  | inl gone ↦ absurd (some-none (sym h ∙ (part-without parts q p ∙ rw gone refl)))
  | inr kept ↦ (kept, sym (part-without parts q p ∙ rw kept refl) ∙ h)
]

different : (p q : Partition) → same q p ≡ false → q ≡ p → ⊥
different p q h e = absurd (cc_same (sym h ∙ (ap (same q) (sym e) ∙ same_refl q)))
  where
    cc_same : false ≡ true → ⊥
    cc_same x = cc

-- Cancelling one partition's context cancels no other's.
still_live :
    (o : Ownership) (q p : Partition) (old v : Owned)
    → Sound o
    → part o.parts q ≡ some old
    → part o.parts p ≡ some v
    → same q p ≡ false
    → has (old.ctx ∷ o.cancelled) v.ctx ≡ false
unfolding has
still_live o q p old v s there h other =
    let (c, _, free) = s.live p v h in
    let (d, _, _) = s.live q old there in
    elim (Bool-cases (old.ctx == v.ctx)) [
      | inl alike ↦
          let equal : old.generation ≡ v.generation = ground (arith, alike, c, d) in
          absurd (different p q other (s.apart q p old v there h equal))
      | inr apart ↦ rw (apart, free) refl
    ]

revoke_found-Sound :
    (o : Ownership) (q : Partition) (old : Option Owned)
    → part o.parts q ≡ old
    → Sound o
    → Sound (revoke_found o q old)
unfolding revoke_found
revoke_found-Sound o q none there s = s
revoke_found-Sound o q (some old) there s = record {
  live = λ p v h.
      let (other, found) = part-still o.parts q p v h in
      let (c, g, _) = s.live p v found in (c, g, still_live o q p old v s there found other);
  old = λ k h.
      let (c, g, _) = s.live q old there in
      one_more old.ctx k o.next o.cancelled (omega (arith, c, g)) s.old h;
  apart = λ p r v w h i e.
      s.apart p r v w (part-still o.parts q p v h).1 (part-still o.parts q r w i).1 e;
  bounded = bounded-without o.next o.parts q s.bounded;
}

-- A partition that is not owned, given a new generation.
unfoldable pub insert_part : Ownership → Partition → Ownership
insert_part o q = record o {
  next = o.next + 1;
  parts = (q, record { generation = o.next + 1; ctx = o.next + 1 }) ∷ o.parts;
}

without-none :
    (parts : List (Partition × Owned)) (q : Partition)
    → part parts q ≡ none
    → without parts q ≡ parts
unfolding part without
without-none [] q h = refl
without-none ((r, v) ∷ parts) q h = elim (Bool-cases (same r q)) [
  | inl here ↦ absurd (some-none (rw here at h))
  | inr there ↦ rw there (ap (λ x. (r, v) ∷ x) (without-none parts q (rw there at h)))
]

-- Assigning a partition is revoking it and giving it a new generation.
pub assign_one_lem :
    (o : Ownership) (q : Partition) → assign_one o q ≡ insert_part (revoke_one o q) q
unfolding assign_one revoke_one insert_part cancel_old revoke_found
assign_one_lem o q = elim (Option-cases (part o.parts q)) [
  | inl absent ↦ rw (absent, without-none o.parts q absent) refl
  | inr (old, there) ↦ rw there refl
]

-- A partition owned after an insertion is the new one or was owned before.
pub part-insert :
    (o : Ownership) (q p : Partition) (v : Owned)
    → part (insert_part o q).parts p ≡ some v
    → ((q ≡ p) × (v.generation ≡ o.next + 1) × (v.ctx ≡ o.next + 1))
      ⊎ ((same q p ≡ false) × (part o.parts p ≡ some v))
unfolding insert_part part
part-insert o q p v h = elim (Bool-cases (same q p)) [
  | inl here ↦
      let fresh = some-eq (rw here at h) in
      inl (
        same-eq q p here,
        ap (λ (x : Owned). x.generation) (sym fresh),
        ap (λ (x : Owned). x.ctx) (sym fresh),
      )
  | inr there ↦ inr (there, rw there at h)
]

insert_part-Sound : (o : Ownership) (q : Partition) → Sound o → Sound (insert_part o q)
unfolding insert_part
insert_part-Sound o q s = record {
  live = λ p v h. elim (part-insert o q p v h) [
    | inl (_, g, c) ↦ (c ∙ sym g, omega (arith, g), rw c (unused (o.next + 1) (omega arith)))
    | inr (_, found) ↦ let (c, g, free) = s.live p v found in (c, omega (arith, g), free)
  ];
  old = λ k h. omega (arith, s.old k h);
  apart = λ p r v w h i e. elim (part-insert o q p v h) [
    | inl (here, g, _) ↦ elim (part-insert o q r w i) [
      | inl (there, _, _) ↦ sym here ∙ there
      | inr (_, found) ↦ let (_, below, _) = s.live r w found in absurd (omega (arith, below, g, e))
    ]
    | inr (_, found) ↦ elim (part-insert o q r w i) [
      | inl (_, g, _) ↦ let (_, below, _) = s.live p v found in absurd (omega (arith, below, g, e))
      | inr (_, also) ↦ s.apart p r v w found also e
    ]
  ];
  bounded = (omega arith, bounded-suc o.next o.parts s.bounded);
}
  where
    unused : (k : ℕ) → o.next < k → has o.cancelled k ≡ false
    unused k later = elim (Bool-cases (has o.cancelled k)) [
      | inl seen ↦ absurd (omega (arith, s.old k seen, later))
      | inr free ↦ free
    ]

pub revoke_one-Sound : (o : Ownership) (q : Partition) → Sound o → Sound (revoke_one o q)
unfolding revoke_one
revoke_one-Sound o q s = revoke_found-Sound o q (part o.parts q) refl s

pub assign_one-Sound : (o : Ownership) (q : Partition) → Sound o → Sound (assign_one o q)
assign_one-Sound o q s =
    subst Sound (sym (assign_one_lem o q))
      (insert_part-Sound (revoke_one o q) q (revoke_one-Sound o q s))
