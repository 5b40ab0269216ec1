-- ===== src/Consumer/Staleness.antt =====
-- When a lease of consumer/ownership.go is valid: exactly until its partition is assigned or revoked.
use go_pulse.Base.{
  ℕ, ◌≤◌, ◌≡◌, refl, sym, ap, subst, ◌∙◌, Bool, true, false, not, ◌||◌, some, List, [], ◌∷◌, map,
  ◌==◌, ==_refl, arith, inl, inr, Bool-cases, Option-cases,
}
use go_pulse.Consumer.Ownership.{
  Partition, same, Owned, Lease, Ownership, part, assign_one, assign, revoke_found, revoke_one,
  revoke, cancel_all, lease, lease_of, valid, valid_part,
}
use go_pulse.Consumer.Leases.{
  Sound, insert_part, assign_one_lem, revoke_one-Sound, assign_one-Sound, cancel_all-Sound,
  part-insert, part-still, some-none, some-eq, part-without, same-eq, same_refl,
}

-- A change of one partition, or of all.
pub data Change : Type 0 where
  assigns revokes : Partition → Change
  cancels : Change

unfoldable pub change : Ownership → Change → Ownership
change o (assigns p) = assign_one o p
change o (revokes p) = revoke_one o p
change o cancels = cancel_all o

unfoldable pub run : Ownership → List Change → Ownership
run o [] = o
run o (c ∷ cs) = run (change o c) cs

-- `Assign` and `Revoke` are their changes in order.
pub assign-run : (o : Ownership) (ps : List Partition) → assign o ps ≡ run o (map assigns ps)
unfolding assign run change
assign-run o [] = refl
assign-run o (p ∷ ps) = assign-run (assign_one o p) ps

pub revoke-run : (o : Ownership) (ps : List Partition) → revoke o ps ≡ run o (map revokes ps)
unfolding revoke run change
revoke-run o [] = refl
revoke-run o (p ∷ ps) = revoke-run (revoke_one o p) ps

abbrev pub touches : Partition → Change → Bool
touches p (assigns q) = same q p
touches p (revokes q) = same q p
touches p cancels = true

abbrev pub touched : Partition → List Change → Bool
touched p [] = false
touched p (c ∷ cs) = touches p c || touched p cs

change-Sound : (o : Ownership) (c : Change) → Sound o → Sound (change o c)
unfolding change
change-Sound o (assigns p) s = assign_one-Sound o p s
change-Sound o (revokes p) s = revoke_one-Sound o p s
change-Sound o cancels s = cancel_all-Sound o s

-- The generation `g` is of the past, and nobody owns the partition at it.
Stale : ℕ → Partition → Ownership → Type 0
Stale g p o = (g ≤ o.next) × ((v : Owned) → part o.parts p ≡ some v → v.generation ≡ g → ⊥)

revoke-next : (o : Ownership) (q : Partition) → (revoke_one o q).next ≡ o.next
unfolding revoke_one revoke_found
revoke-next o q = elim (Option-cases (part o.parts q)) [
  | inl absent ↦ rw absent refl
  | inr (old, there) ↦ rw there refl
]

-- What is owned after a revocation was owned before, by another partition.
revoke-part :
    (o : Ownership) (q p : Partition) (v : Owned)
    → part (revoke_one o q).parts p ≡ some v
    → (part o.parts p ≡ some v)
unfolding revoke_one revoke_found
revoke-part o q p v h = elim (Option-cases (part o.parts q)) [
  | inl absent ↦ rw absent at h
  | inr (old, there) ↦ (part-still o.parts q p v (rw there at h)).1
]

revoke-gone :
    (o : Ownership) (q : Partition) (v : Owned) → part (revoke_one o q).parts q ≡ some v → ⊥
unfolding revoke_one revoke_found
revoke-gone o q v h = elim (Option-cases (part o.parts q)) [
  | inl absent ↦ some-none (sym (rw absent at h) ∙ absent)
  | inr (old, there) ↦
      let (other, _) = part-still o.parts q q v (rw there at h) in
      false-true (sym other ∙ same_refl q)
]
  where
    false-true : false ≡ true → ⊥
    false-true e = cc

revoke-Stale :
    (g : ℕ) (p : Partition) (o : Ownership) (q : Partition)
    → Stale g p o
    → Stale g p (revoke_one o q)
unfolding Stale
revoke-Stale g p o q (old, none_at) =
    (rw (revoke-next o q) old, λ v h. none_at v (revoke-part o q p v h))

insert-Stale :
    (g : ℕ) (p : Partition) (o : Ownership) (q : Partition)
    → Stale g p o
    → Stale g p (insert_part o q)
unfolding Stale insert_part
insert-Stale g p o q (old, none_at) = (
  omega arith,
  λ v h e. elim (part-insert o q p v h) [
    | inl (_, later, _) ↦ absurd (omega (arith, later, e, old))
    | inr (_, found) ↦ none_at v found e
  ],
)

cancel_all-Stale : (g : ℕ) (p : Partition) (o : Ownership) → Stale g p o → Stale g p (cancel_all o)
unfolding Stale cancel_all part
cancel_all-Stale g p o (old, _) = (old, λ v h e. some-none (sym h))

cancelled-Stale :
    (p : Partition) (o : Ownership) (v : Owned)
    → Sound o
    → part o.parts p ≡ some v
    → Stale v.generation p (cancel_all o)
unfolding Stale cancel_all part
cancelled-Stale p o v s there = ((s.live p v there).1, λ w h e. some-none (sym h))

insert-part :
    (o : Ownership) (q p : Partition)
    → same q p ≡ false
    → part (insert_part o q).parts p ≡ part o.parts p
unfolding insert_part part
insert-part o q p miss = rw miss refl

revoke-other :
    (o : Ownership) (q p : Partition) (v : Owned)
    → part o.parts p ≡ some v
    → same q p ≡ false
    → part (revoke_one o q).parts p ≡ some v
unfolding revoke_one revoke_found
revoke-other o q p v there miss = elim (Option-cases (part o.parts q)) [
  | inl absent ↦ rw absent there
  | inr (old, owned) ↦ rw owned (part-without o.parts q p ∙ rw miss there)
]

change-Stale :
    (g : ℕ) (p : Partition) (o : Ownership) (c : Change) → Stale g p o → Stale g p (change o c)
unfolding change
change-Stale g p o (assigns q) st =
    subst (Stale g p) (sym (assign_one_lem o q))
      (insert-Stale g p (revoke_one o q) q (revoke-Stale g p o q st))
change-Stale g p o (revokes q) st = revoke-Stale g p o q st
change-Stale g p o cancels st = cancel_all-Stale g p o st

-- A change that touches a partition ends what was owned of it.
revoked-Stale :
    (p : Partition) (o : Ownership) (v : Owned)
    → Sound o
    → part o.parts p ≡ some v
    → Stale v.generation p (revoke_one o p)
unfolding Stale
revoked-Stale p o v s there =
    (rw (revoke-next o p) (s.live p v there).1, λ w h e. revoke-gone o p w h)

touched-Stale :
    (p : Partition) (o : Ownership) (v : Owned) (c : Change)
    → Sound o
    → part o.parts p ≡ some v
    → touches p c ≡ true
    → Stale v.generation p (change o c)
unfolding change
touched-Stale p o v (assigns q) s there hit =
    let e = same-eq q p hit in
    subst (Stale v.generation p) (sym (assign_one_lem o q)) (
      insert-Stale v.generation p (revoke_one o q) q
        (subst (λ x. Stale v.generation p (revoke_one o x)) (sym e) (revoked-Stale p o v s there)))
touched-Stale p o v (revokes q) s there hit =
    subst (λ x. Stale v.generation p (revoke_one o x)) (sym (same-eq q p hit))
      (revoked-Stale p o v s there)
touched-Stale p o v cancels s there hit = cancelled-Stale p o v s there

-- A change that does not touch a partition leaves what is owned of it.
untouched-part :
    (p : Partition) (o : Ownership) (v : Owned) (c : Change)
    → part o.parts p ≡ some v
    → touches p c ≡ false
    → part (change o c).parts p ≡ some v
unfolding change
untouched-part p o v (assigns q) there miss =
    ap (λ (x : Ownership). part x.parts p) (assign_one_lem o q)
    ∙ insert-part (revoke_one o q) q p miss
    ∙ revoke-other o q p v there miss
untouched-part p o v (revokes q) there miss = revoke-other o q p v there miss
untouched-part p o v cancels there miss = absurd (cc)

Stale-invalid : (l : Lease) (o : Ownership) → Stale l.generation l.key o → valid o l ≡ false
unfolding valid valid_part Stale
Stale-invalid l o (_, none_at) = elim (Option-cases (part o.parts l.key)) [
  | inl absent ↦ rw absent refl
  | inr (v, there) ↦ elim (Bool-cases (v.generation == l.generation)) [
    | inl alike ↦ absurd (none_at v there (ground (arith, alike)))
    | inr other ↦ rw (there, other) refl
  ]
]

live_valid :
    (l : Lease) (v : Owned) (o : Ownership)
    → Sound o
    → part o.parts l.key ≡ some v
    → l.generation ≡ v.generation
    → valid o l ≡ true
unfolding valid valid_part
live_valid l v o s there e =
    let (_, _, free) = s.live l.key v there in rw (there, e, ==_refl v.generation, free) refl

run-Stale :
    (g : ℕ) (p : Partition) (o : Ownership) (cs : List Change) → Stale g p o → Stale g p (run o cs)
unfolding run
run-Stale g p o [] st = st
run-Stale g p o (c ∷ cs) st = run-Stale g p (change o c) cs (change-Stale g p o c st)

valid-run :
    (l : Lease) (v : Owned) (o : Ownership) (cs : List Change)
    → Sound o
    → part o.parts l.key ≡ some v
    → l.generation ≡ v.generation
    → valid (run o cs) l ≡ not (touched l.key cs)
unfolding run
valid-run l v o [] s there e = live_valid l v o s there e
valid-run l v o (c ∷ cs) s there e = elim (Bool-cases (touches l.key c)) [
  | inl hit ↦ rw hit (
      Stale-invalid l (run (change o c) cs) (
        run-Stale l.generation l.key (change o c) cs (
          subst (λ g. Stale g l.key (change o c)) (sym e) (touched-Stale l.key o v c s there hit))))
  | inr miss ↦
      rw miss (
        valid-run l v (change o c) cs (change-Sound o c s) (untouched-part l.key o v c there miss)
          e)
]

-- A lease is valid exactly as long as no later assignment, revocation or shutdown touches its
-- partition: changes of other partitions never end it, and once ended it never becomes valid
-- again, not even when the same partition is assigned to this process anew.
pub lease_until_touched :
    (o : Ownership) (p : Partition) (l : Lease) (cs : List Change)
    → Sound o
    → lease o p ≡ some l
    → valid (run o cs) l ≡ not (touched p cs)
unfolding lease lease_of
lease_until_touched o p l cs s h = elim (Option-cases (part o.parts p)) [
  | inl absent ↦ absurd (some-none (sym (rw absent at h)))
  | inr (v, there) ↦
      let made = some-eq (rw there at h) in
      let key = ap (λ (x : Lease). x.key) made in
      subst (λ q. valid (run o cs) l ≡ not (touched q cs)) (sym key)
        (valid-run l v o cs s (subst (λ q. part o.parts q ≡ some v) key there)
          (ap (λ (x : Lease). x.generation) (sym made)))
]

pub run-Sound : (o : Ownership) (cs : List Change) → Sound o → Sound (run o cs)
unfolding run
run-Sound o [] s = s
run-Sound o (c ∷ cs) s = run-Sound (change o c) cs (change-Sound o c s)
