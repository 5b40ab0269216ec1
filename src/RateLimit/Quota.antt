-- ===== src/RateLimit/Quota.antt =====
-- Leases never exceed the quota (ratelimit/lease.go, ratelimit/limiter.go).
use go_pulse.Base.{
  ℕ, zero, suc, ◌+◌, ◌-◌, ◌%◌, ◌≤◌, ◌≡◌, refl, sym, ap, subst, ◌&&◌, ◌||◌, Option, none, some, List,
  [], ◌∷◌, ◌==◌, ltb, leb, if◌then◌else◌, bytes_eq, length, All, arith, some-injective, Bool-cases,
  inl, inr,
}
use go_pulse.RateLimit.Lease.{
  Policy, LeaseEntry, LeaseCache, new_lease_cache, lease_key, find_entry, put_entry, delete_entry,
  drop_entry, leases_none, take_found, take_lease_token, make_place, add_found, add_granted, grants,
  limited, key_limited, decide_shared,
}
use go_pulse.RateLimit.Account.{
  held, Half, takes, answers, Account, half, halves, Granting, find_entry-key,
}
use go_pulse.RateLimit.Room.{Fits, halves-Fits}

held-put_entry :
    (x e : LeaseEntry) (es : List LeaseEntry)
    → find_entry x.key es ≡ some e
    → held (put_entry x es) + e.tokens ≡ held es + x.tokens
unfolding held put_entry find_entry
held-put_entry x e [] h = absurd (cc)
held-put_entry x e (y ∷ es) h = elim (Bool-cases (bytes_eq y.key x.key)) [
  | inl here ↦
      rw here (let same = ap (λ z. z.tokens) (some-injective (rw here at h)) in omega (arith, same))
  | inr there ↦ rw there (let ih = held-put_entry x e es (rw there at h) in omega (arith, ih))
]

held-put_most : (x : LeaseEntry) (es : List LeaseEntry) → held (put_entry x es) ≤ held es + x.tokens
unfolding held put_entry
held-put_most x [] = omega arith
held-put_most x (y ∷ es) = elim (Bool-cases (bytes_eq y.key x.key)) [
  | inl here ↦ rw here (omega arith)
  | inr there ↦ rw there (omega (arith, held-put_most x es))
]

held-delete_entry : (k : List ℕ) (es : List LeaseEntry) → held (delete_entry k es) ≤ held es
unfolding held delete_entry
held-delete_entry k [] = omega arith
held-delete_entry k (e ∷ es) = elim (Bool-cases (bytes_eq e.key k)) [
  | inl here ↦ rw here (omega arith)
  | inr there ↦ rw there (omega (arith, held-delete_entry k es))
]

held-drop_entry : (n : ℕ) (es : List LeaseEntry) → held (drop_entry n es) ≤ held es
unfolding held drop_entry
held-drop_entry zero [] = omega arith
held-drop_entry (suc n) [] = omega arith
held-drop_entry zero (e ∷ es) = omega arith
held-drop_entry (suc n) (e ∷ es) = omega (arith, held-drop_entry n es)

held-make_place : (c : LeaseCache) (victim : ℕ) → held (make_place c victim) ≤ held c.entries
unfolding make_place
held-make_place c victim = elim (Bool-cases (leb c.most (length c.entries))) [
  | inl full ↦ rw full (held-drop_entry (victim % length c.entries) c.entries)
  | inr room ↦ rw room (omega arith)
]

-- A token that is taken was held.
take_held :
    (c : LeaseCache) (p : Policy) (identity : List ℕ) (now : ℕ)
    → let taken = take_lease_token c p identity now in
      held taken.1.entries + (if taken.0 then p.cost else 0) ≤ held c.entries
unfolding take_lease_token
take_held c p identity now = elim (Bool-cases (leases_none p)) [
  | inl never ↦ rw never (omega arith)
  | inr leased ↦ rw leased (found (find_entry (lease_key p identity) c.entries) refl)
]
  where
    k : List ℕ
    k = lease_key p identity

    found :
        (o : Option LeaseEntry)
        → find_entry k c.entries ≡ o
        → held (take_found c p k now o).1.entries
            + (if (take_found c p k now o).0 then p.cost else 0)
          ≤ held c.entries
    found none h = omega arith
    found (some e) h = elim (Bool-cases (ltb 0 e.ttl && leb (e.seen + e.ttl) now)) [
      | inl old ↦ rw old (omega (arith, held-delete_entry k c.entries))
      | inr live ↦ elim (Bool-cases (ltb e.tokens p.cost)) [
        | inl poor ↦ rw (live, poor) (omega arith)
        | inr rich ↦
            let enough : p.cost ≤ e.tokens = ground (arith, rich) in
            let x : LeaseEntry = record e { tokens = e.tokens - p.cost; seen = now } in
            let stored = held-put_entry x e c.entries (
              subst (λ y. find_entry y c.entries ≡ some e) (sym (find_entry-key k c.entries e h))
                h) in
            rw (live, rich) (omega (arith, enough, stored))
      ]
    ]

-- What is added to the leases is what the script granted beyond the request.
add_held :
    (c : LeaseCache) (p : Policy) (identity : List ℕ) (now granted victim : ℕ)
    → p.cost ≤ granted
    → held (add_granted c p identity now granted victim).entries + p.cost ≤ held c.entries + granted
unfolding add_granted
add_held c p identity now granted victim fair =
    elim (Bool-cases (leases_none p || leb granted p.cost)) [
      | inl nothing ↦ rw nothing (omega (arith, fair))
      | inr more ↦ rw more (found (find_entry (lease_key p identity) c.entries) refl)
    ]
  where
    k : List ℕ
    k = lease_key p identity

    found :
        (o : Option LeaseEntry)
        → find_entry k c.entries ≡ o
        → held (add_found c p k now granted victim o) + p.cost ≤ held c.entries + granted
    found none h = omega (
      arith,
      fair,
      held-make_place c victim,
      held-put_most (record { key = k; tokens = granted - p.cost; seen = now; ttl = p.idle_ttl })
          (make_place c victim),
    )
    found (some e) h = omega (
      arith,
      fair,
      held-put_entry
          (record e {
            key = k;
            tokens = e.tokens + (granted - p.cost);
            seen = now;
            ttl = if e.ttl == 0 then p.idle_ttl else e.ttl;
          })
          e c.entries h,
    )

-- What was spent and what is held was granted.
abbrev Covered : Account → Type 0
Covered a = a.spent + held a.cache.entries ≤ a.granted

half-Covered : (a : Account) (h : Half) → Granting h → Covered a → Covered (half a h)
unfolding half decide_shared
half-Covered a (takes p identity now) fair c = omega (arith, c, take_held a.cache p identity now)
half-Covered a (answers p identity now victim none) fair c = omega (arith, c)
half-Covered a (answers p identity now victim (some (grants g))) fair c =
    omega (arith, c, add_held a.cache p identity now g victim fair)
half-Covered a (answers p identity now victim (some (limited retry))) fair c = omega (arith, c)
half-Covered a (answers p identity now victim (some (key_limited retry))) fair c = omega (arith, c)

halves-Covered :
    (a : Account) (hs : List Half) → All Granting hs → Covered a → Covered (halves a hs)
unfolding halves
halves-Covered a [] fair c = c
halves-Covered a (h ∷ hs) fair c = halves-Covered (half a h) hs fair.1 (half-Covered a h fair.0 c)

-- Whatever requests a process serves, under whatever policies, clocks and losses, and however their halves
-- interleave: if the script grants at least the cost of a request when it grants, the cost of all requests that
-- were allowed, with the tokens that are left in the leases, is at most what the script granted; and there
-- are never more leases than the table may have.
pub spent_within_grants :
    (most : ℕ) (hs : List Half)
    → 1 ≤ most
    → All Granting hs
    → let a = halves (record { cache = new_lease_cache most; spent = 0; granted = 0 }) hs in
      (a.spent + held a.cache.entries ≤ a.granted) × (length a.cache.entries ≤ most)
unfolding new_lease_cache held
spent_within_grants most hs lo fair =
    let start : Account = record { cache = new_lease_cache most; spent = 0; granted = 0 } in
    let empty : Fits most start.cache = record {
      room = lo;
      fits = omega arith;
      same = ground (arith, lo);
    } in
    (halves-Covered start hs fair (omega arith), (halves-Fits most start hs empty).fits)
