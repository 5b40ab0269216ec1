-- ===== src/RateLimit/Room.antt =====
-- The table of leases stays within its size (ratelimit/lease.go).
use go_pulse.Base.{
  ℕ, zero, suc, ◌+◌, ◌-◌, ◌%◌, ◌≤◌, ◌<◌, ◌≡◌, refl, sym, ap, subst, ◌&&◌, ◌||◌, Option, none, some,
  List, [], ◌∷◌, ◌==◌, ltb, leb, if◌then◌else◌, bytes_eq, length, arith, Bool-cases, inl, inr,
}
use native.Mathlib.Nat.{mod-lt}
use go_pulse.RateLimit.Lease.{
  Policy, LeaseEntry, LeaseCache, lease_key, find_entry, put_entry, delete_entry, drop_entry,
  leases_none, take_found, take_lease_token, make_place, add_found, add_granted, grants, limited,
  key_limited, decide_shared,
}
use go_pulse.RateLimit.Account.{Half, takes, answers, Account, half, halves, find_entry-key}

length-put_found :
    (x e : LeaseEntry) (es : List LeaseEntry)
    → find_entry x.key es ≡ some e
    → length (put_entry x es) ≡ length es
unfolding put_entry find_entry
length-put_found x e [] h = absurd (cc)
length-put_found x e (y ∷ es) h = elim (Bool-cases (bytes_eq y.key x.key)) [
  | inl here ↦ rw here refl
  | inr there ↦ rw there (ap suc (length-put_found x e es (rw there at h)))
]

length-put_entry :
    (x : LeaseEntry) (es : List LeaseEntry) → length (put_entry x es) ≤ suc (length es)
unfolding put_entry
length-put_entry x [] = omega arith
length-put_entry x (y ∷ es) = elim (Bool-cases (bytes_eq y.key x.key)) [
  | inl here ↦ rw here (omega arith)
  | inr there ↦ rw there (omega (arith, length-put_entry x es))
]

length-delete_entry : (k : List ℕ) (es : List LeaseEntry) → length (delete_entry k es) ≤ length es
unfolding delete_entry
length-delete_entry k [] = omega arith
length-delete_entry k (e ∷ es) = elim (Bool-cases (bytes_eq e.key k)) [
  | inl here ↦ rw here (omega arith)
  | inr there ↦ rw there (omega (arith, length-delete_entry k es))
]

length-drop_entry :
    (n : ℕ) (es : List LeaseEntry) → n < length es → suc (length (drop_entry n es)) ≡ length es
unfolding drop_entry
length-drop_entry n [] h = absurd (omega arith)
length-drop_entry zero (e ∷ es) h = refl
length-drop_entry (suc n) (e ∷ es) h = ap suc (length-drop_entry n es (omega arith))

-- The table has room for one entry at least, and no more entries than it may have.
pub record Fits (n : ℕ) (c : LeaseCache) : Type 0 where
  pub room : 1 ≤ n
  pub fits : length c.entries ≤ n
  pub same : c.most ≡ n

length-make_place :
    (n : ℕ) (c : LeaseCache) (victim : ℕ) → Fits n c → length (make_place c victim) < n
unfolding make_place
length-make_place n c victim f =
    let room = f.room in
    let fits = f.fits in
    let same = f.same in
    elim (Bool-cases (leb c.most (length c.entries))) [
      | inl full ↦
          let some_entries : 1 ≤ length c.entries = ground (arith, full, room, same) in
          let within : victim % length c.entries < length c.entries = mod-lt victim some_entries in
          rw full
            (omega (arith, fits, length-drop_entry (victim % length c.entries) c.entries within))
      | inr free ↦ rw free (ground (arith, free, same))
    ]

take-Fits :
    (n : ℕ) (c : LeaseCache) (p : Policy) (identity : List ℕ) (now : ℕ)
    → Fits n c
    → Fits n (take_lease_token c p identity now).1
unfolding take_lease_token
take-Fits n c p identity now fits = elim (Bool-cases (leases_none p)) [
  | inl never ↦ rw never fits
  | inr leased ↦ rw leased (found (find_entry (lease_key p identity) c.entries) refl)
]
  where
    k : List ℕ
    k = lease_key p identity

    found : (o : Option LeaseEntry) → find_entry k c.entries ≡ o → Fits n (take_found c p k now o).1
    found none h = fits
    found (some e) h = elim (Bool-cases (ltb 0 e.ttl && leb (e.seen + e.ttl) now)) [
      | inl old ↦ rw old (record {
        room = fits.room;
        fits = let m = fits.fits in omega (arith, m, length-delete_entry k c.entries);
        same = fits.same;
      })
      | inr live ↦ elim (Bool-cases (ltb e.tokens p.cost)) [
        | inl poor ↦ rw (live, poor) fits
        | inr rich ↦
            let x : LeaseEntry = record e { tokens = e.tokens - p.cost; seen = now } in
            let same = length-put_found x e c.entries (
              subst (λ y. find_entry y c.entries ≡ some e) (sym (find_entry-key k c.entries e h))
                h) in
            rw (live, rich)
              (record {
                room = fits.room;
                fits = let m = fits.fits in omega (arith, m, same);
                same = fits.same;
              })
      ]
    ]

add-Fits :
    (n : ℕ) (c : LeaseCache) (p : Policy) (identity : List ℕ) (now granted victim : ℕ)
    → Fits n c
    → Fits n (add_granted c p identity now granted victim)
unfolding add_granted
add-Fits n c p identity now granted victim fits =
    elim (Bool-cases (leases_none p || leb granted p.cost)) [
      | inl nothing ↦ rw nothing fits
      | inr more ↦ rw more (record {
        room = fits.room;
        fits = found (find_entry (lease_key p identity) c.entries) refl;
        same = fits.same;
      })
    ]
  where
    k : List ℕ
    k = lease_key p identity

    found :
        (o : Option LeaseEntry)
        → find_entry k c.entries ≡ o
        → length (add_found c p k now granted victim o) ≤ n
    found none h = omega (
      arith,
      length-make_place n c victim fits,
      length-put_entry (record { key = k; tokens = granted - p.cost; seen = now; ttl = p.idle_ttl })
          (make_place c victim),
    )
    found (some e) h =
        let most = fits.fits in
        omega (
          arith,
          most,
          length-put_found
              (record e {
                key = k;
                tokens = e.tokens + (granted - p.cost);
                seen = now;
                ttl = if e.ttl == 0 then p.idle_ttl else e.ttl;
              })
              e c.entries h,
        )

half-Fits : (n : ℕ) (a : Account) (h : Half) → Fits n a.cache → Fits n (half a h).cache
unfolding half decide_shared
half-Fits n a (takes p identity now) f = take-Fits n a.cache p identity now f
half-Fits n a (answers p identity now victim none) f = f
half-Fits n a (answers p identity now victim (some (grants g))) f =
    add-Fits n a.cache p identity now g victim f
half-Fits n a (answers p identity now victim (some (limited retry))) f = f
half-Fits n a (answers p identity now victim (some (key_limited retry))) f = f

pub halves-Fits :
    (n : ℕ) (a : Account) (hs : List Half) → Fits n a.cache → Fits n (halves a hs).cache
unfolding halves
halves-Fits n a [] f = f
halves-Fits n a (h ∷ hs) f = halves-Fits n (half a h) hs (half-Fits n a h f)
