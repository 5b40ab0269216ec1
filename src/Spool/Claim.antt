-- ===== src/Spool/Claim.antt =====
-- `Queue.find`, `next` and `claim` of spool.go: which record is handed to the sender.
use go_pulse.Base.{
  ℕ, suc, ◌≤◌, ◌≡◌, refl, sym, Bool, true, false, Option, none, some, List, [], ◌∷◌, ok, ◌==◌, has,
  arith, ◌⊎◌, inl, inr, Bool-cases, Result-cases,
}
use go_pulse.Spool.Store.{Entry, Messages, lookup, Bolt, Codec, first_free}
use go_pulse.Spool.Bucket.{Within, Decodes, lookup_below}
use go_pulse.Spool.Queue.{Queue, first_new, decode_first, find, claim}
use go_pulse.Spool.Sound.{Sound}

-- Which records a claim may take: any, or only those enqueued since the spool was opened.
abbrev pub Eligible : Bool → Entry → Type 0
Eligible true e = e.new ≡ true
Eligible false e = Unit {0}

-- No record may be claimed that stands before `k`.
abbrev pub Oldest : Codec → List ℕ → Bool → Messages → ℕ → Type 0
Oldest json in_flight prefer_new xs k =
    (j : ℕ) (u : List ℕ) (e : Entry)
    → lookup j xs ≡ some u
    → json.unmarshal u ≡ some e
    → has in_flight j ≡ false
    → Eligible prefer_new e
    → k ≤ j

-- The entry is stored, nobody is sending it, it may be claimed, and it is the oldest such.
pub record Claimable (json : Codec) (in_flight : List ℕ) (prefer_new : Bool) (xs : Messages)
    (e : Entry) : Type 0 where
  pub value : List ℕ
  pub stored : lookup e.sequence xs ≡ some value
  pub decoded : json.unmarshal value ≡ some e
  pub free : has in_flight e.sequence ≡ false
  pub eligible : Eligible prefer_new e
  pub oldest : Oldest json in_flight prefer_new xs e.sequence

some≢none : {A : Type 0} {a : A} → some a ≡ none → ⊥
some≢none h = cc

decoded_at :
    (json : Codec) (k : ℕ) (v : List ℕ) (xs : Messages)
    → Decodes json xs
    → lookup k xs ≡ some v
    → (e : Entry) × (json.unmarshal v ≡ some e) × (e.sequence ≡ k)
unfolding lookup
decoded_at json k v [] d l = absurd (cc)
decoded_at json k v ((j, x) ∷ xs) d l = elim (Bool-cases (j == k)) [
  | inl same ↦
      let (e, u, n) = d.0 in let value : x ≡ v = ground arith in (e, rw (← value) u, ground arith)
  | inr other ↦ decoded_at json k v xs d.1 (ground arith)
]

-- A lookup at the head or in the rest.
lookup-cons :
    (k j : ℕ) (v u : List ℕ) (xs : Messages)
    → lookup j ((k, v) ∷ xs) ≡ some u
    → ((j ≡ k) × (u ≡ v)) ⊎ (lookup j xs ≡ some u)
unfolding lookup
lookup-cons k j v u xs h = elim (Bool-cases (k == j)) [
  | inl same ↦ inl (ground arith, ground arith)
  | inr other ↦ inr (ground arith)
]

lookup-cons_later :
    (k j hi : ℕ) (v u : List ℕ) (xs : Messages)
    → Within (suc k) hi xs
    → lookup j xs ≡ some u
    → (lookup j ((k, v) ∷ xs) ≡ some u) × (suc k ≤ j)
unfolding lookup
lookup-cons_later k j hi v u xs w h =
    (ground (arith, lookup_below j (suc k) hi xs w), ground (arith, lookup_below j (suc k) hi xs w))

-- A record that may not be claimed can be passed over.
Claimable-skip :
    (json : Codec) (in_flight : List ℕ) (prefer_new : Bool) (lo hi k : ℕ) (v : List ℕ)
    (xs : Messages) (e : Entry)
    → Within lo hi ((k, v) ∷ xs)
    → ((c : Entry)
        → json.unmarshal v ≡ some c
        → has in_flight k ≡ false
        → Eligible prefer_new c
        → ⊥)
    → Claimable json in_flight prefer_new xs e
    → Claimable json in_flight prefer_new ((k, v) ∷ xs) e
Claimable-skip json fl p lo hi k v xs e w skip c = record {
  value = c.value;
  stored = (lookup-cons_later k e.sequence hi v c.value xs w.2 c.stored).0;
  decoded = c.decoded;
  free = c.free;
  eligible = c.eligible;
  oldest = λ j u x l d f y. elim (lookup-cons k j v u xs l) [
    | inl (here, value) ↦ absurd (skip x (rw (← value) d) (rw (← here) f) y)
    | inr later ↦ c.oldest j u x later d f y
  ];
}

-- The first record, where it may be claimed.
Claimable-head :
    (json : Codec) (in_flight : List ℕ) (prefer_new : Bool) (lo hi k : ℕ) (v : List ℕ)
    (xs : Messages) (e : Entry)
    → Within lo hi ((k, v) ∷ xs)
    → e.sequence ≡ k
    → json.unmarshal v ≡ some e
    → has in_flight k ≡ false
    → Eligible prefer_new e
    → Claimable json in_flight prefer_new ((k, v) ∷ xs) e
unfolding lookup
Claimable-head json fl p lo hi k v xs e w n d f y = record {
  value = v;
  stored = ground arith;
  decoded = d;
  free = rw n f;
  eligible = y;
  oldest = λ j u x l d' f' y'. elim (lookup-cons k j v u xs l) [
    | inl (here, _) ↦ omega arith
    | inr later ↦ omega (arith, (lookup-cons_later k j hi v u xs w.2 later).1)
  ];
}

true≢false : (b : Bool) → b ≡ true → b ≡ false → ⊥
true≢false b h k = cc

some-injective : {A : Type 0} {o : Option A} {a b : A} → o ≡ some a → o ≡ some b → a ≡ b
some-injective h k = cc

-- No record may be claimed.
abbrev pub Nobody : Codec → List ℕ → Bool → Messages → Type 0
Nobody json in_flight prefer_new xs =
    (j : ℕ) (u : List ℕ) (e : Entry)
    → lookup j xs ≡ some u
    → json.unmarshal u ≡ some e
    → has in_flight j ≡ false
    → Eligible prefer_new e
    → ⊥

Nobody-cons :
    (json : Codec) (in_flight : List ℕ) (prefer_new : Bool) (k : ℕ) (v : List ℕ) (xs : Messages)
    → ((c : Entry)
        → json.unmarshal v ≡ some c
        → has in_flight k ≡ false
        → Eligible prefer_new c
        → ⊥)
    → Nobody json in_flight prefer_new xs
    → Nobody json in_flight prefer_new ((k, v) ∷ xs)
Nobody-cons json fl p k v xs skip n j u x l d f y = elim (lookup-cons k j v u xs l) [
  | inl (here, value) ↦ skip x (rw (← value) d) (rw (← here) f) y
  | inr later ↦ n j u x later d f y
]

module _ (bolt : Bolt) (json : Codec) where
  open bolt use {Db, messages}

  first_new-Claimable :
      (in_flight : List ℕ) (lo hi : ℕ) (e : Entry) (xs : Messages)
      → Within lo hi xs
      → Decodes json xs
      → first_new bolt json in_flight xs ≡ ok (some e)
      → Claimable json in_flight true xs e
  unfolding first_new
  first_new-Claimable fl lo hi e [] w d h = absurd (cc)
  first_new-Claimable fl lo hi e ((k, v) ∷ xs) w ((c, u, n), d) h = elim (Bool-cases (has fl k)) [
    | inl held ↦
        Claimable-skip json fl true lo hi k v xs e w (λ _ _ f _. true≢false _ held f)
          (first_new-Claimable fl (suc k) hi e xs w.2 d (ground arith))
    | inr free ↦ elim (Bool-cases c.new) [
      | inl new ↦
          let same : c ≡ e = ground arith in
          Claimable-head json fl true lo hi k v xs e w (rw (← same) n) (rw (← same) u) free
            (rw (← same) new)
      | inr old ↦
          Claimable-skip json fl true lo hi k v xs e w
            (λ x d' _ y. true≢false _ y (rw (some-injective d' u) old))
            (first_new-Claimable fl (suc k) hi e xs w.2 d (ground arith))
    ]
  ]

  decode_first-Claimable :
      (in_flight : List ℕ) (lo hi : ℕ) (e : Entry) (xs : Messages)
      → Within lo hi xs
      → Decodes json xs
      → decode_first bolt json (first_free in_flight xs) ≡ ok (some e)
      → Claimable json in_flight false xs e
  unfolding decode_first first_free
  decode_first-Claimable fl lo hi e [] w d h = absurd (cc)
  decode_first-Claimable fl lo hi e ((k, v) ∷ xs) w ((c, u, n), d) h =
      elim (Bool-cases (has fl k)) [
        | inl held ↦
            Claimable-skip json fl false lo hi k v xs e w (λ _ _ f _. true≢false _ held f)
              (decode_first-Claimable fl (suc k) hi e xs w.2 d (ground arith))
        | inr free ↦
            let same : c ≡ e = ground arith in
            Claimable-head json fl false lo hi k v xs e w (rw (← same) n) (rw (← same) u) free tt
      ]

  pub find-Claimable :
      (q : Queue Db) (prefer_new : Bool) (e : Entry)
      → Sound bolt json q.db
      → find bolt json q prefer_new ≡ ok (some e)
      → Claimable json q.in_flight prefer_new (messages q.db) e
  unfolding find
  find-Claimable q true e s h =
      first_new-Claimable q.in_flight 1 _ e (messages q.db) s.ordered s.decodes h
  find-Claimable q false e s h =
      decode_first-Claimable q.in_flight 1 _ e (messages q.db) s.ordered s.decodes h

  -- On a sound database a claim hands out the oldest record that may be claimed, which nobody is
  -- sending; from then on it counts as being sent, and nothing else changes.
  pub claim_oldest :
      (q q' : Queue Db) (prefer_new : Bool) (e : Entry)
      → Sound bolt json q.db
      → claim bolt json q prefer_new ≡ (q', ok (some e))
      → Claimable json q.in_flight prefer_new (messages q.db) e
        × (q' ≡ record q { in_flight = e.sequence ∷ q.in_flight })
  unfolding claim
  claim_oldest q q' p e s h = elim (Result-cases (find bolt json q p)) [
    | inr (x, bad) ↦ absurd (ground arith)
    | inl (none, nobody) ↦ absurd (ground arith)
    | inl (some c, found) ↦
        let same : c ≡ e = ground arith in
        (find-Claimable q p e s (rw (← same) found), ground arith)
  ]

  first_new_total :
      (in_flight : List ℕ) (xs : Messages)
      → Decodes json xs
      → ((e : Entry) × (first_new bolt json in_flight xs ≡ ok (some e)))
        ⊎ ((first_new bolt json in_flight xs ≡ ok none) × Nobody json in_flight true xs)
  unfolding first_new lookup
  first_new_total fl [] d = inr (refl, λ _ _ _ l _ _ _. some≢none (sym l))
  first_new_total fl ((k, v) ∷ xs) ((c, u, n), d) = elim (Bool-cases (has fl k)) [
    | inl held ↦ elim (first_new_total fl xs d) [
      | inl (e, found) ↦ inl (e, ground arith)
      | inr (nobody, none_left) ↦
          inr (
            ground arith,
            Nobody-cons json fl true k v xs (λ _ _ f _. true≢false _ held f) none_left,
          )
    ]
    | inr free ↦ elim (Bool-cases c.new) [
      | inl new ↦ inl (c, ground arith)
      | inr old ↦ elim (first_new_total fl xs d) [
        | inl (e, found) ↦ inl (e, ground arith)
        | inr (nobody, none_left) ↦ inr (
          ground arith,
          Nobody-cons json fl true k v xs
              (λ x d' _ y. true≢false _ y (rw (some-injective d' u) old)) none_left,
        )
      ]
    ]
  ]

  decode_first_total :
      (in_flight : List ℕ) (xs : Messages)
      → Decodes json xs
      → ((e : Entry) × (decode_first bolt json (first_free in_flight xs) ≡ ok (some e)))
        ⊎ ((decode_first bolt json (first_free in_flight xs) ≡ ok none)
            × Nobody json in_flight false xs)
  unfolding decode_first first_free lookup
  decode_first_total fl [] d = inr (refl, λ _ _ _ l _ _ _. some≢none (sym l))
  decode_first_total fl ((k, v) ∷ xs) ((c, u, n), d) = elim (Bool-cases (has fl k)) [
    | inl held ↦ elim (decode_first_total fl xs d) [
      | inl (e, found) ↦ inl (e, ground arith)
      | inr (nobody, none_left) ↦ inr (
        ground arith,
        Nobody-cons json fl false k v xs (λ _ _ f _. true≢false _ held f) none_left,
      )
    ]
    | inr free ↦ inl (c, ground arith)
  ]

  find_total :
      (q : Queue Db) (prefer_new : Bool)
      → Sound bolt json q.db
      → ((e : Entry) × (find bolt json q prefer_new ≡ ok (some e)))
        ⊎ ((find bolt json q prefer_new ≡ ok none)
            × Nobody json q.in_flight prefer_new (messages q.db))
  unfolding find
  find_total q true s = first_new_total q.in_flight (messages q.db) s.decodes
  find_total q false s = decode_first_total q.in_flight (messages q.db) s.decodes

  -- On a sound database of an open queue a claim never fails, and it comes back with nothing only
  -- when no record may be claimed; the queue is then as it was.
  pub claim_total :
      (q : Queue Db) (prefer_new : Bool)
      → Sound bolt json q.db
      → q.closed ≡ false
      → ((e : Entry) × ((claim bolt json q prefer_new).1 ≡ ok (some e)))
        ⊎ ((claim bolt json q prefer_new ≡ (q, ok none))
            × Nobody json q.in_flight prefer_new (messages q.db))
  unfolding claim
  claim_total q p s live = elim (find_total q p s) [
    | inl (e, found) ↦ inl (e, ground arith)
    | inr (nobody, none_left) ↦ inr (ground arith, none_left)
  ]
