-- ===== src/Spool/Eviction.antt =====
-- The eviction loop of `enqueue` (spool.go): it takes out the oldest records that nobody is
-- sending, one by one, until the new record fits.
use go_pulse.Base.{
  ℕ, zero, suc, ◌+◌, ◌-◌, ◌%◌, ◌^◌, ◌≤◌, ◌<◌, ◌≡◌, refl, sym, ap, subst, ◌∙◌, true, false, some,
  List, length, Result, ok, err, ltb, add64, add64-eq-add, add64-lt, u64_mod, arith, ◌⊎◌, inl, inr,
  Bool-cases, Option-cases, Result-cases,
}
use go_pulse.Spool.Store.{
  Error, queue_busy, disk, MetaKey, key_evicted, Meta, meta_put, meta_get, remove, Bolt, Codec,
  entry_size, first_free, Fault,
}
use go_pulse.Spool.Bucket.{
  total, total-remove, drop_free, drop_free-suc, drop_free-none, lookup-first_free, length-remove,
}
use go_pulse.Spool.Queue.{try, increment, used_without, make_room}

-- A write that succeeded, without the wrapping of its failure.
pub try-eq-ok : {A : Type 0} (r : Result Fault A) {a : A} → try r ≡ ok a → r ≡ ok a
try-eq-ok (ok b) h = cc
try-eq-ok (err f) h = absurd (cc)

pub ok-injective : {E A : Type 0} {a b : A} → ◌≡◌ {A = Result E A} (ok a) (ok b) → a ≡ b
ok-injective h = cc

err≢ok : {E A : Type 0} {e : E} {a : A} → ◌≡◌ {A = Result E A} (err e) (ok a) → ⊥
err≢ok h = cc

err-injective : {E A : Type 0} {e f : E} → ◌≡◌ {A = Result E A} (err e) (err f) → e ≡ f
err-injective h = cc

pub ok≢err : {E A : Type 0} {e : E} {a : A} → ◌≡◌ {A = Result E A} (ok a) (err e) → ⊥
ok≢err h = cc

used_without_lem : (used old : ℕ) → 0 < old → old ≤ used → used_without used old + old ≡ used
unfolding used_without
used_without_lem used old p h = ground arith

entry_size_pos : (v : List ℕ) → 0 < entry_size v
unfolding entry_size
entry_size_pos v = omega arith

module _ (bolt : Bolt) (json : Codec) where
  open bolt use {Db, messages, meta, delete as delete_key, put_meta}

  -- What one successful count changes.
  pub increment_lem :
      (d e : Db) (k : MetaKey)
      → increment bolt json d k ≡ ok e
      → (messages e ≡ messages d) × (meta e ≡ meta_put k (add64 (meta_get k (meta d)) 1) (meta d))
  unfolding increment
  increment_lem d e k h =
      let written = try-eq-ok (put_meta d k (add64 (meta_get k (meta d)) 1)) h in
      (bolt.put_meta_keeps_messages d k _ e written, bolt.put_meta_meta d k _ e written)

  -- The database fails somewhere with this fault: a write into a bucket, or a commit.
  pub data Broken (f : Fault) : Type 0 where
    broken_put : (d : Db) (k : ℕ) (v : List ℕ) → bolt.put d k v ≡ err f → Broken f
    broken_delete : (d : Db) (k : ℕ) → delete_key d k ≡ err f → Broken f
    broken_meta : (d : Db) (k : MetaKey) (n : ℕ) → put_meta d k n ≡ err f → Broken f
    broken_commit : (d : Db) → bolt.commit d ≡ some f → Broken f

  -- One round of the loop that evicts: a write fails, or the oldest free record is gone and the
  -- loop goes on.
  evict_step :
      (fuel : ℕ) (in_flight : List ℕ) (capacity size : ℕ) (d : Db) (used k : ℕ) (v : List ℕ)
      → ltb capacity (add64 used size) ≡ true
      → first_free in_flight (messages d) ≡ some (k, v)
      → ((f : Fault) × Broken f
          × (make_room bolt json (suc fuel) in_flight capacity size d used ≡ err (disk f)))
        ⊎ ((e : Db) × (messages e ≡ remove k (messages d))
            × (meta e ≡ meta_put key_evicted (add64 (meta d).evicted 1) (meta d))
            × (make_room bolt json (suc fuel) in_flight capacity size d used
                ≡ make_room bolt json fuel in_flight capacity size e
                    (used_without used (entry_size v))))
  unfolding make_room
  evict_step fuel fl capacity size d used k v full found = elim (Result-cases (delete_key d k)) [
    | inr (f, failed) ↦ inl (f, broken_delete d k failed, rw (full, found, failed, make_room))
    | inl (deleted, gone) ↦
        elim (Result-cases (put_meta deleted key_evicted (add64 (meta deleted).evicted 1))) [
          | inr (f, failed) ↦
              inl (f, broken_meta deleted _ _ failed, rw (full, found, gone, failed, make_room))
          | inl (counted, bumped) ↦
              let same = bolt.put_meta_keeps_messages deleted _ _ counted bumped in
              let kept = bolt.delete_keeps_meta d k deleted gone in
              let count = bolt.put_meta_meta deleted _ _ counted bumped in
              inr (
                counted,
                same ∙ bolt.delete_messages d k deleted gone,
                count ∙ ap (λ (m : Meta). record m { evicted = add64 m.evicted 1 }) kept,
                rw (full, found, gone, bumped, make_room),
              )
        ]
  ]

  shorter_after :
      (in_flight : List ℕ) (d d' : Db) (k : ℕ) (v : List ℕ)
      → first_free in_flight (messages d) ≡ some (k, v)
      → messages d' ≡ remove k (messages d)
      → suc (length (messages d')) ≡ length (messages d)
  shorter_after fl d d' k v found gone =
      rw gone (length-remove k v (messages d) (lookup-first_free fl k v (messages d) found))

  -- An eviction keeps what is counted as used exact.
  after_evict :
      (in_flight : List ℕ) (d d' : Db) (used k : ℕ) (v : List ℕ)
      → used ≡ total (messages d)
      → first_free in_flight (messages d) ≡ some (k, v)
      → messages d' ≡ remove k (messages d)
      → (used_without used (entry_size v) ≡ total (messages d'))
        × (used_without used (entry_size v) ≤ used)
  after_evict fl d d' used k v w found gone =
      let weight = total-remove k v (messages d) (lookup-first_free fl k v (messages d) found) in
      let spent = used_without_lem used (entry_size v) (entry_size_pos v) (omega arith) in
      (omega (arith, ap total gone), omega arith)

  -- What the loop promises when it ends: the first `dropped` free records are gone and no other,
  -- each of them was needed, what is counted as used is what is left, and the new record fits.
  pub record Roomy (in_flight : List ℕ) (capacity size : ℕ) (d e : Db) (used : ℕ) : Type 0 where
    pub dropped : ℕ
    pub oldest : messages e ≡ drop_free in_flight dropped (messages d)
    pub needed :
        (n : ℕ) → n < dropped → capacity < total (drop_free in_flight n (messages d)) + size
    pub accounted : used ≡ total (messages e)
    pub fits : used + size ≤ capacity
    pub counted : (meta e).evicted ≡ ((meta d).evicted + dropped) % u64_mod
    pub others : meta e ≡ record (meta d) { evicted = (meta e).evicted }

  -- Nothing to evict.
  fitting-Roomy :
      (in_flight : List ℕ) (capacity size : ℕ) (d : Db) (used : ℕ)
      → capacity < 2 ^ 63
      → size ≤ capacity
      → used ≤ capacity
      → used ≡ total (messages d)
      → (meta d).evicted < u64_mod
      → ltb capacity (add64 used size) ≡ false
      → Roomy in_flight capacity size d d used
  unfolding drop_free
  fitting-Roomy fl capacity size d used c s u w m fits =
      let exact = add64-eq-add used size (omega arith) in
      record {
        dropped = 0;
        oldest = refl;
        needed = λ n h. elim h [ ];
        accounted = w;
        fits = ground arith;
        counted = omega arith;
        others = refl;
      }

  -- One more eviction in front of those that follow.
  evicted-Roomy :
      (in_flight : List ℕ) (capacity size : ℕ) (d d' e : Db) (used left k : ℕ) (v : List ℕ)
      → capacity < used + size
      → used ≡ total (messages d)
      → first_free in_flight (messages d) ≡ some (k, v)
      → messages d' ≡ remove k (messages d)
      → meta d' ≡ meta_put key_evicted (add64 (meta d).evicted 1) (meta d)
      → Roomy in_flight capacity size d' e left
      → Roomy in_flight capacity size d e left
  unfolding drop_free add64
  evicted-Roomy fl capacity size d d' e used left k v full w found gone bumped r =
      let shifted : (n : ℕ) → drop_free fl (suc n) (messages d) ≡ drop_free fl n (messages d') =
        λ n. drop_free-suc fl n k v (messages d) found ∙ ap (drop_free fl n) (sym gone) in
      record {
        dropped = suc r.dropped;
        oldest = r.oldest ∙ sym (shifted r.dropped);
        needed = elim [
          | zero ↦ λ h. omega arith
          | suc n ↦ λ h. rw (shifted n) (r.needed n (omega arith))
        ];
        accounted = r.accounted;
        fits = r.fits;
        counted = omega (arith, r.counted, ap (λ (x : Meta). x.evicted) bumped);
        others = r.others ∙ ap (λ (x : Meta). record x { evicted = (meta e).evicted }) bumped;
      }

  pub make_room-Roomy :
      (fuel : ℕ) (in_flight : List ℕ) (capacity size : ℕ) (d : Db) (used : ℕ) (e : Db) (left : ℕ)
      → capacity < 2 ^ 63
      → size ≤ capacity
      → used ≤ capacity
      → used ≡ total (messages d)
      → (meta d).evicted < u64_mod
      → make_room bolt json fuel in_flight capacity size d used ≡ ok (e, left)
      → Roomy in_flight capacity size d e left
  unfolding make_room
  make_room-Roomy zero fl capacity size d used e left c s u w m h = absurd (cc)
  make_room-Roomy (suc fuel) fl capacity size d used e left c s u w m h =
      elim (Bool-cases (ltb capacity (add64 used size))) [
        | inr fits ↦
            subst (λ r. Roomy fl capacity size d r.0 r.1) (ok-injective (rw (fits, make_room) at h))
              (fitting-Roomy fl capacity size d used c s u w m fits)
        | inl full ↦ elim (Option-cases (first_free fl (messages d))) [
          | inl nobody ↦ absurd (err≢ok (rw (full, nobody, make_room) at h))
          | inr ((k, v), found) ↦ elim (evict_step fuel fl capacity size d used k v full found) [
            | inl (f, _, fault) ↦ absurd (err≢ok (sym fault ∙ h))
            | inr (d', gone, bumped, goes_on) ↦
                let (weight, smaller) = after_evict fl d d' used k v w found gone in
                let exact = add64-eq-add used size (omega arith) in
                evicted-Roomy fl capacity size d d' e used left k v (ground arith) w found gone
                  bumped
                  (make_room-Roomy fuel fl capacity size d' _ e left c s (omega arith) weight
                    (rw bumped (add64-lt (meta d).evicted 1)) (sym goes_on ∙ h))
          ]
        ]
      ]

  -- The loop fails by a write, or because the records in flight alone leave no room. Its bound is
  -- enough: it never runs past it.
  pub make_room_fails :
      (fuel n : ℕ) (in_flight : List ℕ) (capacity size : ℕ) (d : Db) (used : ℕ) (e : Error)
      → capacity < 2 ^ 63
      → size ≤ capacity
      → used ≤ capacity
      → used ≡ total (messages d)
      → length (messages d) < fuel
      → length (messages d) ≤ n
      → make_room bolt json fuel in_flight capacity size d used ≡ err e
      → ((f : Fault) × Broken f × (e ≡ disk f))
        ⊎ ((e ≡ queue_busy) × (capacity < total (drop_free in_flight n (messages d)) + size))
  unfolding make_room
  make_room_fails zero n fl capacity size d used e c s u w l m h = absurd (omega arith)
  make_room_fails (suc fuel) n fl capacity size d used e c s u w l m h =
      elim (Bool-cases (ltb capacity (add64 used size))) [
        | inr fits ↦ absurd (ok≢err (rw (fits, make_room) at h))
        | inl full ↦ elim (Option-cases (first_free fl (messages d))) [
          | inl nobody ↦
              let exact = add64-eq-add used size (omega arith) in
              inr (
                sym (err-injective (rw (full, nobody, make_room) at h)),
                rw (drop_free-none fl n (messages d) nobody) (ground arith),
              )
          | inr ((k, v), found) ↦ elim (evict_step fuel fl capacity size d used k v full found) [
            | inl (f, broken, fault) ↦ inl (f, broken, err-injective (sym h ∙ fault))
            | inr (d', gone, _, goes_on) ↦
                let (weight, smaller) = after_evict fl d d' used k v w found gone in
                let shorter = shorter_after fl d d' k v found gone in
                let one_less : n ≡ suc (n - 1) = omega arith in
                let same = drop_free-suc fl (n - 1) k v (messages d) found in
                rw (one_less, same, ← gone)
                  (make_room_fails fuel (n - 1) fl capacity size d' _ e c s (omega arith) weight
                    (omega arith) (omega arith) (sym goes_on ∙ h))
          ]
        ]
      ]
