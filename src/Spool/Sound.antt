-- ===== src/Spool/Sound.antt =====
-- What holds of a spool database between two operations (spool.go), and that `enqueue`'s
-- transaction keeps it.
use go_pulse.Base.{
  ℕ, ◌+◌, ◌%◌, ◌^◌, ◌≤◌, ◌<◌, ◌≡◌, refl, sym, ap, subst, ◌∙◌, Bool, true, false, not, Option, none,
  some, List, [], ◌∷◌, ◌++◌, ok, ltb, add64, add64-eq-add, u64_mod, arith, after_bind,
}
use go_pulse.Spool.Store.{
  Entry, Error, encode_failed, too_large, key_next_seq, key_used_bytes, key_enqueued, Meta,
  Messages, Bolt, Codec, entry_size,
}
use go_pulse.Spool.Bucket.{
  Within, Decodes, total, total-append, drop_free, drop_free-Within, upsert-append,
}
use go_pulse.Spool.Queue.{
  guard, or_error, try, increment, make_room, room_fuel, sequence_of, named, enqueue_tx,
}
use go_pulse.Spool.Eviction.{try-eq-ok, increment_lem, Roomy, make_room-Roomy, ok-injective}

pub or_error-eq-ok :
    {A : Type 0} (o : Option A) (e : Error) {a : A} → or_error o e ≡ ok a → o ≡ some a
or_error-eq-ok none e h = absurd (cc)
or_error-eq-ok (some b) e h = cc

pub guard-eq-ok : (b : Bool) (e : Error) {c : Bool} → guard b e ≡ ok c → b ≡ true
guard-eq-ok true e h = refl
guard-eq-ok false e h = absurd (cc)

pub not_ltb→le : (a b : ℕ) → not (ltb a b) ≡ true → b ≤ a
not_ltb→le a b h = ground arith

module _ (bolt : Bolt) (json : Codec) where
  open bolt use {Db, messages, meta, put, put_meta}

  -- The records ascend below the next sequence and decode to their own entries; what is counted
  -- as used is what they weigh; the counters are `uint64`.
  pub record Sound (d : Db) : Type 0 where
    pub ordered : Within 1 (sequence_of bolt json d) (messages d)
    pub decodes : Decodes json (messages d)
    pub accounted : (meta d).used_bytes ≡ total (messages d)
    pub counters : (meta d).evicted < u64_mod

  -- The outcome of an accepted `enqueue`: the new entry stands last, under the next sequence; the
  -- first `dropped` free records made room for it, all of them needed; the rest is as before.
  pub record Enqueued (in_flight : List ℕ) (capacity : ℕ) (draft : Entry) (d e : Db) (entry : Entry)
      : Type 0 where
    pub encoded : List ℕ
    pub dropped : ℕ
    pub numbered : entry ≡ record draft { sequence = sequence_of bolt json d }
    pub marshalled : json.marshal entry ≡ some encoded
    pub stored :
        messages e
        ≡ drop_free in_flight dropped (messages d) ++ (sequence_of bolt json d, encoded) ∷ []
    pub needed :
        (n : ℕ)
        → n < dropped
        → capacity < total (drop_free in_flight n (messages d)) + entry_size encoded
    pub next : (meta e).next_seq ≡ add64 (sequence_of bolt json d) 1
    pub accounted : (meta e).used_bytes ≡ total (messages e)
    pub bounded : (meta e).used_bytes ≤ capacity
    pub evicted : (meta e).evicted ≡ ((meta d).evicted + dropped) % u64_mod
    pub enqueued : (meta e).enqueued ≡ add64 (meta d).enqueued 1

  -- The writes that follow the eviction.
  store_lem :
      (in_flight : List ℕ) (capacity : ℕ) (draft entry : Entry)
      (d roomy stored numbered weighed e : Db) (used : ℕ) (encoded : List ℕ)
      → capacity < 2 ^ 63
      → Within 1 (sequence_of bolt json d) (messages d)
      → entry ≡ record draft { sequence = sequence_of bolt json d }
      → json.marshal entry ≡ some encoded
      → Roomy bolt json in_flight capacity (entry_size encoded) d roomy used
      → put roomy (sequence_of bolt json d) encoded ≡ ok stored
      → put_meta stored key_next_seq (add64 (sequence_of bolt json d) 1) ≡ ok numbered
      → put_meta numbered key_used_bytes (add64 used (entry_size encoded)) ≡ ok weighed
      → increment bolt json weighed key_enqueued ≡ ok e
      → Enqueued in_flight capacity draft d e entry
  store_lem fl capacity draft entry d roomy stored numbered weighed e used encoded c w n m r p q u
        i =
      let fresh = sequence_of bolt json d in
      let (same3, count) = increment_lem bolt json weighed e key_enqueued i in
      let same2 = bolt.put_meta_keeps_messages numbered _ _ weighed u in
      let same1 = bolt.put_meta_keeps_messages stored _ _ numbered q in
      let added = bolt.put_messages roomy _ _ stored p in
      let within =
        subst (Within 1 fresh) (sym r.oldest) (drop_free-Within fl r.dropped 1 fresh _ w) in
      let appended = upsert-append 1 fresh encoded (messages roomy) within in
      let content = same3 ∙ same2 ∙ same1 ∙ added ∙ appended in
      let m1 = bolt.put_keeps_meta roomy _ _ stored p in
      let m2 = bolt.put_meta_meta stored _ _ numbered q in
      let m3 = bolt.put_meta_meta numbered _ _ weighed u in
      let exact = add64-eq-add used (entry_size encoded) (omega (arith, r.fits)) in
      let weight = ap total content ∙ total-append fresh encoded (messages roomy) in
      record {
        encoded = encoded;
        dropped = r.dropped;
        numbered = n;
        marshalled = m;
        stored = content ∙ ap (λ (xs : Messages). xs ++ (fresh, encoded) ∷ []) r.oldest;
        needed = r.needed;
        next = rw (count, m3, m2) refl;
        accounted = rw (count, m3) (exact ∙ omega (arith, weight, r.accounted));
        bounded = rw (count, m3) (omega (arith, exact, r.fits));
        evicted = rw (count, m3, m2, m1) r.counted;
        enqueued = rw (count, m3, m2, m1) (ap (λ (x : Meta). add64 x.enqueued 1) r.others);
      }

  -- A successful transaction of `enqueue`, taken apart.
  pub enqueue_tx-Enqueued :
      (in_flight : List ℕ) (capacity : ℕ) (draft : Entry) (d e : Db) (entry : Entry)
      → capacity < 2 ^ 63
      → Sound d
      → (meta d).used_bytes ≤ capacity
      → enqueue_tx bolt json in_flight capacity draft d ≡ ok (e, entry)
      → Enqueued in_flight capacity draft d e entry
  unfolding enqueue_tx
  enqueue_tx-Enqueued fl capacity draft d e entry c s b h =
      after_bind (or_error (json.marshal (named bolt json draft d)) encode_failed) _ h
        λ encoded enc h1.
          after_bind (guard (not (ltb capacity (entry_size encoded))) too_large) _ h1 λ _ small h2.
            after_bind
              (make_room bolt json (room_fuel bolt json d) fl capacity (entry_size encoded) d
                (meta d).used_bytes)
              _ h2
              λ made room h3.
                after_bind
                  (guard (not (ltb capacity (add64 made.1 (entry_size encoded)))) too_large) _ h3
                  λ _ _ h4.
                    after_bind (try (put made.0 (sequence_of bolt json d) encoded)) _ h4
                      λ stored was_stored h5.
                        after_bind
                          (try (put_meta stored key_next_seq (add64 (sequence_of bolt json d) 1))) _
                          h5
                          λ numbered was_numbered h6.
                            after_bind
                              (try (
                                put_meta numbered key_used_bytes
                                  (add64 made.1 (entry_size encoded))))
                              _ h6
                              λ weighed was_weighed h7.
                                after_bind (increment bolt json weighed key_enqueued) _ h7
                                  λ counted was_counted h8.
                                    let fits : entry_size encoded ≤ capacity =
                                      not_ltb→le _ _ (guard-eq-ok _ _ small) in
                                    let roomy =
                                      make_room-Roomy bolt json _ fl capacity (entry_size encoded) d
                                        (meta d).used_bytes made.0 made.1 c fits b s.accounted
                                        s.counters room in
                                    let ends : (counted, named bolt json draft d) ≡ (e, entry) =
                                      ok-injective h8 in
                                    subst (λ (r : Db × Entry). Enqueued fl capacity draft d r.0 r.1)
                                      ends
                                      (store_lem fl capacity draft (named bolt json draft d) d
                                        made.0 stored numbered weighed counted made.1 encoded c
                                        s.ordered refl (or_error-eq-ok _ _ enc) roomy
                                        (try-eq-ok _ was_stored) (try-eq-ok _ was_numbered)
                                        (try-eq-ok _ was_weighed) was_counted)
