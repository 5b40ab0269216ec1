-- ===== src/Spool/Failures.antt =====
-- Why the transaction of `Queue.enqueue` of spool.go fails.
use go_pulse.Base.{
  ℕ, ◌+◌, ◌^◌, ◌≤◌, ◌<◌, ◌≡◌, refl, sym, subst, Bool, true, false, not, Option, none, some, List,
  length, Result, ok, err, ltb, add64, add64-eq-add, arith, ◌⊎◌, inl, inr, after_err,
}
use go_pulse.Spool.Store.{
  Entry, Error, MetaKey, queue_busy, encode_failed, too_large, disk, key_next_seq, key_used_bytes,
  key_enqueued, Bolt, Codec, entry_size, Fault,
}
use go_pulse.Spool.Bucket.{total, drop_free}
use go_pulse.Spool.Queue.{
  guard, or_error, try, make_room, room_fuel, named, store_entry, increment, enqueue_tx,
}
use go_pulse.Spool.Eviction.{
  make_room_fails, make_room-Roomy, ok≢err, Broken, broken_put, broken_meta,
}
use go_pulse.Spool.Sound.{Sound, or_error-eq-ok, guard-eq-ok, not_ltb→le}

try-eq-err :
    {A : Type 0} (r : Result Fault A) {e : Error}
    → try r ≡ err e
    → (f : Fault) × (r ≡ err f) × (e ≡ disk f)
try-eq-err (ok a) h = absurd (cc)
try-eq-err (err f) h = (f, refl, cc)

or_error-eq-err :
    {A : Type 0} (o : Option A) (e : Error) {x : Error}
    → or_error o e ≡ err x
    → (o ≡ none) × (x ≡ e)
or_error-eq-err none e h = (refl, cc)
or_error-eq-err (some b) e h = absurd (cc)

guard-eq-err : (b : Bool) (e : Error) {x : Error} → guard b e ≡ err x → (b ≡ false) × (x ≡ e)
guard-eq-err true e h = absurd (cc)
guard-eq-err false e h = (refl, cc)

not_ltb→lt : (a b : ℕ) → not (ltb a b) ≡ false → a < b
not_ltb→lt a b h = ground arith

module _ (bolt : Bolt) (json : Codec) where
  open bolt use {Db, messages, meta, commit}

  -- A write that failed, as the transaction reports it.
  abbrev pub Faulted : Error → Type 0
  Faulted e = (f : Fault) × Broken bolt json f × (e ≡ disk f)

  put_failed : (d : Db) (k : ℕ) (v : List ℕ) {e : Error} → try (bolt.put d k v) ≡ err e → Faulted e
  put_failed d k v h = let (f, failed, same) = try-eq-err _ h in (f, broken_put d k v failed, same)

  put_meta_failed :
      (d : Db) (k : MetaKey) (n : ℕ) {e : Error} → try (bolt.put_meta d k n) ≡ err e → Faulted e
  put_meta_failed d k n h =
      let (f, failed, same) = try-eq-err _ h in (f, broken_meta d k n failed, same)

  -- Where the entry fits into the room that was made, the transaction only fails by a write.
  store_entry_fails :
      (capacity : ℕ) (entry : Entry) (encoded : List ℕ) (made : Db × ℕ) (e : Error)
      → add64 made.1 (entry_size encoded) ≤ capacity
      → store_entry bolt json capacity entry encoded made ≡ err e
      → Faulted e
  unfolding store_entry increment
  store_entry_fails capacity entry encoded (roomy, used) e fits h =
      after_err (guard (not (ltb capacity (add64 used (entry_size encoded)))) too_large) _ h
        (λ x.
          let less = not_ltb→lt _ _ (guard-eq-err _ _ x).0 in absurd (omega (arith, less, fits)))
        λ _ _ h1.
          after_err (try (bolt.put roomy entry.sequence encoded)) _ h1 (λ x. put_failed _ _ _ x)
            λ stored _ h2.
              after_err (try (bolt.put_meta stored key_next_seq (add64 entry.sequence 1))) _ h2
                (λ x. put_meta_failed _ _ _ x)
                λ numbered _ h3.
                  after_err
                    (try (bolt.put_meta numbered key_used_bytes (add64 used (entry_size encoded))))
                    _ h3 (λ x. put_meta_failed _ _ _ x)
                    λ weighed _ h4.
                      after_err (increment bolt json weighed key_enqueued) _ h4
                        (λ x. put_meta_failed _ _ _ x) λ counted _ h5. absurd (ok≢err h5)

  -- Why a transaction of `enqueue` fails: the entry does not encode, it is too large by itself, the
  -- database fails, or the records in flight alone leave it no room.
  pub data Refusal (in_flight : List ℕ) (capacity : ℕ) (draft : Entry) (d : Db)
      : Error → Type 0 where
    unencoded :
        json.marshal (named bolt json draft d) ≡ none
        → Refusal in_flight capacity draft d encode_failed
    oversized :
        (encoded : List ℕ)
        → json.marshal (named bolt json draft d) ≡ some encoded
        → capacity < entry_size encoded
        → Refusal in_flight capacity draft d too_large
    faulty :
        (encoded : List ℕ) (f : Fault)
        → json.marshal (named bolt json draft d) ≡ some encoded
        → entry_size encoded ≤ capacity
        → Broken bolt json f
        → Refusal in_flight capacity draft d (disk f)
    crowded :
        (encoded : List ℕ)
        → json.marshal (named bolt json draft d) ≡ some encoded
        → entry_size encoded ≤ capacity
        → capacity
          < total (drop_free in_flight (length (messages d)) (messages d)) + entry_size encoded
        → Refusal in_flight capacity draft d queue_busy

  pub faulted-Refusal :
      (in_flight : List ℕ) (capacity : ℕ) (draft : Entry) (d : Db) (e : Error) (encoded : List ℕ)
      → json.marshal (named bolt json draft d) ≡ some encoded
      → entry_size encoded ≤ capacity
      → Faulted e
      → Refusal in_flight capacity draft d e
  faulted-Refusal fl capacity draft d e encoded enc fits (f, broken, fault) =
      subst (Refusal fl capacity draft d) (sym fault) (faulty encoded f enc fits broken)

  room_refused :
      (in_flight : List ℕ) (capacity : ℕ) (draft : Entry) (d : Db) (e : Error) (encoded : List ℕ)
      → json.marshal (named bolt json draft d) ≡ some encoded
      → entry_size encoded ≤ capacity
      → Faulted e
        ⊎ ((e ≡ queue_busy)
            × (capacity
                < total (drop_free in_flight (length (messages d)) (messages d))
                  + entry_size encoded))
      → Refusal in_flight capacity draft d e
  room_refused fl capacity draft d e encoded enc fits (inl faulted) =
      faulted-Refusal fl capacity draft d e encoded enc fits faulted
  room_refused fl capacity draft d e encoded enc fits (inr (busy, full)) =
      subst (Refusal fl capacity draft d) (sym busy) (crowded encoded enc fits full)

  -- The entry fits into the room that was made for it.
  made_room_fits :
      (in_flight : List ℕ) (capacity : ℕ) (d : Db) (encoded : List ℕ) (made : Db × ℕ)
      → capacity < 2 ^ 63
      → Sound bolt json d
      → (meta d).used_bytes ≤ capacity
      → entry_size encoded ≤ capacity
      → make_room bolt json
          (room_fuel bolt json d)
          in_flight
          capacity
          (entry_size encoded)
          d
          (meta d).used_bytes
        ≡ ok made
      → add64 made.1 (entry_size encoded) ≤ capacity
  made_room_fits fl capacity d encoded made c s b fits h =
      let roomy =
        make_room-Roomy bolt json _ fl capacity (entry_size encoded) d (meta d).used_bytes made.0
          made.1 c fits b s.accounted s.counters h in
      let exact = add64-eq-add made.1 (entry_size encoded) (omega (arith, roomy.fits)) in
      omega (arith, exact, roomy.fits)

  pub enqueue_tx-Refusal :
      (in_flight : List ℕ) (capacity : ℕ) (draft : Entry) (d : Db) (e : Error)
      → capacity < 2 ^ 63
      → Sound bolt json d
      → (meta d).used_bytes ≤ capacity
      → enqueue_tx bolt json in_flight capacity draft d ≡ err e
      → Refusal in_flight capacity draft d e
  unfolding enqueue_tx
  enqueue_tx-Refusal fl capacity draft d e c s b h =
      after_err (or_error (json.marshal (named bolt json draft d)) encode_failed) _ h
        (λ x.
          let (nothing, same) = or_error-eq-err _ _ x in
          subst (Refusal fl capacity draft d) (sym same) (unencoded nothing))
        λ encoded made_text h1.
          let enc = or_error-eq-ok _ _ made_text in
          after_err (guard (not (ltb capacity (entry_size encoded))) too_large) _ h1
            (λ x.
              let (large, same) = guard-eq-err _ _ x in
              subst (Refusal fl capacity draft d) (sym same)
                (oversized encoded enc (not_ltb→lt _ _ large)))
            λ _ small h2.
              let fits = not_ltb→le _ _ (guard-eq-ok _ _ small) in
              after_err
                (make_room bolt json (room_fuel bolt json d) fl capacity (entry_size encoded) d
                  (meta d).used_bytes)
                _ h2
                (λ x. room_refused fl capacity draft d e encoded enc fits (
                  make_room_fails bolt json _ _ fl capacity (entry_size encoded) d
                    (meta d).used_bytes e c fits b s.accounted (omega arith) (omega arith) x))
                λ made room h3. faulted-Refusal fl capacity draft d e encoded enc fits (
                  store_entry_fails capacity (named bolt json draft d) encoded made e
                    (made_room_fits fl capacity d encoded made c s b fits room) h3)
