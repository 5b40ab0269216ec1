-- ===== src/Spool/Restart.antt =====
-- What `openQueue` (spool.go) makes of the database that an earlier run left.
use go_pulse.Base.{
  ℕ, suc, ◌+◌, ◌*◌, ◌/◌, ◌≤◌, ◌≡◌, refl, sym, ap, ◌∙◌, some-injective, Bool, true, false, Option,
  none, some, List, [], ◌∷◌, length, ok, ◌==◌, if◌then◌else◌, arith, inl, inr, Bool-cases,
  Option-cases, Result-cases, after_bind,
}
use go_pulse.Spool.Store.{Kind, Entry, key_next_seq, Meta, Messages, Bolt, Codec, entry_size}
use go_pulse.Spool.Bucket.{total, Within}
use go_pulse.Spool.Queue.{Queue, update, sequence_of}
use go_pulse.Spool.Eviction.{try-eq-ok, ok-injective}
use go_pulse.Spool.Sound.{Sound}
use go_pulse.Spool.Open.{
  minimum_database_size, max_size_of, capacity_of, age_all, number, init_tx, open_queue, Aged,
  nothing, kept, rewritten, age_all-Aged,
}

-- Every record decodes to an entry that is not new.
abbrev pub AllOld : Codec → Messages → Type 0
AllOld json [] = Unit {0}
AllOld json ((k, v) ∷ xs) =
    ((e : Entry) × (json.unmarshal v ≡ some e) × (e.new ≡ false)) × AllOld json xs

-- The records that decode to a new entry.
abbrev pub count_new : Option Entry → ℕ
count_new none = 0
count_new (some e) = if e.new then 1 else 0

unfoldable pub new_count : Codec → Messages → ℕ
new_count json [] = 0
new_count json ((k, v) ∷ xs) = count_new (json.unmarshal v) + new_count json xs

-- `"new":false` is written with one byte more than `"new":true`, and all else as before.
abbrev pub Growing : Codec → Type 0
Growing json =
    (e : Entry) (v w : List ℕ)
    → json.marshal e ≡ some v
    → e.new ≡ true
    → json.marshal (record e { new = false }) ≡ some w
    → length w ≡ suc (length v)

-- Every text is one that the encoder made.
abbrev pub AllWritten : Codec → Messages → Type 0
AllWritten json [] = Unit {0}
AllWritten json ((k, v) ∷ xs) = ((e : Entry) × (json.marshal e ≡ some v)) × AllWritten json xs

marshal-unmarshal :
    (json : Codec) (e f : Entry) (v : List ℕ)
    → json.marshal e ≡ some v
    → json.unmarshal v ≡ some f
    → json.marshal f ≡ some v
marshal-unmarshal json e f v made read =
    let same : e ≡ f = some-injective (sym (json.unmarshal-marshal e v made) ∙ read) in
    rw (← same) made

module _ (bolt : Bolt) (json : Codec) where
  open bolt use {Db, messages, meta}

  Aged-old : {xs ys : Messages} → Aged bolt json xs ys → AllOld json ys
  Aged-old nothing = tt
  Aged-old (kept e u old a) = ((e, u, old), Aged-old a)
  Aged-old (rewritten {w = w} e u new m a) =
      ((record e { new = false }, json.unmarshal-marshal _ w m, refl), Aged-old a)

  Aged-total :
      {xs ys : Messages}
      → Growing json
      → Aged bolt json xs ys
      → AllWritten json xs
      → total ys ≡ total xs + new_count json xs
  unfolding total new_count entry_size
  Aged-total g nothing made = omega arith
  Aged-total g (kept e u old a) (_, made) = simp (u, old) (omega (arith, Aged-total g a made))
  Aged-total g (rewritten {v = v} {w = w} e u new m a) ((f, one), made) =
      let longer = g e v w (marshal-unmarshal json f e v one u) new m in
      simp (u, new) (omega (arith, Aged-total g a made))

  number_lem :
      (d e : Db)
      → number bolt json d ≡ ok e
      → (messages e ≡ messages d)
        × (meta e ≡ record (meta d) { next_seq = sequence_of bolt json d })
  unfolding number sequence_of
  number_lem d e h = elim (Bool-cases ((meta d).next_seq == 0)) [
    | inl empty ↦
        let done = try-eq-ok (bolt.put_meta d key_next_seq 1) (rw (empty, number) at h) in
        (
          bolt.put_meta_keeps_messages d key_next_seq 1 e done,
          rw empty (bolt.put_meta_meta d key_next_seq 1 e done),
        )
    | inr known ↦
        let same : d ≡ e = ok-injective (rw (known, number) at h) in
        (rw (← same) refl, rw (← same) (simp known refl))
  ]

  init_tx_lem :
      (d e : Db) (b : Bool)
      → Within 1 (sequence_of bolt json d) (messages d)
      → init_tx bolt json d ≡ ok (e, b)
      → Aged bolt json (messages d) (messages e)
        × (meta e ≡ record (meta d) { next_seq = sequence_of bolt json d })
  unfolding init_tx
  init_tx_lem d e b ordered h = after_bind (number bolt json d) _ h λ numbered was_numbered h1.
      after_bind (age_all bolt json (messages numbered) numbered) _ h1 λ aged was_aged h2.
        let (same, m) = number_lem d numbered was_numbered in
        let (ys, rest, walk, kept_meta) =
          age_all-Aged bolt json 1 (sequence_of bolt json d) [] (messages numbered) numbered aged
            refl (rw same ordered) was_aged in
        let ends : aged ≡ e = ground arith in
        (rw (← ends, rest, ← same) walk, rw (← ends) (kept_meta ∙ m))

  open_queue-eq-ok :
      (kind : Kind) (size : ℕ) (d : Db) (q : Queue Db)
      → open_queue bolt json kind size d ≡ ok q
      → (minimum_database_size ≤ max_size_of size)
        × (q ≡ record {
          kind = kind;
          capacity = capacity_of size;
          db = q.db;
          closed = false;
          blocked = "";
          in_flight = [];
        })
        × ((b : Bool) × (init_tx bolt json d ≡ ok (q.db, b)))
  unfolding open_queue update
  open_queue-eq-ok kind size d q h = elim (Result-cases (init_tx bolt json d)) [
    | inr (x, bad) ↦ absurd (ground arith)
    | inl ((e, b), good) ↦ elim (Option-cases (bolt.commit e)) [
      | inl done ↦ (ground arith, ground arith, (b, ground arith))
      | inr (f, fault) ↦ absurd (ground arith)
    ]
  ]

  -- A successful opening of a database whose sequences ascend below the next one, whatever it counts as
  -- used, keeps every record under its sequence, makes each an old one, and forgets what was in
  -- flight; the counters are as they were, with the first sequence set in a new database. The
  -- capacity is 75 % of a size that is at least 1 MiB.
  pub open_queue_ages :
      (kind : Kind) (size : ℕ) (d : Db) (q : Queue Db)
      → Within 1 (sequence_of bolt json d) (messages d)
      → open_queue bolt json kind size d ≡ ok q
      → Aged bolt json (messages d) (messages q.db)
        × AllOld json (messages q.db)
        × (meta q.db ≡ record (meta d) { next_seq = sequence_of bolt json d })
        × (q.in_flight ≡ [])
        × (q.closed ≡ false)
        × (q.capacity ≡ max_size_of size * 75 / 100)
        × (minimum_database_size ≤ max_size_of size)
  unfolding capacity_of
  open_queue_ages kind size d q ordered h =
      let (large, rest, init) = open_queue-eq-ok kind size d q h in
      let (walk, m) = init_tx_lem d q.db init.0 ordered init.1 in
      (
        walk,
        Aged-old walk,
        m,
        ap (λ (x : Queue Db). x.in_flight) rest,
        ap (λ (x : Queue Db). x.closed) rest,
        ap (λ (x : Queue Db). x.capacity) rest,
        large,
      )

  -- Where the texts stored are the encoder's own, an old entry's text is one byte longer than the same
  -- entry's when new, and what is counted as used was what the records weigh, a successful opening
  -- leaves it less than they weigh, by one byte for each record that was new.
  pub open_queue_understates :
      (kind : Kind) (size : ℕ) (d : Db) (q : Queue Db)
      → Sound bolt json d
      → Growing json
      → AllWritten json (messages d)
      → open_queue bolt json kind size d ≡ ok q
      → total (messages q.db) ≡ (meta q.db).used_bytes + new_count json (messages d)
  open_queue_understates kind size d q s g made h =
      let (walk, _, m, _, _, _, _) = open_queue_ages kind size d q s.ordered h in
      omega (arith, Aged-total g walk made, s.accounted, ap (λ (x : Meta). x.used_bytes) m)
