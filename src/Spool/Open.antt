-- ===== src/Spool/Open.antt =====
-- `openQueue` of spool.go: the limits of a queue, and the records of an earlier run that become old.
use go_pulse.Base.{
  ℕ, suc, ◌*◌, ◌/◌, ◌^◌, ◌≤◌, ◌≡◌, refl, sym, ap, ◌∙◌, Bool, true, false, some, List, [], ◌∷◌, ◌++◌,
  Result, ok, err, ◌>>=◌, ◌==◌, ltb, if◌then◌else◌, arith, inl, inr, Bool-cases, after_bind,
}
use go_pulse.Spool.Store.{
  Kind, Entry, Error, corrupt, encode_failed, size_too_small, key_next_seq, Messages, upsert, Bolt,
  Codec,
}
use go_pulse.Spool.Bucket.{Within}
use go_pulse.Spool.Queue.{Queue, or_error, try, update}
use mathlib.Core.List.{append_assoc}
use go_pulse.Spool.Eviction.{try-eq-ok, ok-injective}
use go_pulse.Spool.Sound.{or_error-eq-ok}

-- `maxSize` is a signed number; 0 stands for any that is not positive.
abbrev pub gib : ℕ
gib = 2 ^ 30

abbrev pub minimum_database_size : ℕ
minimum_database_size = 2 ^ 20

unfoldable pub max_size_of : ℕ → ℕ
max_size_of size = if size == 0 then gib else size

unfoldable pub capacity_of : ℕ → ℕ
capacity_of size = max_size_of size * 75 / 100

above : (lo hi k : ℕ) (v : List ℕ) (xs ys : Messages) → Within lo hi (xs ++ (k, v) ∷ ys) → lo ≤ k
above lo hi k v [] ys h = h.0
above lo hi k v ((j, u) ∷ xs) ys h = omega (arith, above (suc j) hi k v xs ys h.2)

revalue :
    (lo hi k : ℕ) (v w : List ℕ) (xs ys : Messages)
    → Within lo hi (xs ++ (k, v) ∷ ys)
    → Within lo hi (xs ++ (k, w) ∷ ys)
revalue lo hi k v w [] ys h = h
revalue lo hi k v w ((j, u) ∷ xs) ys h = (h.0, h.1, revalue (suc j) hi k v w xs ys h.2)

shift : (k : ℕ) (v : List ℕ) (xs ys : Messages) → (xs ++ (k, v) ∷ []) ++ ys ≡ xs ++ (k, v) ∷ ys
shift k v xs ys = append_assoc xs ((k, v) ∷ []) ys

module _ (bolt : Bolt) (json : Codec) where
  open bolt use {Db, messages, meta, put, put_meta}

  -- The record as it is written back once its entry is old.
  unfoldable pub age : ℕ → Entry → Db → Result Error Db
  age k e d = do
    encoded ← or_error (json.marshal (record e { new = false })) encode_failed
    try (put d k encoded)

  -- The cursor walk of `openQueue`.
  unfoldable pub age_all : Messages → Db → Result Error Db
  unfolding age
  age_all [] d = ok d
  age_all ((k, v) ∷ xs) d = do
    e ← or_error (json.unmarshal v) corrupt
    next ← (if e.new then age k e d else ok d)
    age_all xs next

  unfoldable pub number : Db → Result Error Db
  number d = if (meta d).next_seq == 0 then try (put_meta d key_next_seq 1) else ok d

  unfoldable pub init_tx : Db → Result Error (Db × Bool)
  unfolding age_all number
  init_tx d = do numbered ← number d; aged ← age_all (messages numbered) numbered; ok (aged, true)

  unfoldable pub opened : Kind → ℕ → Result Error (Db × Bool) → Result Error (Queue Db)
  opened kind size (err e) = err e
  opened kind size (ok (d, _)) = ok (record {
    kind = kind;
    capacity = capacity_of size;
    db = d;
    closed = false;
    blocked = "";
    in_flight = [];
  })

  -- Open the database found as `d`.
  unfoldable pub open_queue : Kind → ℕ → Db → Result Error (Queue Db)
  unfolding opened
  open_queue kind size d =
      if ltb (max_size_of size) minimum_database_size
      then err size_too_small
      else opened kind size (update bolt json d (init_tx d))

  -- What the walk makes of the records: those that are not new stay, the new ones are written back
  -- as old ones under the same sequence.
  pub data Aged : Messages → Messages → Type 0 where
    nothing : Aged [] []
    kept :
        {k : ℕ} {v : List ℕ} {xs ys : Messages} (e : Entry)
        → json.unmarshal v ≡ some e
        → e.new ≡ false
        → Aged xs ys
        → Aged ((k, v) ∷ xs) ((k, v) ∷ ys)
    rewritten :
        {k : ℕ} {v w : List ℕ} {xs ys : Messages} (e : Entry)
        → json.unmarshal v ≡ some e
        → e.new ≡ true
        → json.marshal (record e { new = false }) ≡ some w
        → Aged xs ys
        → Aged ((k, v) ∷ xs) ((k, w) ∷ ys)

  upsert_at :
      (lo hi k : ℕ) (v w : List ℕ) (xs ys : Messages)
      → Within lo hi (xs ++ (k, v) ∷ ys)
      → upsert k w (xs ++ (k, v) ∷ ys) ≡ xs ++ (k, w) ∷ ys
  unfolding upsert
  upsert_at lo hi k v w [] ys h = ground arith
  upsert_at lo hi k v w ((j, u) ∷ xs) ys h =
      ground (arith, upsert_at (suc j) hi k v w xs ys h.2, above (suc j) hi k v xs ys h.2)

  pub age_all-Aged :
      (lo hi : ℕ) (passed xs : Messages) (d e : Db)
      → messages d ≡ passed ++ xs
      → Within lo hi (passed ++ xs)
      → age_all xs d ≡ ok e
      → (ys : Messages) × (messages e ≡ passed ++ ys) × Aged xs ys × (meta e ≡ meta d)
  unfolding age_all
  age_all-Aged lo hi passed [] d e m w h =
      let same : d ≡ e = ok-injective h in ([], rw (← same) m, nothing, rw (← same) refl)
  age_all-Aged lo hi passed ((k, v) ∷ xs) d e m w h =
      after_bind (or_error (json.unmarshal v) corrupt) _ h λ entry dec h1.
        after_bind (if entry.new then age k entry d else ok d) _ h1 λ next done h2.
          elim (Bool-cases entry.new) [
            | inr old ↦
                let same : d ≡ next = ok-injective (rw old at done) in
                let (ys, rest, aged, meta_same) =
                  age_all-Aged lo hi (passed ++ (k, v) ∷ []) xs next e
                    (rw (← same) (m ∙ sym (shift k v passed xs))) (rw (shift k v passed xs) w) h2 in
                (
                  (k, v) ∷ ys,
                  rest ∙ shift k v passed ys,
                  kept entry (or_error-eq-ok _ _ dec) old aged,
                  meta_same ∙ ap meta (sym same),
                )
            | inl new ↦
                after_bind (or_error (json.marshal (record entry { new = false })) encode_failed) _
                  (rw new at done)
                  λ encoded enc put_done.
                    let stored = try-eq-ok _ put_done in
                    let placed =
                      bolt.put_messages d k encoded next stored
                      ∙ ap (upsert k encoded) m
                      ∙ upsert_at lo hi k v encoded passed xs w in
                    let (ys, rest, aged, meta_same) =
                      age_all-Aged lo hi (passed ++ (k, encoded) ∷ []) xs next e
                        (placed ∙ sym (shift k encoded passed xs))
                        (rw (shift k encoded passed xs) (revalue lo hi k v encoded passed xs w))
                        h2 in
                    (
                      (k, encoded) ∷ ys,
                      rest ∙ shift k encoded passed ys,
                      rewritten entry (or_error-eq-ok _ _ dec) new (or_error-eq-ok _ _ enc) aged,
                      meta_same ∙ bolt.put_keeps_meta d k encoded next stored,
                    )
          ]
