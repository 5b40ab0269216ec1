-- ===== src/Outbox/Cleaned.antt =====
-- A cycle of the clean-up ends, and which rows are then gone (outbox/repository.go, outbox/dispatcher.go).
use go_pulse.Base.{
  take-all, All-map, ℕ, zero, suc, ◌+◌, ◌≤◌, ◌<◌, ◌≡◌, refl, sym, ap, subst, ◌∙◌, Bool, true, false,
  not, ◌&&◌, ◌||◌, List, [], ◌∷◌, ◌==◌, ltb, leb, has, keep, take, length, length-take, All, ok,
  arith, Bool-cases, inl, inr,
}
use go_pulse.Outbox.Row.{Row}
use go_pulse.Outbox.Repository.{ids}
use go_pulse.Outbox.Table.{Keyed}
use go_pulse.Outbox.Cleanup.{
  maximum_cleanup_batch, published_before, Cleaner, past, by_publication, due_past, candidates,
  final_row, at_start, at_row, next_cleaner, CleanupRound, protected, doomed, delete_rows,
  cleanup_published, finished, cleanup_once,
}
use go_pulse.Outbox.Published.{
  Ascending, DistinctIds, by_publication-Ascending, keep-Ascending, keep-DistinctIds, take-past,
  All-final_row, All-take, length-keep-by_publication, has-keep-by_publication, has-keep-All,
}

keep-keep :
    (p q : Row → Bool) (rows : List Row) → keep p (keep q rows) ≡ keep (λ r. q r && p r) rows
keep-keep p q [] = refl
keep-keep p q (r ∷ rows) = elim (Bool-cases (q r)) [
  | inl hit ↦ rw (hit, keep-keep p q rows) refl
  | inr miss ↦ rw (miss, keep-keep p q rows) refl
]

keep-All :
    (p q : Row → Bool) (rows : List Row) → All (λ r. p r ≡ q r) rows → keep p rows ≡ keep q rows
keep-All p q [] a = refl
keep-All p q (r ∷ rows) a = rw (a.0, keep-All p q rows a.1) refl

all_rows : (P : Row → Type 0) (rows : List Row) → ((r : Row) → P r) → All P rows
all_rows P [] f = tt
all_rows P (r ∷ rows) f = (f r, all_rows P rows f)

keep-holds : (p : Row → Bool) (rows : List Row) → All (λ r. p r ≡ true) (keep p rows)
keep-holds p [] = tt
keep-holds p (r ∷ rows) = elim (Bool-cases (p r)) [
  | inl hit ↦ rw hit (hit, keep-holds p rows)
  | inr miss ↦ rw miss (keep-holds p rows)
]

length-keep :
    (p : Row → Bool) (rows : List Row)
    → length (keep p rows) + length (keep (λ r. not (p r)) rows) ≡ length rows
length-keep p [] = omega arith
length-keep p (r ∷ rows) = elim (Bool-cases (p r)) [
  | inl hit ↦ rw hit (omega (arith, length-keep p rows))
  | inr miss ↦ rw miss (omega (arith, length-keep p rows))
]

length-keep-keep :
    (p q : Row → Bool) (rows : List Row) → length (keep p (keep q rows)) ≤ length (keep p rows)
length-keep-keep p q [] = omega arith
length-keep-keep p q (r ∷ rows) = elim (Bool-cases (q r)) [
  | inl hit ↦ elim (Bool-cases (p r)) [
    | inl both ↦ rw (hit, both) (omega (arith, length-keep-keep p q rows))
    | inr one ↦ rw (hit, one) (length-keep-keep p q rows)
  ]
  | inr miss ↦ elim (Bool-cases (p r)) [
    | inl other ↦ rw (miss, other) (omega (arith, length-keep-keep p q rows))
    | inr neither ↦ rw (miss, neither) (length-keep-keep p q rows)
  ]
]

module _ (cutoff : ℕ) (shield : Row → Bool) where
  -- What is to be deleted from a position on.
  abbrev removes : Cleaner → Row → Bool
  removes c r = due_past c cutoff r && not (shield r)

  abbrev left : Cleaner → List Row → List Row
  left c = keep (λ r. not (removes c r))

  -- Deleting what passes a test that only due rows pass leaves the others.
  delete_rows-keep :
      (q : Row → Bool) (rows : List Row)
      → DistinctIds rows
      → ((r : Row) → q r ≡ true → published_before cutoff r ≡ true)
      → delete_rows (ids (keep q (by_publication rows))) cutoff rows ≡ keep (λ r. not (q r)) rows
  unfolding delete_rows
  delete_rows-keep q rows d due = keep-All _ _ rows (
      All-map (λ r. has (ids (keep q rows)) r.id ≡ q r) _ rows
        (λ r same.
          ap (λ x. not (x && published_before cutoff r))
            (has-keep-by_publication q rows r.id ∙ same)
          ∙ only (q r) (published_before cutoff r) (due r))
        (has-keep-All q rows d))
    where
      only : (x y : Bool) → (x ≡ true → y ≡ true) → not (x && y) ≡ not x
      only true y h = rw (h refl) refl
      only false y h = refl

  past_on :
      (c : Cleaner) (last r : Row)
      → past c last ≡ true
      → past (at_row last) r ≡ true
      → past c r ≡ true
  unfolding past
  past_on c last r h k = ground arith

  due_past-past : (c : Cleaner) (r : Row) → due_past c cutoff r ≡ true → past c r ≡ true
  unfolding due_past
  due_past-past c r h = ground (arith, h)

  due_past-published :
      (c : Cleaner) (r : Row) → due_past c cutoff r ≡ true → published_before cutoff r ≡ true
  unfolding due_past
  due_past-published c r h = ground (arith, h)

  -- Within the rows from a position on, those up to a later position are taken first.
  split_rows :
      (c : Cleaner) (last r : Row)
      → past c last ≡ true
      → (not ((due_past c cutoff r && not (past (at_row last) r)) && not (shield r))
          && not (removes (at_row last) r))
        ≡ not (removes c r)
  unfolding due_past
  split_rows c last r h =
      cases (past (at_row last) r) (past c r) (published_before cutoff r) (shield r)
        (past_on c last r h)
    where
      cases :
          (after now due held : Bool)
          → (after ≡ true → now ≡ true)
          → (not (((due && now) && not after) && not held) && not ((due && after) && not held))
            ≡ not ((due && now) && not held)
      cases true true due held f = ground arith
      cases true false due held f = absurd (differ (f refl))
        where
          differ : false ≡ true → ⊥
          differ k = cc
      cases false now due held f = ground arith

  later_due :
      (c : Cleaner) (last r : Row)
      → past c last ≡ true
      → due_past (at_row last) cutoff r ≡ (due_past c cutoff r && past (at_row last) r)
  unfolding due_past
  later_due c last r h =
      cases (past (at_row last) r) (past c r) (published_before cutoff r) (past_on c last r h)
    where
      cases :
          (after now due : Bool)
          → (after ≡ true → now ≡ true)
          → (due && after) ≡ ((due && now) && after)
      cases true true due f = ground arith
      cases true false due f = absurd (differ (f refl))
        where
          differ : false ≡ true → ⊥
          differ k = cc
      cases false now due f = ground arith

  -- A batch that is full, with the position after it.
  record Batch (c : Cleaner) (batch : ℕ) (rows : List Row) : Type 0 where
    first : Row
    more : List Row
    found : candidates c cutoff batch rows ≡ first ∷ more
    whole : length (first ∷ more) ≡ batch
    before : past c (final_row first more) ≡ true
    up_to :
        keep
          (λ s. not (past (at_row (final_row first more)) s))
          (keep (due_past c cutoff) (by_publication rows))
        ≡ first ∷ more

  full-Batch :
      (c : Cleaner) (batch : ℕ) (rows : List Row)
      → 1 ≤ batch
      → DistinctIds rows
      → batch ≤ length (keep (due_past c cutoff) (by_publication rows))
      → Batch c batch rows
  unfolding candidates
  full-Batch c zero rows lo d h = absurd (omega arith)
  full-Batch c (suc n) rows lo d h =
      go (keep (due_past c cutoff) (by_publication rows)) refl
        (keep-Ascending (due_past c cutoff) (by_publication rows) (by_publication-Ascending rows d))
    where
      Due : Row → Type 0
      Due t = due_past c cutoff t ≡ true

      go :
          (due : List Row)
          → keep (due_past c cutoff) (by_publication rows) ≡ due
          → Ascending (keep (due_past c cutoff) (by_publication rows))
          → Batch c (suc n) rows
      go [] e a = absurd (omega (arith, h, ap length e))
      go (r ∷ due) e a =
          let (f, more, taken, same) =
            take-past n r due (subst Ascending e a) (omega (arith, h, ap length e)) in
          record {
            first = f;
            more = more;
            found = ap (take (suc n)) e ∙ taken;
            whole = omega (arith, ap length taken, length-take (suc n) (r ∷ due), h, ap length e);
            before = due_past-past c (final_row f more) (
                All-final_row Due f more (
                  subst (All Due) taken (
                    All-take Due (suc n) (r ∷ due)
                      (subst (All Due) e (keep-holds (due_past c cutoff) (by_publication rows))))));
            up_to = ap (keep (λ s. not (past (at_row (final_row f more)) s))) e ∙ same;
          }

  -- The round answers, the other tables keep the rows that they keep throughout, little is expired, and the wait
  -- is not interrupted.
  pub record Quiet (batch : ℕ) (e : CleanupRound) : Type 0 where
    pub answers : e.answers ≡ true
    pub same : (r : Row) → protected e r ≡ shield r
    pub count : ℕ
    pub expired : e.expired ≡ ok count
    pub few : count < batch
    pub waits : e.waits ≡ true

  doomed_rows :
      (batch : ℕ) (e : CleanupRound) (rows : List Row)
      → Quiet batch e
      → doomed e rows ≡ keep (λ r. not (shield r)) rows
  unfolding doomed
  doomed_rows batch e rows quiet =
      keep-All _ _ rows
        (all_rows (λ r. not (protected e r) ≡ not (shield r)) rows (λ r. ap not (quiet.same r)))

  -- The table after a full batch: what is to be deleted from then on is what was to be deleted before.
  after_full :
      (c : Cleaner) (batch : ℕ) (e : CleanupRound) (rows : List Row) (b : Batch c batch rows)
      → Quiet batch e
      → DistinctIds rows
      → let rows' = delete_rows (ids (doomed e (b.first ∷ b.more))) cutoff rows in
        let c' = at_row (final_row b.first b.more) in
        (left c' rows' ≡ left c rows)
        × DistinctIds rows'
        × (length (keep (due_past c' cutoff) rows') < length (keep (due_past c cutoff) rows))
  after_full c batch e rows b quiet d =
      let last = final_row b.first b.more in
      let q : Row → Bool =
        λ r. (due_past c cutoff r && not (past (at_row last) r)) && not (shield r) in
      let np : Row → Bool = λ r. not (past (at_row last) r) in
      let ns : Row → Bool = λ r. not (shield r) in
      let due : Row → Bool = due_past c cutoff in
      let sorted = by_publication rows in
      let gone : doomed e (b.first ∷ b.more) ≡ keep q sorted =
        doomed_rows batch e (b.first ∷ b.more) quiet
        ∙ (ap (keep ns) (sym b.up_to ∙ keep-keep np due sorted)
            ∙ keep-keep ns (λ r. due r && np r) sorted) in
      let kept : delete_rows (ids (doomed e (b.first ∷ b.more))) cutoff rows
          ≡ keep (λ r. not (q r)) rows =
        ap (λ x. delete_rows (ids x) cutoff rows) gone
        ∙ delete_rows-keep q rows d
            (λ r h. due_past-published c r (first_of (due r) (np r) (ns r) h)) in
      let later : Row → Bool = λ r. due r && past (at_row last) r in
      let fewer = length-keep-keep (due_past (at_row last) cutoff) (λ r. not (q r)) rows in
      let same = ap length (
        keep-All (due_past (at_row last) cutoff) later rows (
          all_rows (λ r. due_past (at_row last) cutoff r ≡ later r) rows
            (λ r. later_due c last r b.before))) in
      let counted =
        ap length (keep-keep (past (at_row last)) due sorted)
        ∙ length-keep-by_publication later rows in
      (
        ap (left (at_row last)) kept
            ∙ (keep-keep (λ r. not (removes (at_row last) r)) (λ r. not (q r)) rows
                ∙ keep-All _ _ rows (
                    all_rows (λ r. (not (q r) && not (removes (at_row last) r)) ≡ not (removes c r))
                      rows (λ r. split_rows c last r b.before))),
        subst DistinctIds (sym kept) (keep-DistinctIds (λ r. not (q r)) rows d),
        omega (
          arith,
          ap (λ x. length (keep (due_past (at_row last) cutoff) x)) kept,
          fewer,
          same,
          counted,
          length-keep (past (at_row last)) (keep due sorted),
          ap length b.up_to,
          length-keep-by_publication due rows,
        ),
      )
    where
      first_of : (x y z : Bool) → ((x && y) && z) ≡ true → x ≡ true
      first_of x y z h = ground (arith, h)

  published-eq :
      (c : Cleaner) (batch : ℕ) (e : CleanupRound) (rows found : List Row)
      → 1 ≤ cutoff
      → 1 ≤ batch
      → batch ≤ maximum_cleanup_batch
      → Quiet batch e
      → candidates c cutoff batch rows ≡ found
      → cleanup_published c rows e cutoff batch ≡ (
        (next_cleaner batch found, delete_rows (ids (doomed e found)) cutoff rows),
        ok (length (doomed e found)),
      )
  unfolding cleanup_published
  published-eq c batch e rows found t lo hi quiet h =
      let good : (cutoff == 0 || (ltb batch 1 || ltb maximum_cleanup_batch batch)) ≡ false =
        ground arith in
      rw (good, quiet.answers, h) refl

  after_short :
      (c : Cleaner) (batch : ℕ) (e : CleanupRound) (rows : List Row)
      → Quiet batch e
      → DistinctIds rows
      → length (keep (due_past c cutoff) (by_publication rows)) < batch
      → let found = keep (due_past c cutoff) (by_publication rows) in
        (candidates c cutoff batch rows ≡ found)
        × (next_cleaner batch found ≡ at_start)
        × (delete_rows (ids (doomed e found)) cutoff rows ≡ left c rows)
  unfolding candidates next_cleaner
  after_short c batch e rows quiet d h =
      let ns : Row → Bool = λ r. not (shield r) in
      let due : Row → Bool = due_past c cutoff in
      let found = keep due (by_publication rows) in
      (
        take-all batch found (omega (arith, h)),
        back found h,
        ap (λ x. delete_rows (ids x) cutoff rows)
              (doomed_rows batch e found quiet ∙ keep-keep ns due (by_publication rows))
            ∙ delete_rows-keep (λ r. due r && ns r) rows d
                (λ r k. due_past-published c r (first_of (due r) (ns r) k)),
      )
    where
      first_of : (x y : Bool) → (x && y) ≡ true → x ≡ true
      first_of x y k = ground (arith, k)

      back : (found : List Row) → length found < batch → next_cleaner batch found ≡ at_start
      back [] k = refl
      back (r ∷ found) k =
          let partial : (length (r ∷ found) == batch) ≡ false = ground (arith, k) in rw partial refl

  cleanup_runs :
      (batch : ℕ) (c : Cleaner) (rows : List Row) (rounds : List CleanupRound)
      → 1 ≤ cutoff
      → 1 ≤ batch
      → batch ≤ maximum_cleanup_batch
      → DistinctIds rows
      → All (Quiet batch) rounds
      → length (keep (due_past c cutoff) rows) < length rounds
      → cleanup_once cutoff batch c rows rounds ≡ (finished, at_start, left c rows)
  unfolding cleanup_once next_cleaner
  cleanup_runs batch c rows [] t lo hi d quiet enough = absurd (omega arith)
  cleanup_runs batch c rows (e ∷ rounds) t lo hi d quiet enough =
      let q = quiet.0 in
      let few : leb batch q.count ≡ false = let k = q.few in ground arith in
      elim (Bool-cases (ltb (length (keep (due_past c cutoff) (by_publication rows))) batch)) [
        | inl short ↦
            let (found, back, kept) = after_short c batch e rows q d (ground (arith, short)) in
            rw
              (
                cleanup_once,
                published-eq c batch e rows _ t lo hi q found,
                back,
                kept,
                q.expired,
                few,
              )
              refl
        | inr long ↦
            let b = full-Batch c batch rows lo d (ground (arith, long)) in
            let (same, distinct, fewer) = after_full c batch e rows b q d in
            let rest =
              cleanup_runs batch (at_row (final_row b.first b.more))
                (delete_rows (ids (doomed e (b.first ∷ b.more))) cutoff rows) rounds t lo hi
                distinct quiet.1 (omega (arith, fewer, enough)) in
            let on : next_cleaner batch (b.first ∷ b.more) ≡ at_row (final_row b.first b.more) =
              let w : (length (b.first ∷ b.more) == batch) ≡ true = ground (arith, b.whole) in
              rw w refl in
            rw
              (
                cleanup_once,
                published-eq c batch e rows _ t lo hi q b.found,
                on,
                q.expired,
                q.waits,
                rest,
                same,
              )
              refl
      ]

  Keyed-DistinctIds :
      (lo hi : ℕ) (rows : List Row)
      → Keyed lo hi rows
      → DistinctIds rows × All (λ r. lo ≤ r.id) rows
  Keyed-DistinctIds lo hi [] k = (tt, tt)
  Keyed-DistinctIds lo hi (r ∷ rows) k =
      let (d, above) = Keyed-DistinctIds (suc r.id) hi rows k.2 in
      let least = k.0 in
      (
        (
          All-map (λ s. suc r.id ≤ s.id) (λ s. (r.id == s.id) ≡ false) rows (λ s h. ground arith)
              above,
          d,
        ),
        (k.0, All-map (λ s. suc r.id ≤ s.id) (λ s. lo ≤ s.id) rows (λ s h. omega arith) above),
      )

  from_start :
      (r : Row)
      → 1 ≤ r.id
      → not (removes at_start r) ≡ not (published_before cutoff r && not (shield r))
  unfolding due_past past
  from_start r h = ground arith

  -- A cycle that begins with the cursor at its start, in which every round is answered and not interrupted,
  -- the other tables keep the same rows throughout, and less than a batch of their entries is expired each
  -- time, ends within one round more than the table has rows, with the cursor back at its start. Exactly the
  -- rows that were published before the cutoff, and that no other table keeps, are then gone.
  pub cleanup_once_finishes :
      (batch next : ℕ) (rows : List Row) (rounds : List CleanupRound)
      → 1 ≤ cutoff
      → 1 ≤ batch
      → batch ≤ maximum_cleanup_batch
      → Keyed 1 next rows
      → All (Quiet batch) rounds
      → length rows < length rounds
      → cleanup_once cutoff batch at_start rows rounds
        ≡ (finished, at_start, keep (λ r. not (published_before cutoff r && not (shield r))) rows)
  cleanup_once_finishes batch next rows rounds t lo hi keyed quiet enough =
      let (d, ids_above) = Keyed-DistinctIds 1 next rows keyed in
      let due = due_past at_start cutoff in
      cleanup_runs batch at_start rows rounds t lo hi d quiet
        (omega (arith, length-keep due rows, enough))
      ∙ ap (λ x. (finished, at_start, x))
          (keep-All _ _ rows (
            All-map (λ r. 1 ≤ r.id)
              (λ r. not (removes at_start r) ≡ not (published_before cutoff r && not (shield r)))
              rows from_start ids_above))
