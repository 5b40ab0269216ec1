-- ===== src/Spool/Bucket.antt =====
-- Facts about the messages bucket as the cursor walks it: order, weight, and which record a walk
-- finds or a deletion takes out.
use go_pulse.Base.{
  ℕ, zero, suc, ◌+◌, ◌≤◌, ◌<◌, ◌≡◌, refl, true, false, none, some, List, [], ◌∷◌, ◌++◌, length,
  ◌==◌, if◌then◌else◌, has, arith, inl, inr, Bool-cases,
}
use go_pulse.Spool.Store.{Messages, lookup, upsert, remove, entry_size, first_free, Codec, Entry}

-- The sequences ascend strictly from `lo` on and stay below `hi`.
abbrev pub Within : ℕ → ℕ → Messages → Type 0
Within lo hi [] = Unit {0}
Within lo hi ((k, v) ∷ xs) = (lo ≤ k) × (k < hi) × Within (suc k) hi xs

-- What the records weigh together.
unfoldable pub total : Messages → ℕ
total [] = 0
total ((k, v) ∷ xs) = entry_size v + total xs

-- Every record decodes to an entry of its own sequence.
abbrev pub Decodes : Codec → Messages → Type 0
Decodes json [] = Unit {0}
Decodes json ((k, v) ∷ xs) =
    ((e : Entry) × (json.unmarshal v ≡ some e) × (e.sequence ≡ k)) × Decodes json xs

-- The bucket without its first `n` records that are not in flight.
unfoldable pub drop_free : List ℕ → ℕ → Messages → Messages
drop_free in_flight zero xs = xs
drop_free in_flight (suc n) [] = []
drop_free in_flight (suc n) ((k, v) ∷ xs) =
    let kept = drop_free in_flight (suc n) xs in
    let dropped = drop_free in_flight n xs in if has in_flight k then (k, v) ∷ kept else dropped

pub Within-weaken : (lo lo' hi : ℕ) (xs : Messages) → lo' ≤ lo → Within lo hi xs → Within lo' hi xs
Within-weaken lo lo' hi [] h w = tt
Within-weaken lo lo' hi ((k, v) ∷ xs) h w = (omega arith, w.1, w.2)

pub upsert-append :
    (lo hi : ℕ) (v : List ℕ) (xs : Messages) → Within lo hi xs → upsert hi v xs ≡ xs ++ (hi, v) ∷ []
unfolding upsert
upsert-append lo hi v [] w = refl
upsert-append lo hi v ((k, u) ∷ xs) w = ground (arith, upsert-append (suc k) hi v xs w.2)

pub append-Within :
    (lo hi : ℕ) (v : List ℕ) (xs : Messages)
    → lo ≤ hi
    → Within lo hi xs
    → Within lo (suc hi) (xs ++ (hi, v) ∷ [])
append-Within lo hi v [] h w = (h, omega arith, tt)
append-Within lo hi v ((k, u) ∷ xs) h w =
    (w.0, omega arith, append-Within (suc k) hi v xs (omega arith) w.2)

pub remove-Within : (lo hi k : ℕ) (xs : Messages) → Within lo hi xs → Within lo hi (remove k xs)
unfolding remove
remove-Within lo hi k [] w = tt
remove-Within lo hi k ((j, v) ∷ xs) w =
    ground
      (arith, remove-Within (suc j) hi k xs w.2, Within-weaken (suc j) lo hi xs (omega arith) w.2)

pub drop_free-Within :
    (in_flight : List ℕ) (n lo hi : ℕ) (xs : Messages)
    → Within lo hi xs
    → Within lo hi (drop_free in_flight n xs)
unfolding drop_free
drop_free-Within fl zero lo hi xs w = w
drop_free-Within fl (suc n) lo hi [] w = tt
drop_free-Within fl (suc n) lo hi ((k, v) ∷ xs) w = ground (
  arith,
  drop_free-Within fl (suc n) (suc k) hi xs w.2,
  Within-weaken (suc k) lo hi (drop_free fl n xs) (omega arith)
      (drop_free-Within fl n (suc k) hi xs w.2),
)

pub append-Decodes :
    (json : Codec) (k : ℕ) (v : List ℕ) (xs : Messages)
    → Decodes json xs
    → Decodes json ((k, v) ∷ [])
    → Decodes json (xs ++ (k, v) ∷ [])
append-Decodes json k v [] d e = e
append-Decodes json k v ((j, u) ∷ xs) d e = (d.0, append-Decodes json k v xs d.1 e)

pub remove-Decodes :
    (json : Codec) (k : ℕ) (xs : Messages) → Decodes json xs → Decodes json (remove k xs)
unfolding remove
remove-Decodes json k [] d = tt
remove-Decodes json k ((j, v) ∷ xs) d = elim (Bool-cases (j == k)) [
  | inl e ↦ rw e d.1
  | inr e ↦ rw e (d.0, remove-Decodes json k xs d.1)
]

pub drop_free-Decodes :
    (json : Codec) (in_flight : List ℕ) (n : ℕ) (xs : Messages)
    → Decodes json xs
    → Decodes json (drop_free in_flight n xs)
unfolding drop_free
drop_free-Decodes json fl zero xs d = d
drop_free-Decodes json fl (suc n) [] d = tt
drop_free-Decodes json fl (suc n) ((k, v) ∷ xs) d = elim (Bool-cases (has fl k)) [
  | inl e ↦ rw e (d.0, drop_free-Decodes json fl (suc n) xs d.1)
  | inr e ↦ rw e (drop_free-Decodes json fl n xs d.1)
]

pub total-append :
    (k : ℕ) (v : List ℕ) (xs : Messages) → total (xs ++ (k, v) ∷ []) ≡ total xs + entry_size v
unfolding total
total-append k v [] = omega arith
total-append k v ((j, u) ∷ xs) = omega (arith, total-append k v xs)

pub total-remove :
    (k : ℕ) (v : List ℕ) (xs : Messages)
    → lookup k xs ≡ some v
    → total (remove k xs) + entry_size v ≡ total xs
unfolding total lookup remove
total-remove k v [] h = absurd (cc)
total-remove k v ((j, u) ∷ xs) h = ground (arith, total-remove k v xs)

-- The record that a walk finds is free, and it is the one that its key looks up.
pub first_free_free :
    (in_flight : List ℕ) (k : ℕ) (v : List ℕ) (xs : Messages)
    → first_free in_flight xs ≡ some (k, v)
    → has in_flight k ≡ false
unfolding first_free
first_free_free fl k v [] h = absurd (cc)
first_free_free fl k v ((j, u) ∷ xs) h = ground (arith, first_free_free fl k v xs)

pub lookup-first_free :
    (in_flight : List ℕ) (k : ℕ) (v : List ℕ) (xs : Messages)
    → first_free in_flight xs ≡ some (k, v)
    → lookup k xs ≡ some v
unfolding first_free lookup
lookup-first_free fl k v [] h = absurd (cc)
lookup-first_free fl k v ((j, u) ∷ xs) h =
    ground (arith, lookup-first_free fl k v xs, first_free_free fl k v xs)

pub length-remove :
    (k : ℕ) (v : List ℕ) (xs : Messages)
    → lookup k xs ≡ some v
    → suc (length (remove k xs)) ≡ length xs
unfolding lookup remove
length-remove k v [] h = absurd (cc)
length-remove k v ((j, u) ∷ xs) h = ground (arith, length-remove k v xs)

pub lookup-remove_other :
    (k j : ℕ) (xs : Messages) → (k == j) ≡ false → lookup j (remove k xs) ≡ lookup j xs
unfolding lookup remove
lookup-remove_other k j [] h = refl
lookup-remove_other k j ((i, v) ∷ xs) h = ground (arith, lookup-remove_other k j xs h)

pub lookup_below : (k lo hi : ℕ) (xs : Messages) → Within lo hi xs → k < lo → lookup k xs ≡ none
unfolding lookup
lookup_below k lo hi [] w h = refl
lookup_below k lo hi ((j, v) ∷ xs) w h = ground (arith, lookup_below k (suc j) hi xs w.2)

pub lookup_above : (k lo hi : ℕ) (xs : Messages) → Within lo hi xs → hi ≤ k → lookup k xs ≡ none
unfolding lookup
lookup_above k lo hi [] w h = refl
lookup_above k lo hi ((j, v) ∷ xs) w h = ground (arith, lookup_above k (suc j) hi xs w.2)

pub lookup-remove_self :
    (k lo hi : ℕ) (xs : Messages) → Within lo hi xs → lookup k (remove k xs) ≡ none
unfolding lookup remove
lookup-remove_self k lo hi [] w = refl
lookup-remove_self k lo hi ((j, v) ∷ xs) w =
    ground (arith, lookup-remove_self k (suc j) hi xs w.2, lookup_below k (suc j) hi xs w.2)

pub lookup-append_last :
    (k : ℕ) (v : List ℕ) (xs : Messages)
    → lookup k xs ≡ none
    → lookup k (xs ++ (k, v) ∷ []) ≡ some v
unfolding lookup
lookup-append_last k v [] h = ground arith
lookup-append_last k v ((j, u) ∷ xs) h = ground (arith, lookup-append_last k v xs)

pub lookup-append_other :
    (k j : ℕ) (v : List ℕ) (xs : Messages)
    → (k == j) ≡ false
    → lookup j (xs ++ (k, v) ∷ []) ≡ lookup j xs
unfolding lookup
lookup-append_other k j v [] h = ground arith
lookup-append_other k j v ((i, u) ∷ xs) h = ground (arith, lookup-append_other k j v xs h)

-- A record in flight outlasts any eviction.
pub lookup-drop_free :
    (in_flight : List ℕ) (n j : ℕ) (xs : Messages)
    → has in_flight j ≡ true
    → lookup j (drop_free in_flight n xs) ≡ lookup j xs
unfolding lookup drop_free
lookup-drop_free fl zero j xs h = refl
lookup-drop_free fl (suc n) j [] h = refl
lookup-drop_free fl (suc n) j ((k, v) ∷ xs) h =
    ground (arith, lookup-drop_free fl (suc n) j xs h, lookup-drop_free fl n j xs h)

-- Dropping one more free record is taking out the one that the walk finds.
pub drop_free-suc :
    (in_flight : List ℕ) (n k : ℕ) (v : List ℕ) (xs : Messages)
    → first_free in_flight xs ≡ some (k, v)
    → drop_free in_flight (suc n) xs ≡ drop_free in_flight n (remove k xs)
unfolding drop_free first_free remove
drop_free-suc fl n k v [] h = absurd (cc)
drop_free-suc fl zero k v ((j, u) ∷ xs) h =
    ground (arith, drop_free-suc fl zero k v xs, first_free_free fl k v xs)
drop_free-suc fl (suc n) k v ((j, u) ∷ xs) h =
    ground (arith, drop_free-suc fl (suc n) k v xs, first_free_free fl k v xs)

-- With no free record left there is nothing to drop.
pub drop_free-none :
    (in_flight : List ℕ) (n : ℕ) (xs : Messages)
    → first_free in_flight xs ≡ none
    → drop_free in_flight n xs ≡ xs
unfolding drop_free first_free
drop_free-none fl zero xs h = refl
drop_free-none fl (suc n) [] h = refl
drop_free-none fl (suc n) ((j, u) ∷ xs) h = ground (arith, drop_free-none fl (suc n) xs)
