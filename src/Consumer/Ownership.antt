-- ===== src/Consumer/Ownership.antt =====
-- `Ownership` of consumer/ownership.go: which partitions the process owns, and the leases that its
-- workers hold on them. A topic is a number, and the contexts are the list of those cancelled.
use go_pulse.Base.{
  ℕ, ◌+◌, Bool, false, not, ◌&&◌, Option, none, some, List, [], ◌∷◌, ◌==◌, if◌then◌else◌, has,
}

pub record Partition : Type 0 where
  pub topic : ℕ
  pub partition : ℕ

unfoldable pub same : Partition → Partition → Bool
same p q = p.topic == q.topic && p.partition == q.partition

-- A context is the number of the `WithCancel` that made it, which is the generation.
pub record Owned : Type 0 where
  pub generation : ℕ
  pub ctx : ℕ

pub record Lease : Type 0 where
  pub generation : ℕ
  pub key : Partition
  pub ctx : ℕ

-- `parts` is the map, its first binding of a key the one that counts.
pub record Ownership : Type 0 where
  pub next : ℕ
  pub parts : List (Partition × Owned)
  pub cancelled : List ℕ

abbrev pub new_ownership : Ownership
new_ownership = record { next = 0; parts = []; cancelled = [] }

unfoldable pub part : List (Partition × Owned) → Partition → Option Owned
unfolding same
part [] p = none
part ((q, v) ∷ parts) p = if same q p then some v else part parts p

unfoldable pub without : List (Partition × Owned) → Partition → List (Partition × Owned)
unfolding same
without [] p = []
without ((q, v) ∷ parts) p = let rest = without parts p in if same q p then rest else (q, v) ∷ rest

unfoldable pub cancel_old : Ownership → Option Owned → Ownership
cancel_old o none = o
cancel_old o (some old) = record o { cancelled = old.ctx ∷ o.cancelled }

-- One partition of `Assign`; the generation, a `uint64` there, is a natural number.
unfoldable pub assign_one : Ownership → Partition → Ownership
unfolding part without cancel_old
assign_one o p =
    let o' = cancel_old o (part o.parts p) in
    record o' {
      next = o'.next + 1;
      parts = (p, record { generation = o'.next + 1; ctx = o'.next + 1 }) ∷ without o'.parts p;
    }

unfoldable pub assign : Ownership → List Partition → Ownership
unfolding assign_one
assign o [] = o
assign o (p ∷ ps) = assign (assign_one o p) ps

unfoldable pub revoke_found : Ownership → Partition → Option Owned → Ownership
unfolding without
revoke_found o p none = o
revoke_found o p (some old) = record o {
  cancelled = old.ctx ∷ o.cancelled;
  parts = without o.parts p;
}

-- One partition of `Revoke`.
unfoldable pub revoke_one : Ownership → Partition → Ownership
unfolding part revoke_found
revoke_one o p = revoke_found o p (part o.parts p)

-- `Revoke`, and `Lose`.
unfoldable pub revoke : Ownership → List Partition → Ownership
unfolding revoke_one
revoke o [] = o
revoke o (p ∷ ps) = revoke (revoke_one o p) ps

abbrev pub contexts : List (Partition × Owned) → List ℕ → List ℕ
contexts [] done = done
contexts ((p, v) ∷ parts) done = contexts parts (v.ctx ∷ done)

unfoldable pub cancel_all : Ownership → Ownership
cancel_all o = record o { parts = []; cancelled = contexts o.parts o.cancelled }

unfoldable pub lease_of : Partition → Option Owned → Option Lease
lease_of p none = none
lease_of p (some v) = some (record { generation = v.generation; key = p; ctx = v.ctx })

-- `Ownership.Lease`
unfoldable pub lease : Ownership → Partition → Option Lease
unfolding part lease_of
lease o p = lease_of p (part o.parts p)

unfoldable pub valid_part : Ownership → Lease → Option Owned → Bool
unfolding has
valid_part o l none = false
valid_part o l (some v) = v.generation == l.generation && not (has o.cancelled v.ctx)

-- `Ownership.valid`
unfoldable pub valid : Ownership → Lease → Bool
unfolding part valid_part
valid o l = valid_part o l (part o.parts l.key)
