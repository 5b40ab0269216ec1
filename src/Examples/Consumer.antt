-- ===== src/Examples/Consumer.antt =====
-- Partition ownership at concrete inputs: two partitions, one of them taken away and given back.
use go_pulse.Base.{◌≡◌, refl, false, [], ◌∷◌}
use go_pulse.Consumer.Ownership.{
  Partition, Lease, Ownership, new_ownership, lease, valid, assign_one,
}
use go_pulse.Consumer.Leases.{Sound, new-Sound}
use go_pulse.Consumer.Staleness.{change, assigns, revokes, run, run-Sound, lease_until_touched}

abbrev zeroth : Partition
zeroth = record { topic = 1; partition = 0 }

abbrev first : Partition
first = record { topic = 1; partition = 1 }

abbrev both : Ownership
both = run new_ownership (assigns zeroth ∷ assigns first ∷ [])

abbrev lease_one : Lease
lease_one = record { generation = 2; key = first; ctx = 2 }

both-Sound : Sound both
both-Sound = run-Sound new_ownership (assigns zeroth ∷ assigns first ∷ []) new-Sound

-- The revoked lease stays invalid when the partition comes back.
lease_until_touched_example :
    valid (run both (revokes zeroth ∷ revokes first ∷ assigns first ∷ [])) lease_one ≡ false
unfolding run lease change assign_one
lease_until_touched_example =
    lease_until_touched both first lease_one (revokes zeroth ∷ revokes first ∷ assigns first ∷ [])
      both-Sound refl
