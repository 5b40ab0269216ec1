-- ===== src/Examples/RateLimit.antt =====
-- Requests under a lease at concrete inputs.
use go_pulse.Base.{ℕ, ◌+◌, ◌≤◌, ◌≡◌, refl, some, List, [], ◌∷◌, length, arith, bytes_eq}
use go_pulse.RateLimit.Lease.{
  Policy, new_lease_cache, grants, limited, take_lease_token, add_granted, decide_shared,
}
use go_pulse.RateLimit.Account.{held, Half, takes, answers, halves}
use go_pulse.RateLimit.Quota.{spent_within_grants}

-- `post_read` of cmd/server/protection.go, with its lease of four.
abbrev post_read : Policy
post_read = record { name = 112 ∷ []; cost = 1; lease = 4; idle_ttl = 100 }

abbrev ada : List ℕ
ada = 97 ∷ []

abbrev bob : List ℕ
bob = 98 ∷ []

-- Two requests of one identity ask the script at once; the table has one place.
abbrev requests : List Half
requests =
    takes post_read ada 1
    ∷ takes post_read ada 2
    ∷ answers post_read ada 3 0 (some (grants 4))
    ∷ answers post_read ada 4 0 (some (grants 2))
    ∷ takes post_read ada 5
    ∷ answers post_read bob 6 0 (some (grants 4))
    ∷ answers post_read bob 7 0 (some (limited 30))
    ∷ takes post_read bob 8
    ∷ []

spent_within_grants_example :
    let a = halves (record { cache = new_lease_cache 1; spent = 0; granted = 0 }) requests in
    (a.spent + held a.cache.entries ≤ a.granted) × (length a.cache.entries ≤ 1)
spent_within_grants_example =
    spent_within_grants 1 requests (omega arith)
      (tt, (tt, (omega arith, (omega arith, (tt, (omega arith, (tt, (tt, tt))))))))

spent_five :
    (halves (record { cache = new_lease_cache 1; spent = 0; granted = 0 }) requests).spent ≡ 5
unfolding halves new_lease_cache take_lease_token add_granted decide_shared bytes_eq
spent_five = refl
