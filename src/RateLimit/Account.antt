-- ===== src/RateLimit/Account.antt =====
-- A process that serves requests, whose halves may interleave (ratelimit/limiter.go), with what they
-- spent and what the script granted.
use go_pulse.Base.{
  ℕ, ◌+◌, ◌≤◌, ◌≡◌, subst, Option, some, List, [], ◌∷◌, Result, ok, err, if◌then◌else◌, bytes_eq,
  bytes_eq-eq, some-injective, Bool-cases, inl, inr,
}
use go_pulse.RateLimit.Lease.{
  Policy, LeaseEntry, LeaseCache, find_entry, take_lease_token, ScriptAnswer, grants, Decision,
  LimitError, decide_shared,
}

-- The tokens that are left in the leases.
unfoldable pub held : List LeaseEntry → ℕ
held [] = 0
held (e ∷ es) = e.tokens + held es

-- A half of a request: the attempt to take a token from a lease, or the script's answer.
pub data Half : Type 0 where
  takes : Policy → List ℕ → ℕ → Half
  answers : Policy → List ℕ → ℕ → ℕ → Option ScriptAnswer → Half

-- The leases, the cost of the requests that were allowed, and what the script granted.
pub record Account : Type 0 where
  pub cache : LeaseCache
  pub spent : ℕ
  pub granted : ℕ

abbrev pub cost_of : Policy → Result LimitError Decision → ℕ
cost_of p (ok d) = if d.allowed then p.cost else 0
cost_of p (err f) = 0

abbrev pub grant_of : Option ScriptAnswer → ℕ
grant_of (some (grants g)) = g
grant_of _ = 0

unfoldable pub half : Account → Half → Account
half a (takes p identity now) =
    let taken = take_lease_token a.cache p identity now in
    record a { cache = taken.1; spent = a.spent + (if taken.0 then p.cost else 0) }
half a (answers p identity now victim answer) =
    let (cache, decision) = decide_shared a.cache p identity now victim answer in
    record {
      cache = cache;
      spent = a.spent + cost_of p decision;
      granted = a.granted + grant_of answer;
    }

unfoldable pub halves : Account → List Half → Account
unfolding half
halves a [] = a
halves a (h ∷ hs) = halves (half a h) hs

-- A script that grants, grants at least the cost of the request.
abbrev pub Granting : Half → Type 0
Granting (takes p identity now) = Unit
Granting (answers p identity now victim (some (grants g))) = p.cost ≤ g
Granting (answers p identity now victim _) = Unit

pub find_entry-key :
    (k : List ℕ) (es : List LeaseEntry) (e : LeaseEntry) → find_entry k es ≡ some e → e.key ≡ k
unfolding find_entry
find_entry-key k [] e h = absurd (cc)
find_entry-key k (x ∷ es) e h = elim (Bool-cases (bytes_eq x.key k)) [
  | inl here ↦ subst (λ y. y.key ≡ k) (some-injective (rw here at h)) (bytes_eq-eq x.key k here)
  | inr there ↦ find_entry-key k es e (rw there at h)
]
