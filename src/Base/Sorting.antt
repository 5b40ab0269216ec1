-- ===== src/Base/Sorting.antt =====
-- Insertion sort by a strict order, as `ORDER BY` of columns that tell all rows apart.
use Prim.Native.Nat.{ℕ, suc}
use mathlib.Core.Path.{◌≡◌, refl}
use mathlib.Core.Logic.{inl, inr}
use mathlib.Core.Bool.{Bool, true, false}
use mathlib.Core.List.{List, [], ◌∷◌, Perm}
use mathlib.Core.List.Perm
use native.Mathlib.Omega.{arith}
use go_pulse.Base.Tests.{◌==◌, if◌then◌else◌, Bool-cases}
use go_pulse.Base.Lists.{All, length}

pub All-map :
    {A : Type 0} (P Q : A → Type 0) (xs : List A) → ((x : A) → P x → Q x) → All P xs → All Q xs
All-map P Q [] f a = tt
All-map P Q (x ∷ xs) f a = (f x a.0, All-map P Q xs f a.1)

-- No two elements have one key.
abbrev pub Distinct : {A : Type 0} → (A → ℕ) → List A → Type 0
Distinct key [] = Unit {0}
Distinct key (x ∷ xs) = All (λ y. (key x == key y) ≡ false) xs × Distinct key xs

module _ {A : Type 0} (before : A → A → Bool) where
  unfoldable pub insert_by : A → List A → List A
  insert_by x [] = x ∷ []
  insert_by x (y ∷ ys) = if before x y then x ∷ y ∷ ys else y ∷ insert_by x ys

  unfoldable pub sort_by : List A → List A
  unfolding insert_by
  sort_by [] = []
  sort_by (x ∷ xs) = insert_by x (sort_by xs)

  -- Each element before those after it.
  abbrev pub Sorted : List A → Type 0
  Sorted [] = Unit {0}
  Sorted (x ∷ xs) = All (λ y. before x y ≡ true) xs × Sorted xs

  All-insert_by : (P : A → Type 0) (x : A) (xs : List A) → P x → All P xs → All P (insert_by x xs)
  unfolding insert_by
  All-insert_by P x [] h a = (h, tt)
  All-insert_by P x (y ∷ ys) h a = elim (Bool-cases (before x y)) [
    | inl first ↦ rw first (h, (a.0, a.1))
    | inr later ↦ rw later (a.0, All-insert_by P x ys h a.1)
  ]

  pub All-sort_by : (P : A → Type 0) (xs : List A) → All P xs → All P (sort_by xs)
  unfolding sort_by
  All-sort_by P [] a = tt
  All-sort_by P (x ∷ xs) a = All-insert_by P x (sort_by xs) a.0 (All-sort_by P xs a.1)

  -- The order is transitive, and total on elements with different keys.
  pub record Strict (key : A → ℕ) : Type 0 where
    pub trans : (x y z : A) → before x y ≡ true → before y z ≡ true → before x z ≡ true
    pub total : (x y : A) → before x y ≡ false → (key x == key y) ≡ false → before y x ≡ true

  insert_by-Sorted :
      (key : A → ℕ) (x : A) (xs : List A)
      → Strict key
      → Sorted xs
      → All (λ y. (key x == key y) ≡ false) xs
      → Sorted (insert_by x xs)
  unfolding insert_by
  insert_by-Sorted key x [] s d fresh = (tt, tt)
  insert_by-Sorted key x (y ∷ ys) s d fresh = elim (Bool-cases (before x y)) [
    | inl first ↦ rw first (
      (
        first,
        All-map (λ z. before y z ≡ true) (λ z. before x z ≡ true) ys (λ z. s.trans x y z first) d.0,
      ),
      d,
    )
    | inr later ↦ rw later (
      All-insert_by (λ z. before y z ≡ true) x ys (s.total x y later fresh.0) d.0,
      insert_by-Sorted key x ys s d.1 fresh.1,
    )
  ]

  pub sort_by-Sorted :
      (key : A → ℕ) (xs : List A) → Strict key → Distinct key xs → Sorted (sort_by xs)
  unfolding sort_by
  sort_by-Sorted key [] s d = tt
  sort_by-Sorted key (x ∷ xs) s d =
      insert_by-Sorted key x (sort_by xs) s (sort_by-Sorted key xs s d.1)
        (All-sort_by (λ y. (key x == key y) ≡ false) xs d.0)

  insert_by-perm : (x : A) (xs : List A) → Perm (insert_by x xs) (x ∷ xs)
  unfolding insert_by
  insert_by-perm x [] = Perm.refl (x ∷ [])
  insert_by-perm x (y ∷ ys) = elim (Bool-cases (before x y)) [
    | inl first ↦ rw first (Perm.refl (x ∷ y ∷ ys))
    | inr later ↦ rw later (Perm.trans (Perm.cons y (insert_by-perm x ys)) (Perm.swap x y ys))
  ]

  pub sort_by-perm : (xs : List A) → Perm (sort_by xs) xs
  unfolding sort_by
  sort_by-perm [] = Perm.refl []
  sort_by-perm (x ∷ xs) = Perm.trans (insert_by-perm x (sort_by xs)) (Perm.cons x (sort_by-perm xs))

  length-insert_by : (x : A) (xs : List A) → length (insert_by x xs) ≡ suc (length xs)
  unfolding insert_by
  length-insert_by x [] = refl
  length-insert_by x (y ∷ ys) = ground (arith, length-insert_by x ys)

  pub length-sort_by : (xs : List A) → length (sort_by xs) ≡ length xs
  unfolding sort_by
  length-sort_by [] = refl
  length-sort_by (x ∷ xs) = omega (arith, length-insert_by x (sort_by xs), length-sort_by xs)
