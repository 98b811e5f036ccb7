-- ===== src/Base/Sorting.antt =====
-- `Array.prototype.sort` is stable: insertion keeps equal entries in their order. Entries are sorted
-- by a number, from the least or from the greatest.
use Prim.Native.Nat.{ℕ, suc, zero}
use mathlib.Core.Path.{◌≡◌, refl}
use mathlib.Core.Logic.{inl, inr}
use mathlib.Core.Bool.{Bool, true, false}
use mathlib.Core.List.{List, [], ◌∷◌}
use mathlib.Core.List.Perm
use mathlib.Core.List.{Perm}
use native.Mathlib.Omega.{arith}
use distributed_job_platform.Base.Tests.{if◌then◌else◌, leb, Bool-cases}
use distributed_job_platform.Base.Lists.{tally, length, take}

module _ {ℓ} {A : Type ℓ} where
  -- `before x y` says that the comparator's value at x and y is at most 0.
  pub insert_by : (A → A → Bool) → A → List A → List A
  insert_by before x [] = x ∷ []
  insert_by before x (y ∷ ys) = if before x y then x ∷ y ∷ ys else y ∷ insert_by before x ys

  unfoldable pub sort_by : (A → A → Bool) → List A → List A
  unfolding insert_by
  sort_by before [] = []
  sort_by before (x ∷ xs) = insert_by before x (sort_by before xs)

  -- The comparators `key(left) - key(right)` and `key(right) - key(left)`.
  abbrev pub up : (A → ℕ) → A → A → Bool
  up key x y = leb (key x) (key y)

  abbrev pub down : (A → ℕ) → A → A → Bool
  down key x y = leb (key y) (key x)

  insert_by-perm : (b : A → A → Bool) (x : A) (xs : List A) → Perm (insert_by b x xs) (x ∷ xs)
  unfolding insert_by
  insert_by-perm b x [] = Perm.refl _
  insert_by-perm b x (y ∷ ys) = elim (Bool-cases (b x y)) [
    | inl h ↦ rw h (Perm.refl _)
    | inr h ↦ rw h (Perm.trans (Perm.cons y (insert_by-perm b x ys)) (Perm.swap x y ys))
  ]

  pub sort_by-perm : (b : A → A → Bool) (xs : List A) → Perm (sort_by b xs) xs
  unfolding sort_by
  sort_by-perm b [] = Perm.refl []
  sort_by-perm b (x ∷ xs) =
      Perm.trans (insert_by-perm b x (sort_by b xs)) (Perm.cons x (sort_by-perm b xs))

  abbrev pub IsFront : (A → A → Bool) → A → List A → Type 0
  IsFront b x [] = Unit {0}
  IsFront b x (y ∷ ys) = b x y ≡ true

  -- Each entry may stand before the next.
  abbrev pub IsSortedBy : (A → A → Bool) → List A → Type 0
  IsSortedBy b [] = Unit {0}
  IsSortedBy b (x ∷ xs) = IsFront b x xs × IsSortedBy b xs

  insert_by-front :
      (b : A → A → Bool) (x : A) (xs : List A) → IsFront b x xs → insert_by b x xs ≡ x ∷ xs
  unfolding insert_by
  insert_by-front b x [] h = refl
  insert_by-front b x (y ∷ ys) h = rw h

  -- A sorted list stays as it is.
  pub sort_by-IsSortedBy_eq : (b : A → A → Bool) (xs : List A) → IsSortedBy b xs → sort_by b xs ≡ xs
  unfolding sort_by
  sort_by-IsSortedBy_eq b [] h = refl
  sort_by-IsSortedBy_eq b (x ∷ xs) h =
      rw (sort_by-IsSortedBy_eq b xs h.1) (insert_by-front b x xs h.0)

  tally-insert_by :
      (p : A → Bool) (b : A → A → Bool) (x : A) (xs : List A)
      → tally p (insert_by b x xs) ≡ tally p (x ∷ xs)
  unfolding insert_by
  tally-insert_by p b x [] = refl
  tally-insert_by p b x (y ∷ ys) = elim (Bool-cases (b x y)) [
    | inl h ↦ rw h
    | inr h ↦ rw h (omega (arith, tally-insert_by p b x ys))
  ]

  pub tally-sort_by :
      (p : A → Bool) (b : A → A → Bool) (xs : List A) → tally p (sort_by b xs) ≡ tally p xs
  unfolding sort_by
  tally-sort_by p b [] = refl
  tally-sort_by p b (x ∷ xs) =
      omega (arith, tally-insert_by p b x (sort_by b xs), tally-sort_by p b xs)

  length-insert_by :
      (b : A → A → Bool) (x : A) (xs : List A) → length (insert_by b x xs) ≡ suc (length xs)
  unfolding insert_by
  length-insert_by b x [] = refl
  length-insert_by b x (y ∷ ys) = elim (Bool-cases (b x y)) [
    | inl h ↦ rw h
    | inr h ↦ rw h (omega (arith, length-insert_by b x ys))
  ]

  pub length-sort_by : (b : A → A → Bool) (xs : List A) → length (sort_by b xs) ≡ length xs
  unfolding sort_by
  length-sort_by b [] = refl
  length-sort_by b (x ∷ xs) =
      omega (arith, length-insert_by b x (sort_by b xs), length-sort_by b xs)

-- The order of a comparator by a number.
module _ {ℓ} {A : Type ℓ} (b : A → A → Bool)
    (total : (x y : A) → b x y ≡ false → b y x ≡ true) where
  IsFront-insert_by :
      (x y : A) (xs : List A) → IsFront b y xs → b y x ≡ true → IsFront b y (insert_by b x xs)
  unfolding insert_by
  IsFront-insert_by x y [] h k = k
  IsFront-insert_by x y (z ∷ zs) h k = elim (Bool-cases (b x z)) [ inl e ↦ rw e k | inr e ↦ rw e h ]

  insert_by-IsSortedBy : (x : A) (xs : List A) → IsSortedBy b xs → IsSortedBy b (insert_by b x xs)
  unfolding insert_by
  insert_by-IsSortedBy x [] h = (tt, tt)
  insert_by-IsSortedBy x (y ∷ ys) h = elim (Bool-cases (b x y)) [
    | inl e ↦ rw e (e, h)
    | inr e ↦ rw e (IsFront-insert_by x y ys h.0 (total x y e), insert_by-IsSortedBy x ys h.1)
  ]

  pub sort_by-IsSortedBy : (xs : List A) → IsSortedBy b (sort_by b xs)
  unfolding sort_by
  sort_by-IsSortedBy [] = tt
  sort_by-IsSortedBy (x ∷ xs) = insert_by-IsSortedBy x (sort_by b xs) (sort_by-IsSortedBy xs)

  pub IsSortedBy-take : (n : ℕ) (xs : List A) → IsSortedBy b xs → IsSortedBy b (take n xs)
  IsSortedBy-take zero xs h = tt
  IsSortedBy-take (suc n) [] h = tt
  IsSortedBy-take (suc zero) (x ∷ xs) h = (tt, tt)
  IsSortedBy-take (suc (suc n)) (x ∷ []) h = (tt, tt)
  IsSortedBy-take (suc (suc n)) (x ∷ y ∷ ys) h = (h.0, IsSortedBy-take (suc n) (y ∷ ys) h.1)

module _ {ℓ} {A : Type ℓ} (key : A → ℕ) where
  pub up_total : (x y : A) → up key x y ≡ false → up key y x ≡ true
  up_total x y h = ground arith

  pub down_total : (x y : A) → down key x y ≡ false → down key y x ≡ true
  down_total x y h = ground arith
