-- ===== src/Base/Lists.antt =====
-- Lists measured and filtered by Boolean tests, over the native numbers.
use Prim.Native.Nat.{ℕ, zero, suc, ◌+◌, ◌≤◌, min}
use mathlib.Core.Path.{◌≡◌, refl}
use mathlib.Core.Bool.{Bool, true, false, ◌&&◌, ◌||◌}
use mathlib.Core.List.{List, [], ◌∷◌, ◌++◌}
use mathlib.Core.Option.{Option, none, some}
use native.Mathlib.Omega.{arith}
use distributed_job_platform.Base.Tests.{if◌then◌else◌}

module _ {ℓ} {A : Type ℓ} where
  abbrev pub length : List A → ℕ
  length [] = 0
  length (x ∷ xs) = suc (length xs)

  abbrev pub take : ℕ → List A → List A
  take zero xs = []
  take (suc n) [] = []
  take (suc n) (x ∷ xs) = x ∷ take n xs

  -- `Array.prototype.filter`, `find`, `some` and `every`.
  abbrev pub keep : (A → Bool) → List A → List A
  keep p [] = []
  keep p (x ∷ xs) = if p x then x ∷ keep p xs else keep p xs

  abbrev pub find : (A → Bool) → List A → Option A
  find p [] = none
  find p (x ∷ xs) = if p x then some x else find p xs

  abbrev pub any : (A → Bool) → List A → Bool
  any p [] = false
  any p (x ∷ xs) = p x || any p xs

  abbrev pub all : (A → Bool) → List A → Bool
  all p [] = true
  all p (x ∷ xs) = p x && all p xs

  -- How many entries pass a test.
  abbrev pub tally : (A → Bool) → List A → ℕ
  tally p [] = 0
  tally p (x ∷ xs) = (if p x then 1 else 0) + tally p xs

  pub length-append : (xs ys : List A) → length (xs ++ ys) ≡ length xs + length ys
  length-append [] ys = omega arith
  length-append (x ∷ xs) ys = omega (arith, length-append xs ys)

  pub length-take : (n : ℕ) (xs : List A) → length (take n xs) ≡ min n (length xs)
  length-take zero xs = omega arith
  length-take (suc n) [] = omega arith
  length-take (suc n) (x ∷ xs) = omega (arith, length-take n xs)

  pub length-keep : (p : A → Bool) (xs : List A) → length (keep p xs) ≡ tally p xs
  length-keep p [] = refl
  length-keep p (x ∷ xs) = ground (arith, length-keep p xs)

  pub tally-append : (p : A → Bool) (xs ys : List A) → tally p (xs ++ ys) ≡ tally p xs + tally p ys
  tally-append p [] ys = omega arith
  tally-append p (x ∷ xs) ys = omega (arith, tally-append p xs ys)

  pub tally-take : (p : A → Bool) (n : ℕ) (xs : List A) → tally p (take n xs) ≤ tally p xs
  tally-take p zero xs = omega arith
  tally-take p (suc n) [] = omega arith
  tally-take p (suc n) (x ∷ xs) = omega (arith, tally-take p n xs)

-- What `find` gives passes the test, and is one of the entries.
module _ {A : Type 0} where
  pub tally-keep : (p q : A → Bool) (xs : List A) → tally p (keep q xs) ≡ tally (λ x. p x && q x) xs
  tally-keep p q [] = refl
  tally-keep p q (x ∷ xs) = ground (arith, tally-keep p q xs)

  pub find_passes : (p : A → Bool) (xs : List A) (x : A) → find p xs ≡ some x → p x ≡ true
  find_passes p [] x h = ground arith
  find_passes p (y ∷ ys) x h = ground (arith, find_passes p ys x)

  pub find-tally :
      (p q : A → Bool) (xs : List A) (x : A) → find p xs ≡ some x → q x ≡ true → 1 ≤ tally q xs
  find-tally p q [] x h k = ground arith
  find-tally p q (y ∷ ys) x h k = ground (arith, find-tally p q ys x)

  pub find-none : (p : A → Bool) (xs : List A) → find p xs ≡ none → any p xs ≡ false
  find-none p [] h = refl
  find-none p (y ∷ ys) h = ground (arith, find-none p ys)

module _ {ℓ κ} {A : Type ℓ} (P : A → Type κ) where
  abbrev pub All : List A → Type κ
  All [] = Unit
  All (x ∷ xs) = P x × All xs
