-- ===== src/ApiParsers/Steps.antt =====
-- The steps of a parser, one check after another (src/lib/api-parsers.ts).
use distributed_job_platform.Base.{
  ◌≡◌, refl, String, Bool, true, false, ◌&&◌, Option, none, some, truthy, arith, Bool-cases, inl,
  inr,
}
use distributed_job_platform.Json.{Json, Fields, null, boolean, number, text, array, object}
use distributed_job_platform.ApiParsers.{
  Result, ok, failed, and_then, as_record, as_array, require_string, require_queues, require_flag,
}
use distributed_job_platform.ApiParsers.Shapes.{
  is_record, is_array, is_name, is_flag, is_object, Accepts,
}

-- A step passes on the values of a shape.
unfoldable pub Passes : {A : Type 0} → Result A → Bool → Type 0
Passes {A} r b = (b ≡ true → (a : A) × (r ≡ ok a)) × (b ≡ false → (e : String) × (r ≡ failed e))

unfoldable pub Agrees : Result Json → Bool → Json → Type 0
Agrees r b v = (b ≡ true → r ≡ ok v) × (b ≡ false → (e : String) × (r ≡ failed e))

pub gate :
    {A : Type 0} (r : Result A) (b : Bool) (k : Result Json) (c : Bool) (v : Json)
    → Passes r b
    → Agrees k c v
    → Agrees (and_then r (λ a. k)) (b && c) v
unfolding Passes Agrees
gate r true k c v p q = let (a, e) = p.0 refl in rw e q
gate r false k c v p q = let (x, e) = p.1 refl in rw e (λ h. ground arith, λ h. (x, refl))

pub last_gate :
    {A : Type 0} (r : Result A) (b : Bool) (v : Json)
    → Passes r b
    → Agrees (and_then r (λ a. ok v)) b v
unfolding Passes Agrees
last_gate r true v p = let (a, e) = p.0 refl in rw e (λ h. refl, λ h. ground arith)
last_gate r false v p = let (x, e) = p.1 refl in rw e (λ h. ground arith, λ h. (x, refl))

pub as_record-Passes : (o : Option Json) (label : String) → Passes (as_record o label) (is_record o)
unfolding Passes as_record
as_record-Passes none label = (λ h. ground arith, λ h. (_, refl))
as_record-Passes (some (object fs)) label = (λ h. (fs, refl), λ h. ground arith)
as_record-Passes (some null) label = (λ h. ground arith, λ h. (_, refl))
as_record-Passes (some (boolean b)) label = (λ h. ground arith, λ h. (_, refl))
as_record-Passes (some (number n)) label = (λ h. ground arith, λ h. (_, refl))
as_record-Passes (some (text s)) label = (λ h. ground arith, λ h. (_, refl))
as_record-Passes (some (array vs)) label = (λ h. ground arith, λ h. (_, refl))

pub as_array-Passes : (o : Option Json) (label : String) → Passes (as_array o label) (is_array o)
unfolding Passes as_array
as_array-Passes none label = (λ h. ground arith, λ h. (_, refl))
as_array-Passes (some (object fs)) label = (λ h. ground arith, λ h. (_, refl))
as_array-Passes (some null) label = (λ h. ground arith, λ h. (_, refl))
as_array-Passes (some (boolean b)) label = (λ h. ground arith, λ h. (_, refl))
as_array-Passes (some (number n)) label = (λ h. ground arith, λ h. (_, refl))
as_array-Passes (some (text s)) label = (λ h. ground arith, λ h. (_, refl))
as_array-Passes (some (array vs)) label = (λ h. (vs, refl), λ h. ground arith)

pub require_string-Passes :
    (o : Option Json) (label : String) → Passes (require_string o label) (is_name o)
unfolding Passes require_string
require_string-Passes none label = (λ h. ground arith, λ h. (_, refl))
require_string-Passes (some (object fs)) label = (λ h. ground arith, λ h. (_, refl))
require_string-Passes (some null) label = (λ h. ground arith, λ h. (_, refl))
require_string-Passes (some (boolean b)) label = (λ h. ground arith, λ h. (_, refl))
require_string-Passes (some (number n)) label = (λ h. ground arith, λ h. (_, refl))
require_string-Passes (some (text s)) label = elim (Bool-cases (truthy s)) [
  | inl e ↦ rw e (λ h. (s, refl), λ h. ground arith)
  | inr e ↦ rw e (λ h. ground arith, λ h. (_, refl))
]
require_string-Passes (some (array vs)) label = (λ h. ground arith, λ h. (_, refl))

pub require_queues-Passes : (o : Option Json) → Passes (require_queues o) (is_array o)
unfolding Passes
require_queues-Passes none = (λ h. ground arith, λ h. (_, refl))
require_queues-Passes (some (object fs)) = (λ h. ground arith, λ h. (_, refl))
require_queues-Passes (some null) = (λ h. ground arith, λ h. (_, refl))
require_queues-Passes (some (boolean b)) = (λ h. ground arith, λ h. (_, refl))
require_queues-Passes (some (number n)) = (λ h. ground arith, λ h. (_, refl))
require_queues-Passes (some (text s)) = (λ h. ground arith, λ h. (_, refl))
require_queues-Passes (some (array vs)) = (λ h. (vs, refl), λ h. ground arith)

pub require_flag-Passes : (o : Option Json) → Passes (require_flag o) (is_flag o)
unfolding Passes
require_flag-Passes none = (λ h. ground arith, λ h. (_, refl))
require_flag-Passes (some (object fs)) = (λ h. ground arith, λ h. (_, refl))
require_flag-Passes (some null) = (λ h. ground arith, λ h. (_, refl))
require_flag-Passes (some (boolean b)) = (λ h. (b, refl), λ h. ground arith)
require_flag-Passes (some (number n)) = (λ h. ground arith, λ h. (_, refl))
require_flag-Passes (some (text s)) = (λ h. ground arith, λ h. (_, refl))
require_flag-Passes (some (array vs)) = (λ h. ground arith, λ h. (_, refl))

-- A parser that reads the fields of an object and agrees with a test of them.
module _ (label : String) (k : Fields → Json → Result Json) (test : Fields → Bool)
    (agrees : (fs : Fields) (v : Json) → Agrees (k fs v) (test fs) v) where
  pub object_Accepts :
      Accepts (λ v. and_then (as_record (some v) label) (λ fs. k fs v)) (is_object test)
  unfolding Accepts Agrees as_record
  object_Accepts null = (λ h. ground arith, λ h. (_, refl))
  object_Accepts (boolean b) = (λ h. ground arith, λ h. (_, refl))
  object_Accepts (number n) = (λ h. ground arith, λ h. (_, refl))
  object_Accepts (text s) = (λ h. ground arith, λ h. (_, refl))
  object_Accepts (array vs) = (λ h. ground arith, λ h. (_, refl))
  object_Accepts (object fs) = agrees fs (object fs)
