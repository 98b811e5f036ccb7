-- ===== src/LiveRefresh/Serializing.antt =====
-- The text by which values are compared (src/lib/live-refresh.ts, `stableSerialize`, `sortValue`).
-- `JSON.stringify` is a parameter. No key is an array index, which an object would list first.
pub mod Members
use Prim.Native.String.{compare}
use Prim.Native.Nat.{Ordering, lt, eq, gt}
use distributed_job_platform.Base.{
  ◌≡◌, refl, String, Bool, true, false, ◌||◌, Option, none, some, str_eq, str_eq_iff, if◌then◌else◌,
  Bool-cases, inl, inr, arith,
}
use distributed_job_platform.Json.{
  Json, null, boolean, number, text, array, object, Items, nil, cons, Fields, end, field, member,
}

abbrev is_before : Ordering → Bool
is_before lt = true
is_before eq = false
is_before gt = false

-- The order of `sort()`, which keeps equal keys as they are.
abbrev pub comes_first : String → String → Bool
comes_first k j = str_eq k j || is_before (compare k j)

pub insert_field : String → Json → Fields → Fields
insert_field k v end = field k v end
insert_field k v (field j w fs) =
    let rest = insert_field k v fs in
    if comes_first k j then field k v (field j w fs) else field j w rest

mutual
  pub sort_value : Json → Json
  sort_value null = null
  sort_value (boolean b) = boolean b
  sort_value (number s) = number s
  sort_value (text s) = text s
  sort_value (array vs) = array (sort_items vs)
  sort_value (object fs) = object (sort_fields fs)

  pub sort_items : Items → Items
  sort_items nil = nil
  sort_items (cons v vs) = cons (sort_value v) (sort_items vs)

  pub sort_fields : Fields → Fields
  sort_fields end = end
  sort_fields (field k v fs) = insert_field k (sort_value v) (sort_fields fs)

pub stable_serialize : (Json → String) → Json → String
stable_serialize stringify value = stringify (sort_value value)
