-- ===== src/ToastQueue/Keys.antt =====
-- The keys that stand for toasts, and what a well-formed queue is (src/hooks/useToastQueue.ts).
use distributed_job_platform.Base.{
  ℕ, zero, suc, ◌≤◌, ◌≡◌, refl, String, Bool, true, false, not, List, [], ◌∷◌, Option, none, some,
  take, keep, all, is_some, length, tally, lookup, insert, remove, truthy, str_eq, str_eq_iff,
  str_eq_refl, lookup-insert, lookup-remove, arith, Bool-cases, inl, inr,
}
use distributed_job_platform.ToastQueue.{Toast, ToastQueue, text_or_empty}

abbrev pub has_id : String → Toast → Bool
has_id i toast = str_eq toast.id i

-- Each id that has a key is the one that the key stands for.
unfoldable pub IsLinked : List (String × String) → List (String × String) → Type 0
IsLinked key_by_id active_keys =
    (i k : String)
    → lookup i key_by_id ≡ some k
    → (truthy i ≡ true) × (lookup k active_keys ≡ some i)

abbrev pub has_key : List (String × String) → Toast → Bool
has_key key_by_id toast = is_some (lookup toast.id key_by_id)

-- At most five toasts, none twice, each with a key, and each key stands for one toast.
unfoldable pub IsQueue : ToastQueue → Type 0
IsQueue q =
    (length q.toasts ≤ 5)
    × ((i : String) → tally (has_id i) q.toasts ≤ 1)
    × (all (has_key q.key_by_id) q.toasts ≡ true)
    × IsLinked q.key_by_id q.active_keys

pub IsLinked-insert :
    (id key : String) (ids keys : List (String × String))
    → truthy id ≡ true
    → lookup id ids ≡ none
    → truthy (text_or_empty (lookup key keys)) ≡ false
    → IsLinked ids keys
    → IsLinked (insert id key ids) (insert key id keys)
unfolding IsLinked
IsLinked-insert id key ids keys nonempty fresh free linked i k h =
    rw (lookup-insert key k id keys) (elim (Bool-cases (str_eq id i)) [
      | inl same ↦ ground (
        arith,
        nonempty,
        same,
        str_eq_iff id i,
        str_eq_iff key k,
        str_eq_refl key,
        lookup-insert id i key ids,
        h,
      )
      | inr other ↦
          let old : lookup i ids ≡ some k = ground (arith, lookup-insert id i key ids, h, other) in
          let (named, stands) = linked i k old in
          ground (arith, named, stands, free, str_eq_iff key k)
    ])

pub IsLinked-remove :
    (id key : String) (ids keys : List (String × String))
    → lookup id ids ≡ some key
    → IsLinked ids keys
    → IsLinked (remove id ids) (remove key keys)
unfolding IsLinked
IsLinked-remove id key ids keys mine linked i k h =
    let stands_mine = (linked id key mine).1 in
    let old : lookup i ids ≡ some k = ground (arith, lookup-remove id i ids, h) in
    let (named, stands) = linked i k old in
    rw (lookup-remove key k keys) (
      ground (
        arith,
        named,
        stands,
        stands_mine,
        lookup-remove id i ids,
        h,
        str_eq_iff key k,
        str_eq_iff id i,
      ))

pub all-insert :
    (id key : String) (ids : List (String × String)) (ts : List Toast)
    → all (has_key ids) ts ≡ true
    → all (has_key (insert id key ids)) ts ≡ true
all-insert id key ids [] h = refl
all-insert id key ids (t ∷ ts) h =
    ground (arith, all-insert id key ids ts, lookup-insert id t.id key ids)

pub all-take :
    (p : Toast → Bool) (n : ℕ) (ts : List Toast) → all p ts ≡ true → all p (take n ts) ≡ true
all-take p zero ts h = refl
all-take p (suc n) [] h = refl
all-take p (suc n) (t ∷ ts) h = ground (arith, all-take p n ts)

pub all-keep : (p q : Toast → Bool) (ts : List Toast) → all p ts ≡ true → all p (keep q ts) ≡ true
all-keep p q [] h = refl
all-keep p q (t ∷ ts) h = ground (arith, all-keep p q ts)

pub all-remove :
    (id : String) (ids : List (String × String)) (ts : List Toast)
    → all (has_key ids) ts ≡ true
    → all (has_key (remove id ids)) (keep (λ t. not (str_eq t.id id)) ts) ≡ true
all-remove id ids [] h = refl
all-remove id ids (t ∷ ts) h =
    ground (
      arith,
      all-remove id ids ts,
      lookup-remove id t.id ids,
      str_eq_iff t.id id,
      str_eq_iff id t.id,
    )

pub tally-fresh :
    (id : String) (ids : List (String × String)) (ts : List Toast)
    → lookup id ids ≡ none
    → all (has_key ids) ts ≡ true
    → tally (has_id id) ts ≡ 0
tally-fresh id ids [] fresh h = refl
tally-fresh id ids (t ∷ ts) fresh h =
    ground (arith, tally-fresh id ids ts fresh, str_eq_iff t.id id)

pub length-keep_le : (q : Toast → Bool) (ts : List Toast) → length (keep q ts) ≤ length ts
length-keep_le q [] = omega arith
length-keep_le q (t ∷ ts) = ground (arith, length-keep_le q ts)

pub tally-keep_le : (p q : Toast → Bool) (ts : List Toast) → tally p (keep q ts) ≤ tally p ts
tally-keep_le p q [] = omega arith
tally-keep_le p q (t ∷ ts) = ground (arith, tally-keep_le p q ts)

pub key_found : (o : Option String) → truthy (text_or_empty o) ≡ true → o ≡ some (text_or_empty o)
key_found none h = ground arith
key_found (some k) h = refl
