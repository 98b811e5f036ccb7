-- ===== src/Safe/Urls/Segments.antt =====
-- What the path of an address is joined of (src/lib/safe.ts, `joinUrlPath`).
use distributed_job_platform.Base.{
  ◌≡◌, refl, sym, ap, String, true, false, List, [], ◌∷◌, ◌++◌, All, trim, Bool-cases, inl, inr,
}
use distributed_job_platform.Safe.Urls.{
  segments, strip_leading, normalize_url_pathname, ends_with, shift_repeats, root_or, joined,
  join_url_path,
}

-- The first segment, if there is one, is not the last of the base.
unfoldable pub StartsFresh : List String → List String → Type 0
StartsFresh base [] = Unit {0}
StartsFresh base (x ∷ xs) = ends_with base x ≡ false

-- The next segments are some that repeat the last of the base, and the rest.
unfoldable pub Joins : List String → List String → String → Type 0
Joins base next path =
    (skipped : List String) × (rest : List String) × (next ≡ skipped ++ rest)
    × All (λ x. ends_with base x ≡ true) skipped
    × StartsFresh base rest
    × (path ≡ root_or (base ++ rest))

append-nil : (xs : List String) → xs ++ [] ≡ xs
append-nil [] = refl
append-nil (x ∷ xs) = ap (λ ys. x ∷ ys) (append-nil xs)

shift_repeats-Joins :
    (base next : List String) → Joins base next (root_or (base ++ shift_repeats base next))
unfolding Joins StartsFresh shift_repeats
shift_repeats-Joins base [] = ([], [], refl, tt, tt, refl)
shift_repeats-Joins base (x ∷ xs) = elim (Bool-cases (ends_with base x)) [
  | inl e ↦
      let (skipped, rest, all, repeats, fresh, path) = shift_repeats-Joins base xs in
      (x ∷ skipped, rest, ap (λ ys. x ∷ ys) all, (e, repeats), fresh, rw e path)
  | inr e ↦ ([], x ∷ xs, refl, tt, e, rw e refl)
]

joined-Joins : (base next : List String) → Joins base next (joined base next)
unfolding Joins StartsFresh
joined-Joins base [] = ([], [], refl, tt, tt, ap root_or (sym (append-nil base)))
joined-Joins base (x ∷ xs) = shift_repeats-Joins base (x ∷ xs)

-- The joined path has the segments of the base and then those of the next path, without the ones at
-- its front that repeat the last of the base, and only without those.
pub join_url_path-Joins :
    (base_path next_path : String)
    → Joins
        (segments (strip_leading (normalize_url_pathname base_path)))
        (segments (strip_leading (trim next_path)))
        (join_url_path base_path next_path)
unfolding join_url_path
join_url_path-Joins base_path next_path =
    joined-Joins (segments (strip_leading (normalize_url_pathname base_path)))
      (segments (strip_leading (trim next_path)))
