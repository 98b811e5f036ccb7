-- ===== src/OpsConsole/Handlers/Letters/Selection.antt =====
-- The selection of dead letters (src/components/OpsConsole.tsx, `handleToggleDeadLetterSelection` and the
-- effect that prunes the selection).
use distributed_job_platform.Base.{
  ◌≤◌, ◌≡◌, refl, ◌∙◌, String, Bool, true, false, not, List, [], ◌∷◌, tally, tally-append, keep,
  includes, str_eq, str_eq_iff, Bool-cases, inl, inr, if◌then◌else◌, arith,
}
use distributed_job_platform.OpsConsole.Handlers.Letters.{toggle_dead_letter}

abbrev pub is_item : String → String → Bool
is_item i x = str_eq x i

-- How often an id is selected: 1 or 0 in the beginning and after.
dropped :
    (i j : String) (xs : List String)
    → tally (is_item j) (keep (λ x. not (str_eq x i)) xs)
      ≡ (if str_eq i j then 0 else tally (is_item j) xs)
dropped i j [] = ground arith
dropped i j (x ∷ xs) =
    ground (arith, dropped i j xs, str_eq_iff x i, str_eq_iff x j, str_eq_iff i j)

excluded : (i : String) (xs : List String) → includes i xs ≡ false → tally (is_item i) xs ≡ 0
excluded i [] h = refl
excluded i (x ∷ xs) h = ground (arith, excluded i xs)

included : (i : String) (xs : List String) → includes i xs ≡ true → 1 ≤ tally (is_item i) xs
included i [] h = ground arith
included i (x ∷ xs) h = ground (arith, included i xs)

-- Toggling an id selects it once if it was not selected, deselects it if it was, and leaves every other
-- id selected as often as before.
pub toggle_dead_letter_lem :
    (i j : String) (current : List String)
    → tally (is_item j) (toggle_dead_letter i current)
      ≡ (if str_eq i j then (if includes i current then 0 else 1) else tally (is_item j) current)
unfolding toggle_dead_letter
toggle_dead_letter_lem i j current = elim (Bool-cases (includes i current)) [
  | inl e ↦ rw e (dropped i j current)
  | inr e ↦ rw e (
      tally-append (is_item j) current (i ∷ [])
      ∙ ground (arith, excluded i current e, str_eq_iff i j))
]
