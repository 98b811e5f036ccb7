-- ===== src/ConsoleData/DeadLetters.antt =====
-- Removing dead letters (src/lib/console-data.ts, `removeDeadLetters`, `findDeadLetter`).
use distributed_job_platform.Base.{
  ℕ, ◌≡◌, refl, ◌∙◌, String, Bool, true, false, not, ◌&&◌, List, [], ◌∷◌, none, find, tally,
  tally-keep, includes, str_eq, str_eq_iff, arith,
}
use distributed_job_platform.Models.Jobs.{DeadLetter}
use distributed_job_platform.Models.Console.{ConsoleData, Clock}
use distributed_job_platform.ConsoleData.{remove_dead_letters, find_dead_letter}
use distributed_job_platform.ConsoleData.Reconciling.{tally-reconcile_dead_letters}

abbrev pub is_of : String → DeadLetter → Bool
is_of job_id x = str_eq x.job_id job_id

find-none : (p : DeadLetter → Bool) (xs : List DeadLetter) → tally p xs ≡ 0 → find p xs ≡ none
find-none p [] h = refl
find-none p (x ∷ xs) h = ground (arith, find-none p xs)

pub tally-remove_dead_letters :
    (p : DeadLetter → Bool) (c : Clock) (now : ℕ) (d : ConsoleData) (ids : List String)
    → tally p (remove_dead_letters c now d ids).snapshot.dead_letters
      ≡ tally (λ x. p x && not (includes x.job_id ids)) d.snapshot.dead_letters
unfolding remove_dead_letters
tally-remove_dead_letters p c now d ids =
    tally-reconcile_dead_letters p c now _
    ∙ tally-keep p (λ x. not (includes x.job_id ids)) d.snapshot.dead_letters

pub tally-gone :
    (i : String) (ids : List String) (xs : List DeadLetter)
    → includes i ids ≡ true
    → tally (λ x. is_of i x && not (includes x.job_id ids)) xs ≡ 0
tally-gone i ids [] h = refl
tally-gone i ids (x ∷ xs) h = ground (arith, tally-gone i ids xs, str_eq_iff x.job_id i)

pub tally-stays :
    (i : String) (ids : List String) (xs : List DeadLetter)
    → includes i ids ≡ false
    → tally (λ x. is_of i x && not (includes x.job_id ids)) xs ≡ tally (is_of i) xs
tally-stays i ids [] h = refl
tally-stays i ids (x ∷ xs) h = ground (arith, tally-stays i ids xs, str_eq_iff x.job_id i)

-- A dead letter whose job is among the removed ones is no longer found, and those of any other job
-- are as many as before.
pub find_dead_letter-remove_dead_letters :
    (c : Clock) (now : ℕ) (d : ConsoleData) (ids : List String) (i : String)
    → let r = remove_dead_letters c now d ids in
      (includes i ids ≡ true → find_dead_letter r i ≡ none)
      × (includes i ids ≡ false
          → tally (is_of i) r.snapshot.dead_letters ≡ tally (is_of i) d.snapshot.dead_letters)
unfolding find_dead_letter
find_dead_letter-remove_dead_letters c now d ids i =
    let left = tally-remove_dead_letters (is_of i) c now d ids in
    (
      λ h. find-none (is_of i) _ (left ∙ tally-gone i ids d.snapshot.dead_letters h),
      λ h. left ∙ tally-stays i ids d.snapshot.dead_letters h,
    )
