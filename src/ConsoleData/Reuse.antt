-- ===== src/ConsoleData/Reuse.antt =====
-- Keeping the values that a refresh did not change (src/lib/console-data.ts, `reuseList`,
-- `reuseValue`, `sameValue`). Values are compared by the text that `stableSerialize` gives, which
-- is a function of the values here; Stabilizing gives it.
use distributed_job_platform.Base.{
  String, Bool, false, not, ◌||◌, ◌==◌, List, [], ◌∷◌, Option, none, some, length, lookup, insert,
  str_eq, if◌then◌else◌,
}

module _ {A : Type 0} (stable_serialize : A → String) where
  pub same_value : A → A → Bool
  same_value left right = str_eq (stable_serialize left) (stable_serialize right)

  pub reuse_value : A → A → A
  unfolding same_value
  reuse_value previous next = if same_value previous next then previous else next

  -- The item itself, or the one that was found in its place.
  abbrev pub reuse_found : Option A → A → A
  reuse_found none item = item
  reuse_found (some existing) item = if same_value existing item then existing else item

  abbrev pub is_found : Option A → A → Bool
  is_found none item = false
  is_found (some existing) item = same_value existing item

-- `new Map(entries)`: the last entry of a key stands.
pub index_by : {A : Type 0} → (A → String) → List (String × A) → List A → List (String × A)
index_by get_key table [] = table
index_by get_key table (x ∷ xs) = index_by get_key (insert (get_key x) x table) xs

module _ {A : Type 0} (stable_serialize : A → String) (get_key : A → String) where
  abbrev pub reuse_item : List (String × A) → A → A
  reuse_item table item = reuse_found stable_serialize (lookup (get_key item) table) item

  abbrev pub is_known : List (String × A) → A → Bool
  is_known table item = is_found stable_serialize (lookup (get_key item) table) item

  -- The loop: the items, and whether one of them changed.
  pub resolve : List (String × A) → Bool → List A → Bool × List A
  resolve table changed [] = (changed, [])
  resolve table changed (item ∷ items) =
      let (later, resolved) = resolve table (changed || not (is_known table item)) items in
      (later, reuse_item table item ∷ resolved)

  pub reuse_list : List A → List A → List A
  reuse_list previous next =
      let (changed, resolved) =
        resolve (index_by get_key [] previous) (not (length previous == length next)) next in
      if changed then resolved else previous
