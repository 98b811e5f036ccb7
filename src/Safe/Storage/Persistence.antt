-- ===== src/Safe/Storage/Persistence.antt =====
-- Saving and loading a setting (src/hooks/usePersistentState.ts).
use distributed_job_platform.Base.{
  ◌≡◌, refl, ◌∙◌, String, true, false, List, some, lookup-insert, lookup-remove, truthy, trim,
  trim_start, trim_end, or_text, str_eq, str_eq_refl, if◌then◌else◌, Bool-cases, inl, inr,
}
use distributed_job_platform.Safe.Storage.{
  Storage, read_stored_value, write_stored_value, Codec, load, save,
}

-- A storage that works.
abbrev pub working : List (String × String) → Storage
working items = record { works = true; items = items }

-- What a key reads as after a value was written, and what the other keys read as.
read-write :
    (key next other fallback : String) (items : List (String × String))
    → read_stored_value other fallback (write_stored_value key next (working items)) ≡ (
        if str_eq key other
        then or_text (trim next) fallback
        else read_stored_value other fallback (working items))
unfolding read_stored_value write_stored_value trim trim_start trim_end
read-write key String.[] other fallback items =
    rw (lookup-remove key other items)
      (elim (Bool-cases (str_eq key other)) [ inl e ↦ rw e refl | inr e ↦ rw e refl ])
read-write key (String.◌∷◌ c s) other fallback items =
    rw (lookup-insert key other (String.◌∷◌ c s) items)
      (elim (Bool-cases (str_eq key other)) [ inl e ↦ rw e refl | inr e ↦ rw e refl ])

-- In a storage that works, a value that is saved and whose text, trimmed, is not empty and reads as the value is loaded again after
-- the page was left, whatever the fallback; one whose text is blank is loaded as the fallback; and what
-- stands under any other key is read as before.
pub load-save :
    {A : Type 0} (codec : Codec A) (key : String) (fallback v : A) (text : String)
    (items : List (String × String))
    → codec.serialize v ≡ some text
    → let later = save codec key v (working items) in
      (truthy (trim text) ≡ true
        → codec.deserialize (trim text) ≡ some v
        → load codec key fallback later ≡ v)
      × (truthy (trim text) ≡ false → load codec key fallback later ≡ fallback)
      × ((other default : String)
          → str_eq key other ≡ false
          → read_stored_value other default later ≡ read_stored_value other default (working items))
unfolding load save
load-save codec key fallback v text items h = (
  λ e k.
      rw h (rw (read-write key text key "" items) (rw (str_eq_refl key) (rw e (rw k (rw e refl))))),
  λ e. rw h (rw (read-write key text key "" items) (rw (str_eq_refl key) (rw e refl))),
  λ other default e. rw h (read-write key text other default items ∙ rw e refl),
)
