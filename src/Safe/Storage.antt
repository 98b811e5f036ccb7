-- ===== src/Safe/Storage.antt =====
-- Values that outlive the page: `readStoredValue`, `writeStoredValue` and `clearStoredValue` of
-- src/lib/safe.ts, `usePersistentState` of src/hooks/usePersistentState.ts, and the settings that
-- src/components/OpsConsole.tsx keeps with it.
pub mod Persistence
pub mod Tests
use distributed_job_platform.Base.{
  ℕ, String, Bool, true, false, not, List, Option, none, some, ◌==◌, decimal, lookup, insert,
  remove, truthy, trim, or_text, str_eq, if◌then◌else◌,
}
use distributed_job_platform.LiveRefresh.{or_empty}
use distributed_job_platform.Models.Transport.{PollingPreset, off, fast, medium, slow, interval_ms}

-- `window.localStorage`; where it does not work, every call of it throws.
pub record Storage : Type 0 where
  pub works : Bool
  pub items : List (String × String)

unfoldable pub read_stored_value : String → String → Storage → String
read_stored_value key fallback storage =
    if storage.works
    then or_text (trim (or_empty (lookup key storage.items))) fallback
    else fallback

unfoldable pub clear_stored_value : String → Storage → Storage
clear_stored_value key storage =
    if storage.works then record storage { items = remove key storage.items } else storage

unfoldable pub write_stored_value : String → String → Storage → Storage
write_stored_value key next storage =
    if storage.works
    then record storage {
      items = if truthy next then insert key next storage.items else remove key storage.items;
    }
    else storage

-- How a value is written and read; `none` is a call that throws.
pub record Codec (A : Type 0) : Type 0 where
  pub deserialize : String → Option A
  pub serialize : A → Option String

abbrev or_fallback : {A : Type 0} → A → Option A → A
or_fallback fallback none = fallback
or_fallback fallback (some v) = v

-- The state at the first rendering.
unfoldable pub load : {A : Type 0} → Codec A → String → A → Storage → A
load codec key fallback storage =
    let stored = read_stored_value key "" storage in
    if truthy stored then or_fallback fallback (codec.deserialize stored) else fallback

abbrev write_text : String → Option String → Storage → Storage
write_text key none storage = storage
write_text key (some next) storage = write_stored_value key next storage

-- The effect on the value.
unfoldable pub save : {A : Type 0} → Codec A → String → A → Storage → Storage
save codec key value storage = write_text key (codec.serialize value) storage

-- A text as it is; the switches of live mode and live updates; the interval of the polls, with `Number`.
abbrev pub text_codec : Codec String
text_codec = record { deserialize = some; serialize = some }

abbrev switch_text : Bool → String
switch_text true = "true"
switch_text false = "false"

abbrev pub switch_codec : Codec Bool
switch_codec = record {
  deserialize = λ raw. some (not (str_eq raw "false"));
  serialize = λ value. some (switch_text value);
}

abbrev preset_of : ℕ → PollingPreset
preset_of n =
    if n == 0 then off else if n == 5000 then fast else if n == 30000 then slow else medium

abbrev number_preset : Option ℕ → PollingPreset
number_preset none = medium
number_preset (some n) = preset_of n

abbrev pub preset_codec : (String → Option ℕ) → Codec PollingPreset
preset_codec number_of = record {
  deserialize = λ raw. some (number_preset (number_of raw));
  serialize = λ value. some (decimal (interval_ms value));
}
