-- ===== src/Json.antt =====
-- Values as `JSON.parse` gives them. A number is named by the text that `JSON.stringify` prints for
-- it; an object lists its fields in the order of `Object.keys`.
use distributed_job_platform.Base.{String, Bool, true, false, List, [], ◌∷◌, Option, none, some}
use distributed_job_platform.Base.{str_eq, if◌then◌else◌}

mutual
  pub data Json : Type 0 where
    null : Json
    boolean : Bool → Json
    number : String → Json
    text : String → Json
    array : Items → Json
    object : Fields → Json

  pub data Items : Type 0 where
    nil : Items
    cons : Json → Items → Items

  pub data Fields : Type 0 where
    end : Fields
    field : String → Json → Fields → Fields

-- A field that is not there reads as `undefined`, here `none`.
abbrev pub member : String → Fields → Option Json
member k end = none
member k (field j v fs) = if str_eq j k then some v else member k fs

abbrev pub items : Items → List Json
items nil = []
items (cons v vs) = v ∷ items vs

abbrev pub is_text : Json → Bool
is_text (text s) = true
is_text _ = false

abbrev pub is_text_field : Option Json → Bool
is_text_field (some (text s)) = true
is_text_field _ = false
