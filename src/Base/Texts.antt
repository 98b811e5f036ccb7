-- ===== src/Base/Texts.antt =====
-- Texts: equality, emptiness, trimming, and numbers in a template text.
use Prim.Native.Nat.{ℕ, zero, suc, ◌/◌, ◌%◌}
use Prim.Native.Char.{Char, code}
use Prim.Native.String.{String}
use mathlib.Core.Path.{◌≡◌, refl}
use native.Mathlib.Omega.{arith}
use mathlib.Core.List.{List, [], ◌∷◌}
use mathlib.Core.Bool.{Bool, true, false, ◌&&◌, ◌||◌, not}
use distributed_job_platform.Base.Tests.{if◌then◌else◌, leb, ltb, ◌==◌}
unfoldable pub use text.Mathlib.Text.{◌==◌ as str_eq}
pub use text.Mathlib.TextEquality.{eq_iff as str_eq_iff}
pub use text.Mathlib.TextPositions.{eq_refl as str_eq_refl}
pub use Prim.Native.String.{◌++◌ as append}

-- A text is truthy unless it is empty.
abbrev pub truthy : String → Bool
truthy String.[] = false
truthy (String.◌∷◌ c s) = true

-- `a || b` on texts.
abbrev pub or_text : String → String → String
or_text a b = if truthy a then a else b

-- The code points that `String.prototype.trim` removes.
abbrev pub is_space : ℕ → Bool
is_space n =
    (leb 9 n && leb n 13)
    || n == 32
    || n == 160
    || n == 5760
    || (leb 8192 n && leb n 8202)
    || n == 8232
    || n == 8233
    || n == 8239
    || n == 8287
    || n == 12288
    || n == 65279

unfoldable pub trim_start : String → String
trim_start String.[] = String.[]
trim_start (String.◌∷◌ c s) = if is_space (code c) then trim_start s else String.◌∷◌ c s

unfoldable pub trim_end : String → String
trim_end String.[] = String.[]
trim_end (String.◌∷◌ c s) =
    let rest = trim_end s in
    if is_space (code c) && not (truthy rest) then String.[] else String.◌∷◌ c rest

unfoldable pub trim : String → String
unfolding trim_start trim_end
trim s = trim_end (trim_start s)

-- Trimming the end leaves a text alone that has been trimmed there already, and a text that starts with
-- something else than white space still does.
trim_end-trim_end : (s : String) → trim_end (trim_end s) ≡ trim_end s
unfolding trim_end
trim_end-trim_end String.[] = refl
trim_end-trim_end (String.◌∷◌ c s) = ground (arith, trim_end-trim_end s)

trim_start-trim_start :
    (s : String) → trim_start (trim_end (trim_start s)) ≡ trim_end (trim_start s)
unfolding trim_start trim_end
trim_start-trim_start String.[] = refl
trim_start-trim_start (String.◌∷◌ c s) = ground (arith, trim_start-trim_start s)

pub trim-trim : (s : String) → trim (trim s) ≡ trim s
unfolding trim
trim-trim s = rw (trim_start-trim_start s) (trim_end-trim_end (trim_start s))

abbrev cons_char : Char → List String → List String
cons_char c [] = String.◌∷◌ c String.[] ∷ []
cons_char c (word ∷ words) = String.◌∷◌ c word ∷ words

-- `split` at each character of a class.
unfoldable pub split_by : (ℕ → Bool) → String → List String
split_by sep String.[] = String.[] ∷ []
split_by sep (String.◌∷◌ c s) =
    let rest = split_by sep s in if sep (code c) then String.[] ∷ rest else cons_char c rest

abbrev digit : ℕ → String
digit zero = "0"
digit (suc zero) = "1"
digit (suc (suc zero)) = "2"
digit (suc (suc (suc zero))) = "3"
digit (suc (suc (suc (suc zero)))) = "4"
digit (suc (suc (suc (suc (suc zero))))) = "5"
digit (suc (suc (suc (suc (suc (suc zero)))))) = "6"
digit (suc (suc (suc (suc (suc (suc (suc zero))))))) = "7"
digit (suc (suc (suc (suc (suc (suc (suc (suc zero)))))))) = "8"
digit _ = "9"

-- The digits of a number before a text; a number has at most as many digits as it counts, plus one.
decimal_from : ℕ → ℕ → String → String
decimal_from zero n rest = rest
decimal_from (suc f) n rest =
    let more = decimal_from f (n / 10) (append (digit (n % 10)) rest) in
    if ltb n 10 then append (digit n) rest else more

-- `${n}` for a whole number n.
unfoldable pub decimal : ℕ → String
unfolding decimal_from
decimal n = decimal_from (suc n) n ""
