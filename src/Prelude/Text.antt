-- ===== src/Prelude/Text.antt =====
-- The operations of Rust's texts that the program calls.
use Prim.Native.Nat.{ℕ, zero, suc, ◌-◌, ◌/◌, ◌%◌}
use Prim.Native.Char.{Char, code}
use Prim.Native.String.{String, [], ◌∷◌, ◌++◌, char_at}
use text.Mathlib.Text.{◌==◌ as str_eq}
use mathlib.Core.Bool.{Bool, true, false, ◌&&◌, ◌||◌}
use mathlib.Core.Option.{Option, none, some}
use mathlib.Core.List.{List}
use jev_trader.Prelude.Tests.{leb, ltb, ◌==◌, if◌then◌else◌}

-- `char::is_whitespace`: Unicode's White_Space.
abbrev is_whitespace : ℕ → Bool
is_whitespace c =
    leb 9 c && leb c 13
    || (c == 32 || c == 133 || c == 160 || c == 5760)
    || leb 8192 c && leb c 8202
    || (c == 8232 || c == 8233 || c == 8239 || c == 8287 || c == 12288)

-- `text.trim().is_empty()`
abbrev pub is_blank : String → Bool
is_blank [] = true
is_blank (c ∷ s) = is_whitespace (code c) && is_blank s

abbrev digit : ℕ → String
digit n =
    if n == 0
    then "0"
    else if n == 1
    then "1"
    else if n == 2
    then "2"
    else if n == 3
    then "3"
    else if n == 4
    then "4"
    else if n == 5
    then "5"
    else if n == 6
    then "6"
    else if n == 7
    then "7"
    else if n == 8
    then "8"
    else "9"

-- The last digits of a number, at most as many as the fuel.
decimal_from : ℕ → ℕ → String
decimal_from zero n = ""
decimal_from (suc fuel) n =
    let front = decimal_from fuel (n / 10) in if ltb n 10 then digit n else front ++ digit (n % 10)

-- `format!("{n}")`
unfoldable pub decimal : ℕ → String
unfolding decimal_from
decimal n = decimal_from (suc n) n

-- `format!("{n:02}")`. A number has fewer digits than it counts.
unfoldable pub decimal_02 : ℕ → String
unfolding decimal_from
decimal_02 n = let digits = decimal_from (suc n) n in if ltb n 10 then "0" ++ digits else digits

abbrev lower : Char → Char
lower c =
    if leb 65 (code c) && leb (code c) 90
    then char_at "abcdefghijklmnopqrstuvwxyz" (code c - 65)
    else c

-- `str::to_ascii_lowercase`
unfoldable pub to_ascii_lowercase : String → String
to_ascii_lowercase [] = []
to_ascii_lowercase (c ∷ s) = lower c ∷ to_ascii_lowercase s

-- `str::trim_start`
trim_start : String → String
trim_start [] = []
trim_start (c ∷ s) = let rest = trim_start s in if is_whitespace (code c) then rest else c ∷ s

-- `str::trim_end`
trim_end : String → String
trim_end [] = []
trim_end (c ∷ s) = let rest = trim_end s in if is_blank (c ∷ s) then [] else c ∷ rest

-- `str::trim`
unfoldable pub trim : String → String
unfolding trim_start trim_end
trim s = trim_end (trim_start s)

-- `str::split_once` at a character, given by its code.
unfoldable pub split_once : ℕ → String → Option (String × String)
split_once d [] = none
split_once d (c ∷ s) =
    let rest = split_once d s in
    if code c == d then some ([], s) else elim rest [ none ↦ none | some p ↦ some (c ∷ p.0, p.1) ]

-- `char::is_ascii_alphanumeric`
abbrev pub is_ascii_alphanumeric : ℕ → Bool
is_ascii_alphanumeric c = leb 48 c && leb c 57 || leb 65 c && leb c 90 || leb 97 c && leb c 122

abbrev prepend : Char → List String → List String
prepend c List.[] = List.◌∷◌ (c ∷ []) List.[]
prepend c (List.◌∷◌ t ts) = List.◌∷◌ (c ∷ t) ts

-- `str::split` at the characters that satisfy a test: one part more than there are such characters.
unfoldable pub split : (ℕ → Bool) → String → List String
split is_end [] = List.◌∷◌ [] List.[]
split is_end (c ∷ s) =
    let rest = split is_end s in if is_end (code c) then List.◌∷◌ [] rest else prepend c rest

-- `str::starts_with`
abbrev pub starts_with : String → String → Bool
starts_with [] s = true
starts_with (p ∷ ps) [] = false
starts_with (p ∷ ps) (c ∷ s) = (code p == code c) && starts_with ps s

-- `str::contains`
unfoldable pub contains : String → String → Bool
contains part [] = starts_with part []
contains part (c ∷ s) = starts_with part (c ∷ s) || contains part s

-- Whether a text is one of a list of literals.
abbrev pub is_one_of : String → List String → Bool
is_one_of s List.[] = false
is_one_of s (List.◌∷◌ t ts) = str_eq s t || is_one_of s ts

-- `format!("{a}{b}")`, by clauses, so that it computes before a text that is not given.
infixr 65 ◌<>◌
abbrev pub ◌<>◌ : String → String → String
[] <> t = t
(c ∷ s) <> t = c ∷ (s <> t)
