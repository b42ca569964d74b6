-- ===== src/Base/Characters.antt =====
-- JavaScript strings by the character: `split`, `endsWith`, `toLowerCase`, `parseInt` and slices.
use Prim.Native.Nat.{ℕ, zero, suc, ◌+◌, ◌-◌, ◌*◌, ◌/◌, ◌%◌}
use mathlib.Core.Bool.{Bool, ◌&&◌, ◌||◌}
use mathlib.Core.Option.{Option, none, some, get_or}
use mathlib.Core.List.{List, [], ◌∷◌, ◌++◌, map}
use hrp_crm.Base.Tests.{leb, ltb, ◌==◌, if◌then◌else◌}
use hrp_crm.Base.Strings.{Text, text_eq}

abbrev pub is_digit : ℕ → Bool
is_digit c = leb 48 c && leb c 57

-- Of the letters only those of ASCII.
abbrev pub lower_code : ℕ → ℕ
lower_code c = if leb 65 c && leb c 90 then c + 32 else c

-- `s.toLowerCase()` of an ASCII string.
abbrev pub to_lower_case : Text → Text
to_lower_case = map lower_code

abbrev pub cons_first : ℕ → List Text → List Text
cons_first c [] = (c ∷ []) ∷ []
cons_first c (part ∷ parts) = (c ∷ part) ∷ parts

-- `s.split(separator)` at a single character.
unfoldable pub split : ℕ → Text → List Text
split separator [] = [] ∷ []
split separator (c ∷ s) =
    let parts = split separator s in if c == separator then [] ∷ parts else cons_first c parts

-- `s.endsWith(suffix)`
unfoldable pub ends_with : Text → Text → Bool
ends_with suffix [] = text_eq suffix []
ends_with suffix (c ∷ s) = text_eq suffix (c ∷ s) || ends_with suffix s

-- `s.slice(1, -1)`
abbrev pub drop_last : Text → Text
drop_last [] = []
drop_last (c ∷ []) = []
drop_last (c ∷ d ∷ s) = c ∷ drop_last (d ∷ s)

abbrev pub inner_slice : Text → Text
inner_slice [] = []
inner_slice (c ∷ s) = drop_last s

-- A number that `Number.parseInt(s, 10)` returns.
pub data ParsedInt : Type 0 where
  not_a_number below_zero : ParsedInt
  number : ℕ → ParsedInt

abbrev is_space : ℕ → Bool
is_space c =
    (leb 9 c && leb c 13)
    || c == 32
    || c == 160
    || c == 5760
    || (leb 8192 c && leb c 8202)
    || c == 8232
    || c == 8233
    || c == 8239
    || c == 8287
    || c == 12288
    || c == 65279

abbrev skip_space : Text → Text
skip_space [] = []
skip_space (c ∷ s) = let rest = skip_space s in if is_space c then rest else c ∷ s

-- The digits that a string starts with, after those read so far.
abbrev pub read_digits : Option ℕ → Text → Option ℕ
read_digits read [] = read
read_digits read (c ∷ s) =
    let rest = read_digits (some (get_or read 0 * 10 + (c - 48))) s in
    if is_digit c then rest else read

abbrev positive : Option ℕ → ParsedInt
positive none = not_a_number
positive (some n) = number n

abbrev negative : Option ℕ → ParsedInt
negative none = not_a_number
negative (some n) = if n == 0 then number 0 else below_zero

abbrev signed : Text → ParsedInt
signed [] = not_a_number
signed (c ∷ s) =
    if c == 45
    then negative (read_digits none s)
    else if c == 43
    then positive (read_digits none s)
    else positive (read_digits none (c ∷ s))

unfoldable pub parse_int : Text → ParsedInt
parse_int s = signed (skip_space s)

-- `n.toString()`, on fuel; a number has no more digits than it counts.
abbrev digits : ℕ → ℕ → Text
digits zero n = (48 + n % 10) ∷ []
digits (suc fuel) n =
    let rest = digits fuel (n / 10) in
    if ltb n 10 then (48 + n) ∷ [] else rest ++ (48 + n % 10) ∷ []

abbrev pub decimal : ℕ → Text
decimal n = digits n n
