-- ===== src/Base/Text.antt =====
-- Texts: the bytes of a `str`, formatting, and the methods of `str` and `[u8]` that the code calls.
use Prim.Native.Nat.{ℕ, zero, suc, ◌+◌, ◌/◌, ◌%◌}
use Prim.Native.Char.{Char, code}
use Prim.Native.String.{String}
use Prim.Native.String
use mathlib.Core.Bool.{Bool, true, false, ◌&&◌, ◌||◌}
use mathlib.Core.List.{List, [], ◌∷◌, ◌++◌, reverse}
use mathlib.Core.Option.{Option, none, some}
use apm_projectrunner.Base.Tests.{ltb, leb, ◌==◌, nat_eq, list_eq, if◌then◌else◌}

-- The UTF-8 encoding of a code point.
abbrev pub utf8 : ℕ → List ℕ
utf8 c =
    if ltb c 0x80
    then c ∷ []
    else if ltb c 0x800
    then (0xc0 + c / 64) ∷ (0x80 + c % 64) ∷ []
    else if ltb c 0x10000
    then (0xe0 + c / 4096) ∷ (0x80 + c / 64 % 64) ∷ (0x80 + c % 64) ∷ []
    else (0xf0 + c / 262144) ∷ (0x80 + c / 4096 % 64) ∷ (0x80 + c / 64 % 64) ∷ (0x80 + c % 64) ∷ []

-- `str::as_bytes`.
abbrev pub bytes : String → List ℕ
bytes String.[] = []
bytes (String.◌∷◌ c s) = utf8 (code c) ++ bytes s

-- The parts of a `format!` in order.
abbrev pub format : List String → String
format [] = ""
format (s ∷ parts) = String.◌++◌ s (format parts)

abbrev pub join : String → List String → String
join sep [] = ""
join sep (s ∷ []) = s
join sep (s ∷ t ∷ parts) = String.◌++◌ s (String.◌++◌ sep (join sep (t ∷ parts)))

digit : ℕ → String
digit d =
    if d == 0
    then "0"
    else if d == 1
    then "1"
    else if d == 2
    then "2"
    else if d == 3
    then "3"
    else if d == 4
    then "4"
    else if d == 5
    then "5"
    else if d == 6
    then "6"
    else if d == 7
    then "7"
    else if d == 8
    then "8"
    else "9"

-- The decimal digits of a number, with fuel for the quotients; the number itself is enough.
decimal_from : ℕ → ℕ → String
decimal_from zero n = digit n
decimal_from (suc f) n =
    let longer = String.◌++◌ (decimal_from f (n / 10)) (digit (n % 10)) in
    if ltb n 10 then digit n else longer

-- `n.to_string()`.
unfoldable pub decimal : ℕ → String
unfolding decimal_from digit
decimal n = decimal_from n n

abbrev pub is_ascii_lowercase : ℕ → Bool
is_ascii_lowercase b = leb b'a' b && leb b b'z'

abbrev pub is_ascii_digit : ℕ → Bool
is_ascii_digit b = leb b'0' b && leb b b'9'

abbrev pub is_ascii_uppercase : ℕ → Bool
is_ascii_uppercase b = leb b'A' b && leb b b'Z'

abbrev pub is_ascii_alphanumeric : ℕ → Bool
is_ascii_alphanumeric b = is_ascii_lowercase b || is_ascii_uppercase b || is_ascii_digit b

abbrev pub to_ascii_lowercase : ℕ → ℕ
to_ascii_lowercase b = if is_ascii_uppercase b then b + 32 else b

-- `split(sep)` on a byte that is a whole character: the pieces between separators, in order.
abbrev pub split : ℕ → List ℕ → List (List ℕ)
split sep [] = [] ∷ []
split sep (b ∷ bs) = attach (b == sep) b (split sep bs)
  where
    attach : Bool → ℕ → List (List ℕ) → List (List ℕ)
    attach true c pieces = [] ∷ pieces
    attach false c [] = (c ∷ []) ∷ []
    attach false c (piece ∷ pieces) = (c ∷ piece) ∷ pieces

abbrev pub starts_with : List ℕ → List ℕ → Bool
starts_with bs [] = true
starts_with [] (p ∷ prefix) = false
starts_with (b ∷ bs) (p ∷ prefix) = (b == p) && starts_with bs prefix

abbrev pub ends_with : List ℕ → List ℕ → Bool
ends_with bs suffix = starts_with (reverse bs) (reverse suffix)

abbrev pub drop_leading : ℕ → List ℕ → List ℕ
drop_leading c [] = []
drop_leading c (b ∷ bs) = if b == c then drop_leading c bs else b ∷ bs

abbrev pub trim_end_matches : ℕ → List ℕ → List ℕ
trim_end_matches c bs = reverse (drop_leading c (reverse bs))

-- The code points of a text.
abbrev pub codes : String → List ℕ
codes String.[] = []
codes (String.◌∷◌ c s) = code c ∷ codes s

-- `char::is_whitespace`: the characters with the property White_Space.
abbrev pub is_whitespace : ℕ → Bool
is_whitespace c =
    (leb 9 c && leb c 13)
    || c == 0x20
    || c == 0x85
    || c == 0xa0
    || c == 0x1680
    || (leb 0x2000 c && leb c 0x200a)
    || c == 0x2028
    || c == 0x2029
    || c == 0x202f
    || c == 0x205f
    || c == 0x3000

-- `s.trim().is_empty()`.
unfoldable pub is_blank : String → Bool
is_blank s = all_whitespace (codes s)
  where
    all_whitespace : List ℕ → Bool
    all_whitespace [] = true
    all_whitespace (c ∷ cs) = is_whitespace c && all_whitespace cs

-- `haystack.contains(needle)`, on bytes.
abbrev pub contains_text : List ℕ → List ℕ → Bool
contains_text [] needle = starts_with [] needle
contains_text (b ∷ bs) needle = starts_with (b ∷ bs) needle || contains_text bs needle

-- `split_once(c)` at the first character with that code.
abbrev pub cons_left : Char → Option (String × String) → Option (String × String)
cons_left c none = none
cons_left c (some (before, after)) = some (String.◌∷◌ c before, after)

unfoldable pub split_once : ℕ → String → Option (String × String)
split_once sep String.[] = none
split_once sep (String.◌∷◌ c s) =
    if code c == sep then some (String.[], s) else cons_left c (split_once sep s)

-- `s.replace(c, "-")` for the character with that code.
unfoldable pub replace : ℕ → String → String
replace old String.[] = String.[]
replace old (String.◌∷◌ c s) =
    let rest = replace old s in if code c == old then String.◌++◌ "-" rest else String.◌∷◌ c rest
