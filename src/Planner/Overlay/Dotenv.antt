-- ===== src/Planner/Overlay/Dotenv.antt =====
-- `parse_dotenv` on the lines that `lines` of the standard library yields, none of which has a line
-- break, and the round trip of the lines of a printed environment.
use apm_projectrunner.Base.{
  ℕ, ◌+◌, String, Bool, true, false, ◌||◌, List, [], ◌∷◌, ◌++◌, Option, none, some, Map, get,
  insert, insert-absent, contains_key, format, decimal, all, bytes, utf8, is_ascii_digit, codes,
  is_blank, is_whitespace, split_once, All, ◌≡◌, refl, ap, ◌∙◌, ◌==◌, string_eq, nat_eq,
  if◌then◌else◌, arith,
}
use apm_projectrunner.Planner.Overlay.{valid_environment_name, name_start, name_bytes}
use mathlib.Core.List.{append-nil, append_assoc}
use Prim.Native.Char.{Char, code}
use Prim.Native.String
use Prim.Native.String.append

pub data Read {ℓ} (A : Type ℓ) : Type ℓ where
  ok : A → Read A
  err : String → Read A

-- `raw.trim_end_matches('\r')`.
abbrev kept : Char → String → String
kept c String.[] = if code c == 13 then String.[] else String.◌∷◌ c String.[]
kept c (String.◌∷◌ d s) = String.◌∷◌ c (String.◌∷◌ d s)

unfoldable pub trim_returns : String → String
trim_returns String.[] = String.[]
trim_returns (String.◌∷◌ c s) = kept c (trim_returns s)

abbrev hash_first : List ℕ → Bool
hash_first [] = false
hash_first (c ∷ cs) = if is_whitespace c then hash_first cs else c == b'#'

-- A line that says nothing.
unfoldable pub is_comment : String → Bool
is_comment line = is_blank line || hash_first (codes line)

abbrev misplaced : ℕ → String → String → Read (Map String String)
misplaced index what key = err (format ("line " ∷ decimal (index + 1) ∷ what ∷ key ∷ "`" ∷ []))

-- The line, split at its first sign of equality.
abbrev entered :
    ℕ
    → Option (String × String)
    → Map String String
    → (Map String String → Read (Map String String))
    → Read (Map String String)
entered index none values next =
    err (format ("line " ∷ decimal (index + 1) ∷ " must be KEY=VALUE" ∷ []))
entered index (some (key, value)) values next =
    if valid_environment_name key
    then if contains_key key values
      then misplaced index " repeats environment key `" key
      else next (insert key value values)
    else misplaced index " has invalid environment key `" key

unfoldable pub parse_lines : ℕ → List String → Map String String → Read (Map String String)
parse_lines index [] values = ok values
parse_lines index (raw ∷ rest) values =
    let line = trim_returns raw in
    if is_comment line
    then parse_lines (index + 1) rest values
    else entered index (split_once b'=' line) values (λ m. parse_lines (index + 1) rest m)

unfoldable pub parse_dotenv : List String → Read (Map String String)
parse_dotenv lines = parse_lines 0 lines []

-- A file with one line for each entry.
abbrev pub print : Map String String → List String
print [] = []
print ((key, value) ∷ rest) = String.◌++◌ key (String.◌++◌ "=" value) ∷ print rest

-- The keys are names, no two are one, and no value ends in a carriage return.
abbrev pub IsEnvironment : Map String String → Type 0
IsEnvironment [] = Unit
IsEnvironment ((key, value) ∷ rest) =
    (valid_environment_name key ≡ true)
    × (contains_key key rest ≡ false)
    × (trim_returns value ≡ value)
    × IsEnvironment rest

trim_returns-entry :
    (key value : String)
    → trim_returns (String.◌++◌ key (String.◌++◌ "=" value))
      ≡ String.◌++◌ key (String.◌++◌ "=" (trim_returns value))
unfolding trim_returns
trim_returns-entry String.[] value =
    rw
      (
        append.nil (String.◌++◌ "=" value),
        append.nil (String.◌++◌ "=" (trim_returns value)),
        append.cons "=" String.[] value,
        append.nil value,
        append.cons "=" String.[] (trim_returns value),
        append.nil (trim_returns value),
      )
      (sign (trim_returns value))
  where
    sign : (s : String) → kept "=" s ≡ String.◌∷◌ "=" s
    sign String.[] = refl
    sign (String.◌∷◌ d s) = refl
trim_returns-entry (String.◌∷◌ c s) value =
    rw
      (
        append.cons c s (String.◌++◌ "=" value),
        trim_returns-entry s value,
        append.cons c s (String.◌++◌ "=" (trim_returns value)),
      )
      (more s)
  where
    more :
        (t : String)
        → kept c (String.◌++◌ t (String.◌++◌ "=" (trim_returns value)))
          ≡ String.◌∷◌ c (String.◌++◌ t (String.◌++◌ "=" (trim_returns value)))
    more String.[] =
        rw
          (
            append.nil (String.◌++◌ "=" (trim_returns value)),
            append.cons "=" String.[] (trim_returns value),
          )
          refl
    more (String.◌∷◌ d t) = rw (append.cons d t (String.◌++◌ "=" (trim_returns value))) refl

-- The code points of a name.
abbrev named_codes : List ℕ → Bool
named_codes cs = all (λ c. name_start c || is_ascii_digit c) cs

utf8-names :
    (c : ℕ) (rest : List ℕ)
    → all (λ b. name_start b || is_ascii_digit b) (utf8 c ++ rest) ≡ true
    → (name_start c || is_ascii_digit c ≡ true)
      × (all (λ b. name_start b || is_ascii_digit b) rest ≡ true)
utf8-names c rest h = ground arith

bytes-names :
    (s : String)
    → all (λ b. name_start b || is_ascii_digit b) (bytes s) ≡ true
    → named_codes (codes s) ≡ true
bytes-names String.[] h = refl
bytes-names (String.◌∷◌ c s) h =
    let (first, rest) = utf8-names (code c) (bytes s) h in ground (arith, bytes-names s rest)

split_once-name :
    (key value : String)
    → named_codes (codes key) ≡ true
    → split_once b'=' (String.◌++◌ key (String.◌++◌ "=" value)) ≡ some (key, value)
unfolding split_once
split_once-name String.[] value h =
    rw (append.nil (String.◌++◌ "=" value), append.cons "=" String.[] value, append.nil value) refl
split_once-name (String.◌∷◌ c s) value h =
    rw (append.cons c s (String.◌++◌ "=" value)) (ground (arith, split_once-name s value))

utf8-start :
    (c : ℕ) (rest : List ℕ)
    → name_bytes (utf8 c ++ rest) ≡ true
    → (name_start c ≡ true) × (all (λ b. name_start b || is_ascii_digit b) rest ≡ true)
utf8-start c rest h = ground arith

start_plain : (c : ℕ) → name_start c ≡ true → (is_whitespace c ≡ false) × ((c == b'#') ≡ false)
start_plain c h = ground arith

-- A line that starts with a name says something.
name_line :
    (key value : String)
    → valid_environment_name key ≡ true
    → (is_comment (String.◌++◌ key (String.◌++◌ "=" value)) ≡ false)
      × (named_codes (codes key) ≡ true)
unfolding valid_environment_name is_comment is_blank
name_line String.[] value h = absurd (ground arith)
name_line (String.◌∷◌ c s) value h =
    let (first, rest) = utf8-start (code c) (bytes s) h in
    let (visible, plain) = start_plain (code c) first in
    (
      rw (append.cons c s (String.◌++◌ "=" value), visible, plain) refl,
      ground (arith, bytes-names s rest),
    )

abbrev Apart : Map String String → Map String String → Type 0
Apart m rest = All (λ (key, value). contains_key key m ≡ false) rest

contains_key-append :
    (k key value : String) (m : Map String String)
    → contains_key k m ≡ false
    → (key == k) ≡ false
    → contains_key k (m ++ (key, value) ∷ []) ≡ false
unfolding get
contains_key-append k key value [] h e = ground arith
contains_key-append k key value ((j, v) ∷ rest) h e =
    ground (arith, contains_key-append k key value rest)

Apart-append :
    (key value : String) (m rest : Map String String)
    → Apart m rest
    → contains_key key rest ≡ false
    → Apart (m ++ (key, value) ∷ []) rest
unfolding get
Apart-append key value m [] a h = tt
Apart-append key value m ((k, v) ∷ rest) (free, a) h = (
  contains_key-append k key value m free
      (ground (arith, string_eq.beq_correct k key, string_eq.beq_correct key k)),
  Apart-append key value m rest a (ground arith),
)

parse_lines-print :
    (index : ℕ) (m done : Map String String)
    → IsEnvironment m
    → Apart done m
    → parse_lines index (print m) done ≡ ok (done ++ m)
unfolding parse_lines
parse_lines-print index [] done h a = rw (append-nil done) refl
parse_lines-print index ((key, value) ∷ rest) done (valid, fresh, ends, h) (free, a) =
    let (said, named) = name_line key value valid in
    rw
      (
        trim_returns-entry key value,
        ends,
        said,
        split_once-name key value named,
        valid,
        free,
        insert-absent key value done free,
      )
      (parse_lines-print (index + 1) rest (done ++ (key, value) ∷ []) h
          (Apart-append key value done rest a fresh)
        ∙ ap ok (append_assoc done ((key, value) ∷ []) rest))

Apart-nil : (m : Map String String) → Apart [] m
unfolding get
Apart-nil [] = tt
Apart-nil ((key, value) ∷ rest) = (refl, Apart-nil rest)

-- Lines `KEY=VALUE`, one for each entry, are read as those entries, if the keys are names, no two are
-- one, and no value ends in a carriage return.
pub parse_dotenv-print : (m : Map String String) → IsEnvironment m → parse_dotenv (print m) ≡ ok m
unfolding parse_dotenv
parse_dotenv-print m h = parse_lines-print 0 m [] h (Apart-nil m)
