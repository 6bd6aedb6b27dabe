-- ===== src/RouterConfig/Net.antt =====
-- Host addresses: `is_local_host`, `is_loopback_host` and what they use of `std::net`, the parser
-- of `IpAddr` and its predicates.
use apm_projectrunner.Base.{
  ℕ, zero, suc, ◌+◌, ◌-◌, ◌*◌, String, ◌≡◌, refl, Bool, true, false, not, ◌&&◌, ◌||◌, List, [], ◌∷◌,
  ◌++◌, map, Option, none, some, ltb, leb, ◌==◌, nat_eq, list_eq, if◌then◌else◌, length, bytes,
  is_ascii_digit, to_ascii_lowercase, ends_with, trim_end_matches,
}
use apm_projectrunner.RouterConfig.Model.{IpAddr, v4, v6}

abbrev pub is_ipv4 : IpAddr → Bool
is_ipv4 (v4 a b c d) = true
is_ipv4 (v6 s) = false

abbrev pub is_loopback : IpAddr → Bool
is_loopback (v4 a b c d) = a == 127
is_loopback (v6 s) = s == 0 ∷ 0 ∷ 0 ∷ 0 ∷ 0 ∷ 0 ∷ 0 ∷ 1 ∷ []

abbrev pub is_unspecified : IpAddr → Bool
is_unspecified (v4 a b c d) = a == 0 && b == 0 && c == 0 && d == 0
is_unspecified (v6 s) = s == 0 ∷ 0 ∷ 0 ∷ 0 ∷ 0 ∷ 0 ∷ 0 ∷ 0 ∷ []

-- A reader returns its value and the bytes that it leaves.
Reader : Type 0 → Type 0
Reader A = List ℕ → Option (A × List ℕ)

-- `char::to_digit(radix)` for radix 10 and 16.
to_digit : ℕ → ℕ → Option ℕ
to_digit radix b =
    if is_ascii_digit b
    then some (b - b'0')
    else if radix == 16 && leb b'a' (to_ascii_lowercase b) && leb (to_ascii_lowercase b) b'f'
    then some (to_ascii_lowercase b - b'a' + 10)
    else none

-- The digits at the front, as a value and their number.
read_digits : ℕ → ℕ → ℕ → List ℕ → ℕ × ℕ × List ℕ
read_digits radix value count [] = (value, count, [])
read_digits radix value count (b ∷ bs) = elim (to_digit radix b) [
  | none ↦ (value, count, b ∷ bs)
  | some d ↦ read_digits radix (value * radix + d) (count + 1) bs
]

starts_with_zero : List ℕ → Bool
starts_with_zero [] = false
starts_with_zero (b ∷ bs) = b == b'0'

-- `read_number(radix, Some(max_digits), allow_zero_prefix)` for a type with `bound` values.
read_number : ℕ → ℕ → Bool → ℕ → List ℕ → Option (ℕ × List ℕ)
unfolding read_digits to_digit starts_with_zero
read_number radix max_digits allow_zero bound bs =
    let (value, count, rest) = read_digits radix 0 0 bs in
    if ltb max_digits count
      || count == 0
      || (not allow_zero && starts_with_zero bs && ltb 1 count)
      || leb bound value
    then none
    else some (value, rest)

read_char : ℕ → List ℕ → Option (List ℕ)
read_char c [] = none
read_char c (b ∷ bs) = if b == c then some bs else none

infixl 5 ◌>>=◌
abbrev ◌>>=◌ : {A B : Type 0} → Option A → (A → Option B) → Option B
none >>= f = none
some a >>= f = f a

read_octet : List ℕ → Option (ℕ × List ℕ)
unfolding read_number
read_octet = read_number 10 3 false 256

read_ipv4 : List ℕ → Option (IpAddr × List ℕ)
unfolding read_octet read_char
read_ipv4 bs = do
  (a, bs) ← read_octet bs
  bs ← read_char b'.' bs
  (b, bs) ← read_octet bs
  bs ← read_char b'.' bs
  (c, bs) ← read_octet bs
  bs ← read_char b'.' bs
  (d, bs) ← read_octet bs
  some (v4 a b c d, bs)

-- `read_separator(':', index, ..)`: the separator stands before every group but the first.
separator : Bool → List ℕ → Option (List ℕ)
unfolding read_char
separator true bs = some bs
separator false bs = read_char b':' bs

v4_groups : IpAddr → List ℕ
v4_groups (v4 a b c d) = (a * 256 + b) ∷ (c * 256 + d) ∷ []
v4_groups (v6 s) = []

-- `read_groups` with `room` groups left: the groups, whether they end in an IPv4 address, and the
-- rest.
read_groups : ℕ → Bool → List ℕ → List ℕ × Bool × List ℕ
read_groups zero first bs = ([], false, bs)
read_groups (suc room) first bs =
    let embedded : Option (IpAddr × List ℕ) = (do bs ← separator first bs; read_ipv4 bs) in
    let group : Option (ℕ × List ℕ) = (do
      bs ← separator first bs
      read_number 16 4 true 65536 bs) in
    let plain : List ℕ × Bool × List ℕ = elim group [
      | none ↦ ([], false, bs)
      | some (g, rest) ↦ let (gs, ipv4, rest) = read_groups room false rest in (g ∷ gs, ipv4, rest)
    ] in
    if ltb 0 room
    then elim embedded [ none ↦ plain | some (ip, rest) ↦ (v4_groups ip, true, rest) ]
    else plain

zeros : ℕ → List ℕ
zeros zero = []
zeros (suc n) = 0 ∷ zeros n

read_ipv6 : List ℕ → Option (IpAddr × List ℕ)
unfolding read_groups separator read_ipv4 v4_groups zeros read_char read_number
read_ipv6 bs =
    let (head, head_ipv4, rest) = read_groups 8 true bs in
    let compressed : Option (IpAddr × List ℕ) = (do
      rest ← read_char b':' rest
      rest ← read_char b':' rest
      let found = read_groups (8 - (length head + 1)) true rest
      some (v6 (head ++ zeros (8 - length head - length found.0) ++ found.0), found.2)) in
    if length head == 8 then some (v6 head, rest) else if head_ipv4 then none else compressed

complete : Option (IpAddr × List ℕ) → Option IpAddr
complete (some (ip, [])) = some ip
complete _ = none

-- `str::parse::<IpAddr>`: the whole text is one address.
unfoldable pub parse_ip : List ℕ → Option IpAddr
unfolding read_ipv4 read_ipv6 complete
parse_ip bs = elim (read_ipv4 bs) [ some r ↦ complete (some r) | none ↦ complete (read_ipv6 bs) ]

parses_loopback : List ℕ → Bool
parses_loopback bs = elim (parse_ip bs) [ none ↦ false | some ip ↦ is_loopback ip ]

unfoldable pub is_local_host : String → Bool
unfolding parses_loopback parse_ip
is_local_host host =
    let normalized = map to_ascii_lowercase (trim_end_matches b'.' (bytes host)) in
    normalized == bytes "localhost"
    || ends_with normalized (bytes ".localhost")
    || parses_loopback normalized

unfoldable pub is_loopback_host : String → Bool
unfolding parses_loopback parse_ip
is_loopback_host host =
    map to_ascii_lowercase (bytes host) == bytes "localhost" || parses_loopback (bytes host)

hosts :
    (is_local_host "App.LocalHost." ≡ true)
    × (is_local_host "127.0.0.1" ≡ true)
    × (is_local_host "localhost.example" ≡ false)
    × (is_loopback_host "::1" ≡ true)
    × (is_loopback_host "127.00.0.1" ≡ false)
    × (is_loopback_host "10.0.0.1" ≡ false)
    × (is_loopback_host "0:0:0:0:0:0:0.0.0.1" ≡ true)
    × (is_loopback_host "1::" ≡ false)
unfolding is_local_host is_loopback_host
hosts = (refl, refl, refl, refl, refl, refl, refl, refl)
