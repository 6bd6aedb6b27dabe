-- ===== src/RouterConfig/Identifier.antt =====
-- `validate_identifier` and `validate_route_header_value`: the tests, without their error values.
use apm_projectrunner.Base.{
  ℕ, String, Bool, false, ◌&&◌, ◌||◌, List, [], ◌∷◌, Option, none, some, leb, ◌==◌, nat_eq,
  if◌then◌else◌, length, all, first?, last?, filter, is_ascii_lowercase, is_ascii_digit,
  is_ascii_alphanumeric, split, bytes,
}

abbrev is_some_and : (ℕ → Bool) → Option ℕ → Bool
is_some_and p none = false
is_some_and p (some b) = p b

abbrev is_identifier_byte : ℕ → Bool
is_identifier_byte b = is_ascii_lowercase b || is_ascii_digit b || b == b'-'

unfoldable pub valid_segment : List ℕ → Bool
valid_segment segment =
    leb 1 (length segment)
    && leb (length segment) 63
    && all is_identifier_byte segment
    && is_some_and is_ascii_alphanumeric (first? segment)
    && is_some_and is_ascii_alphanumeric (last? segment)

-- Whether `validate_identifier(value, allow_path, ..)` accepts.
unfoldable pub valid_identifier : Bool → String → Bool
unfolding valid_segment
valid_identifier allow_path value =
    if allow_path
    then all valid_segment (split b'/' (bytes value))
      && leb (length (filter (λ b. b == b'/') (bytes value))) 1
    else valid_segment (bytes value)

abbrev is_header_byte : ℕ → Bool
is_header_byte b =
    is_ascii_lowercase b || is_ascii_digit b || b == b'.' || b == b'_' || b == b':' || b == b'-'

starts_header : List ℕ → Bool
starts_header [] = false
starts_header (b ∷ bs) = (is_ascii_lowercase b || is_ascii_digit b) && all is_header_byte bs

-- Whether `validate_route_header_value` accepts.
unfoldable pub valid_header_value : String → Bool
unfolding starts_header
valid_header_value value =
    let bs = bytes value in leb 1 (length bs) && leb (length bs) 128 && starts_header bs
