-- ===== src/RouterTcp/Transparent.antt =====
-- `forward_transparent` up to the copying of bytes: which endpoint a connection is joined to. The
-- network (which connects succeed, what the kernel's table and the other members' registries list)
-- is an argument, as it stands while the call runs.
use apm_projectrunner.Base.{
  ℕ, String, Bool, false, ◌&&◌, not, List, [], ◌∷◌, Option, none, some, filter, contains, nat_beq,
  nat_eq, option_eq, if◌then◌else◌, format, decimal, join, map,
}

abbrev pub transparent_registry_port : ℕ
transparent_registry_port = 65534

pub record TransparentTarget : Type 0 where
  pub component : String
  pub host : String
  pub local : Bool
  pub declared_ports : Option (List ℕ)

pub data Destination : Type 0 where
  loopback_v4 : ℕ → Destination
  loopback_v6 : ℕ → Destination
  remote : String → ℕ → Destination

-- What the calls of the operating system and of other members answer.
pub record Network : Type 0 where
  pub connects : Destination → Bool
  pub listening_ports : Option (List ℕ)
  pub observed_listeners : String → Option (List ℕ)

-- The original destination of the redirected connection.
pub record Original : Type 0 where
  pub is_loopback : Bool
  pub is_ipv4 : Bool
  pub port : ℕ

-- How the call ends: the registry answer, a connection to a group member or to the own localhost,
-- or an error.
pub data Outcome : Type 0 where
  answered : String → Outcome
  to_member : TransparentTarget → Destination → Outcome
  to_own : Destination → Outcome
  table_error : Outcome
  connection_refused : String → Outcome
  not_found : String → Outcome

abbrev pub with_declared_ports : TransparentTarget → List ℕ → TransparentTarget
with_declared_ports t ports = record t { declared_ports = some ports }

abbrev pub lists : Option (List ℕ) → ℕ → Bool
lists none port = false
lists (some ports) port = contains port ports

-- `declares_port(port) == Some(false)`.
abbrev pub denies : Option (List ℕ) → ℕ → Bool
denies none port = false
denies (some ports) port = not (contains port ports)

abbrev pub ports_of : Network → TransparentTarget → Option (List ℕ) → Option (List ℕ)
ports_of net t (some ports) = some ports
ports_of net t none = if t.local then net.listening_ports else net.observed_listeners t.host

-- One entry of what `observe_targets` returns.
unfoldable pub observed : Network → ℕ → TransparentTarget → Bool
observed net port t = lists (ports_of net t t.declared_ports) port

unfoldable pub first_accepting : Network → List Destination → Option Destination
first_accepting net [] = none
first_accepting net (d ∷ ds) =
    let rest = first_accepting net ds in if net.connects d then some d else rest

unfoldable pub connect_target : Network → TransparentTarget → ℕ → Option Destination
connect_target net t port =
    first_accepting net
      (if t.local then loopback_v4 port ∷ loopback_v6 port ∷ [] else remote t.host port ∷ [])

abbrev pub local_destinations : Original → List Destination
local_destinations o =
    if o.is_ipv4
    then loopback_v4 o.port ∷ loopback_v6 o.port ∷ []
    else loopback_v6 o.port ∷ loopback_v4 o.port ∷ []

-- The loop over the active members.
unfoldable pub first_active :
    Network → ℕ → List TransparentTarget → Option (TransparentTarget × Destination)
first_active net port [] = none
first_active net port (t ∷ ts) =
    let rest = first_active net port ts in
    elim (connect_target net t port) [ none ↦ rest | some d ↦ some (t, d) ]

-- The loop over all members, which passes over those that were tried and those that declare other
-- ports.
unfoldable pub first_unlisted :
    Network → ℕ → List TransparentTarget → Option (TransparentTarget × Destination)
first_unlisted net port [] = none
first_unlisted net port (t ∷ ts) =
    let rest = first_unlisted net port ts in
    if observed net port t
    then rest
    else if denies t.declared_ports port
    then rest
    else elim (connect_target net t port) [ none ↦ rest | some d ↦ some (t, d) ]

-- The own localhost, or the error where it does not accept.
abbrev pub own : Outcome → Option Destination → Outcome
own why none = why
own why (some d) = to_own d

abbrev pub member_or : Outcome → Option (TransparentTarget × Destination) → Outcome
member_or next none = next
member_or next (some (t, d)) = to_member t d

abbrev pub registry_answer : Option (List ℕ) → Outcome
registry_answer none = table_error
registry_answer (some ports) = answered (join "," (map decimal ports))

abbrev pub no_member : ℕ → Outcome
no_member port = not_found (format ("no active group member listens on port " ∷ decimal port ∷ []))

unfoldable pub forward_transparent : Network → List TransparentTarget → Original → Outcome
forward_transparent net targets o =
    let own_destination = first_accepting net (local_destinations o) in
    if not o.is_loopback && nat_beq o.port transparent_registry_port
    then registry_answer net.listening_ports
    else if not o.is_loopback
    then own
        (connection_refused
          (format ("this group member does not listen on port " ∷ decimal o.port ∷ [])))
        own_destination
    else member_or
        (member_or (own (no_member o.port) own_destination) (first_unlisted net o.port targets))
        (first_active net o.port (filter (observed net o.port) targets))
