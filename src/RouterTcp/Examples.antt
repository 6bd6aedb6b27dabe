-- ===== src/RouterTcp/Examples.antt =====
-- A connection over two group members, of which the first refuses.
use apm_projectrunner.Base.{◌≡◌, ◌↔◌, refl, Bool, true, false, [], ◌∷◌, none, some, All, nat_eq}
use apm_projectrunner.RouterTcp.Transparent.{
  TransparentTarget, Destination, remote, Network, Original, to_member, observed, connect_target,
  first_accepting, first_active, first_unlisted, forward_transparent, no_member, local_destinations,
}
use apm_projectrunner.RouterTcp.Choice.{
  IsFirst, candidates, forward_transparent-member, forward_transparent-not_found,
}

abbrev here : TransparentTarget
here = record { component = "ui"; host = "ui.local"; local = true; declared_ports = none }

abbrev there : TransparentTarget
there = record {
  component = "api";
  host = "api.local";
  local = false;
  declared_ports = some (8080 ∷ []);
}

-- Only the remote member accepts.
abbrev accepts_remote : Destination → Bool
accepts_remote (remote host port) = true
accepts_remote _ = false

abbrev network : Network
network = record {
  connects = accepts_remote;
  listening_ports = some (8080 ∷ []);
  observed_listeners = λ host. none;
}

abbrev dead : Network
dead = record network { connects = λ d. false }

abbrev original : Original
original = record { is_loopback = true; is_ipv4 = true; port = 8080 }

reaches_api :
    forward_transparent network (here ∷ there ∷ []) original
    ≡ to_member there (remote "api.local" 8080)
unfolding forward_transparent first_active first_unlisted observed connect_target first_accepting
reaches_api = refl

forward_transparent-member_example :
    (true ≡ true)
    × IsFirst network 8080 there
        (remote "api.local" 8080)
        (candidates network 8080 (here ∷ there ∷ []))
forward_transparent-member_example =
    forward_transparent-member network (here ∷ there ∷ []) original there (remote "api.local" 8080)
      reaches_api

forward_transparent-not_found_example :
    (forward_transparent dead (here ∷ there ∷ []) original ≡ no_member 8080) ↔ (
      All (λ t. connect_target dead t 8080 ≡ none) (candidates dead 8080 (here ∷ there ∷ []))
      × All (λ d. dead.connects d ≡ false) (local_destinations original))
forward_transparent-not_found_example =
    forward_transparent-not_found dead (here ∷ there ∷ []) original refl
