-- ===== src/RouterTcp/Choice.antt =====
-- Which member an intercepted connection reaches.
use apm_projectrunner.Base.{
  ℕ, ◌≡◌, refl, ap, sym, subst, ◌≢◌, ◌∙◌, ◌↔◌, true, false, ◌&&◌, not, List, [], ◌∷◌, ◌++◌, Option,
  none, some, filter, All, arith, Bool-cases, Option-cases, inl, inr,
}
use apm_projectrunner.RouterTcp.Transparent.{
  TransparentTarget, Destination, Network, Original, Outcome, to_member, observed, denies,
  connect_target, first_accepting, first_active, first_unlisted, forward_transparent, member_or,
  own, no_member, local_destinations,
}

-- The members that may be tried for a port, in order: those that were observed to listen, then those
-- that were not, unless they declare their ports without it.
abbrev pub candidates : Network → ℕ → List TransparentTarget → List TransparentTarget
candidates net port targets =
    filter (observed net port) targets
    ++ filter (λ t. not (observed net port t) && not (denies t.declared_ports port)) targets

first_unlisted_lem :
    (net : Network) (port : ℕ) (ts : List TransparentTarget)
    → first_unlisted net port ts
      ≡ first_active net port
          (filter (λ t. not (observed net port t) && not (denies t.declared_ports port)) ts)
unfolding first_unlisted first_active
first_unlisted_lem net port [] = refl
first_unlisted_lem net port (t ∷ ts) = ground (arith, first_unlisted_lem net port ts)

first_active-append :
    (net : Network) (port : ℕ) (why : Outcome) (ts us : List TransparentTarget)
    → member_or (member_or why (first_active net port us)) (first_active net port ts)
      ≡ member_or why (first_active net port (ts ++ us))
unfolding first_active
first_active-append net port why [] us = refl
first_active-append net port why (t ∷ ts) us =
    ground (arith, first_active-append net port why ts us)

-- Where a member stands that is the first to accept.
pub record IsFirst (net : Network) (port : ℕ) (t : TransparentTarget) (d : Destination)
    (ts : List TransparentTarget) : Type 0 where
  pub earlier : List TransparentTarget
  pub later : List TransparentTarget
  pub place : ts ≡ earlier ++ t ∷ later
  pub refuse : All (λ u. connect_target net u port ≡ none) earlier
  pub accepts : connect_target net t port ≡ some d

first_active-IsFirst :
    (net : Network) (port : ℕ) (ts : List TransparentTarget) (t : TransparentTarget)
    (d : Destination)
    → first_active net port ts ≡ some (t, d)
    → IsFirst net port t d ts
unfolding first_active
first_active-IsFirst net port [] t d h = absurd (ground arith)
first_active-IsFirst net port (u ∷ us) t d h = elim (Option-cases (connect_target net u port)) [
  | inl e ↦
      let g = first_active-IsFirst net port us t d (ground arith) in
      record {
        earlier = u ∷ g.earlier;
        later = g.later;
        place = ap (λ ts. u ∷ ts) g.place;
        refuse = (e, g.refuse);
        accepts = g.accepts;
      }
  | inr (x, e) ↦
      let same : u ≡ t = ground arith in
      record {
        earlier = [];
        later = us;
        place = ap (λ v. v ∷ us) same;
        refuse = tt;
        accepts = subst (λ v. connect_target net v port ≡ some d) same (ground arith);
      }
]

loopback_lem :
    (net : Network) (targets : List TransparentTarget) (o : Original)
    → o.is_loopback ≡ true
    → forward_transparent net targets o
      ≡ member_or
          (own (no_member o.port) (first_accepting net (local_destinations o)))
          (first_active net o.port (candidates net o.port targets))
unfolding forward_transparent
loopback_lem net targets o h =
    let port = o.port in
    let next = own (no_member port) (first_accepting net (local_destinations o)) in
    rw h (
      ap
        (λ m.
          member_or (member_or next m) (first_active net port (filter (observed net port) targets)))
        (first_unlisted_lem net port targets)
      ∙ first_active-append net port next _ _)

member_lem :
    (port : ℕ) (o : Option Destination) (m : Option (TransparentTarget × Destination))
    (t : TransparentTarget) (d : Destination)
    → member_or (own (no_member port) o) m ≡ to_member t d
    → m ≡ some (t, d)
member_lem port none none t d e = absurd (ground arith)
member_lem port (some x) none t d e = absurd (ground arith)
member_lem port o (some (u, x)) t d e = ground arith

refused {ℓ κ} :
    {P : Type ℓ} {Q : Type κ} (port : ℕ) (m : Option (TransparentTarget × Destination))
    (o : Option Destination)
    → (m ≡ none) ↔ P
    → (o ≡ none) ↔ Q
    → (member_or (own (no_member port) o) m ≡ no_member port) ↔ (P × Q)
refused port none none (p, p') (q, q') = (λ e. (p refl, q refl), λ h. refl)
refused port none (some d) (p, p') (q, q') =
    (λ e. absurd (ground arith), λ h. absurd (ground (arith, q' h.1)))
refused port (some (t, d)) o (p, p') (q, q') =
    (λ e. absurd (ground arith), λ h. absurd (ground (arith, p' h.0)))

outside_lem :
    (net : Network) (targets : List TransparentTarget) (o : Original) (t : TransparentTarget)
    (d : Destination)
    → o.is_loopback ≡ false
    → forward_transparent net targets o ≢ to_member t d
unfolding forward_transparent
outside_lem net targets o t d outside = ground arith

-- An intercepted connection that is joined to a group member was made to a loopback address, and the
-- member is the first in the order of the candidates that accepts it: every candidate before it
-- refuses. A connection to any other address never leaves the instance.
pub forward_transparent-member :
    (net : Network) (targets : List TransparentTarget) (o : Original) (t : TransparentTarget)
    (d : Destination)
    → forward_transparent net targets o ≡ to_member t d
    → (o.is_loopback ≡ true) × IsFirst net o.port t d (candidates net o.port targets)
forward_transparent-member net targets o t d h = elim (Bool-cases o.is_loopback) [
  | inr outside ↦ absurd (outside_lem net targets o t d outside h)
  | inl inside ↦
      let e : member_or (own (no_member o.port) (first_accepting net (local_destinations o)))
            (first_active net o.port (candidates net o.port targets))
          ≡ to_member t d =
        sym (loopback_lem net targets o inside) ∙ h in
      (
        inside,
        first_active-IsFirst net o.port (candidates net o.port targets) t d
            (member_lem o.port (first_accepting net (local_destinations o)) _ t d e),
      )
]

first_active-none :
    (net : Network) (port : ℕ) (ts : List TransparentTarget)
    → (first_active net port ts ≡ none) ↔ All (λ t. connect_target net t port ≡ none) ts
unfolding first_active
first_active-none net port [] = ground arith
first_active-none net port (t ∷ ts) = ground (arith, first_active-none net port ts)

first_accepting-none :
    (net : Network) (ds : List Destination)
    → (first_accepting net ds ≡ none) ↔ All (λ d. net.connects d ≡ false) ds
unfolding first_accepting
first_accepting-none net [] = ground arith
first_accepting-none net (d ∷ ds) = ground (arith, first_accepting-none net ds)

-- A connection to a loopback address fails exactly when every candidate and the own localhost, over
-- both address families, refuse it.
pub forward_transparent-not_found :
    (net : Network) (targets : List TransparentTarget) (o : Original)
    → o.is_loopback ≡ true
    → (forward_transparent net targets o ≡ no_member o.port) ↔ (
        All (λ t. connect_target net t o.port ≡ none) (candidates net o.port targets)
        × All (λ d. net.connects d ≡ false) (local_destinations o))
forward_transparent-not_found net targets o h = rw (loopback_lem net targets o h) (
    refused o.port (first_active net o.port (candidates net o.port targets))
      (first_accepting net (local_destinations o))
      (first_active-none net o.port (candidates net o.port targets))
      (first_accepting-none net (local_destinations o)))
