-- ===== src/RouterConfig/Equality.antt =====
-- The derived equality of the parts of a configuration that a running router cannot change. Paths of
-- files are compared as texts here; those of the code are compared by their components, so that `a/b`
-- and `a//b` are equal there, and a change between such spellings is refused here alone.
use apm_projectrunner.Base.{
  ◌≡◌, ◌↔◌, Bool, true, false, ◌&&◌, ◌||◌, not, List, Option, Eq, ◌==◌, nat_eq, string_eq, list_eq,
  option_eq, pair_eq, pair_beq_correct, String, ap, arith,
}
use text.Mathlib.TextEquality.{eq_iff}
use apm_projectrunner.RouterConfig.Model.{
  Protocol, protocol_eq, SocketAddress, socket_eq, TlsIdentity, ProxyAuthentication,
  ListenerDestination, custom_domain, legacy_localhost, loopback_slot, proxy_target, Listener,
  IdentityPolicy,
}

abbrev tls_beq : TlsIdentity → TlsIdentity → Bool
tls_beq s t = s.certificate == t.certificate && s.private_key == t.private_key

pub tls_beq_correct : (s t : TlsIdentity) → (tls_beq s t ≡ true) ↔ (s ≡ t)
tls_beq_correct s t =
    ground (arith, eq_iff s.certificate t.certificate, eq_iff s.private_key t.private_key)

instance abbrev pub tls_eq : Eq TlsIdentity
tls_eq = record { beq = tls_beq; beq_correct = tls_beq_correct }

abbrev authentication_beq : ProxyAuthentication → ProxyAuthentication → Bool
authentication_beq s t = s.credential_file == t.credential_file

pub authentication_beq_correct :
    (s t : ProxyAuthentication) → (authentication_beq s t ≡ true) ↔ (s ≡ t)
authentication_beq_correct s t = ground (arith, eq_iff s.credential_file t.credential_file)

instance abbrev pub authentication_eq : Eq ProxyAuthentication
authentication_eq = record { beq = authentication_beq; beq_correct = authentication_beq_correct }

abbrev destination_beq : ListenerDestination → ListenerDestination → Bool
destination_beq (custom_domain s d) (custom_domain s' d') = s == s' && d == d'
destination_beq (legacy_localhost s h) (legacy_localhost s' h') = s == s' && h == h'
destination_beq (loopback_slot s) (loopback_slot s') = s == s'
destination_beq (proxy_target s h p) (proxy_target s' h' p') = s == s' && h == h' && p == p'
destination_beq _ _ = false

pub destination_beq_correct : (d e : ListenerDestination) → (destination_beq d e ≡ true) ↔ (d ≡ e)
destination_beq_correct (custom_domain s d) (custom_domain s' d') =
    ground (arith, eq_iff s s', eq_iff d d')
destination_beq_correct (legacy_localhost s h) (legacy_localhost s' h') =
    ground (arith, eq_iff s s', eq_iff h h')
destination_beq_correct (loopback_slot s) (loopback_slot s') = ground (arith, eq_iff s s')
destination_beq_correct (proxy_target s h p) (proxy_target s' h' p') =
    ground (arith, eq_iff s s', eq_iff h h')
destination_beq_correct _ _ = ground arith

instance abbrev pub destination_eq : Eq ListenerDestination
destination_eq = record { beq = destination_beq; beq_correct = destination_beq_correct }

abbrev Parts : Type 0
Parts =
    (Option String × (SocketAddress × Protocol))
    × ((Option TlsIdentity × List ListenerDestination)
        × (Option String × Option ProxyAuthentication))

abbrev parts : Listener → Parts
parts l = (
  (l.consumer, (l.bind, l.protocol)),
  ((l.tls, l.destinations), (l.proxy_identity, l.proxy_authentication)),
)

abbrev listener_of : Parts → Listener
listener_of ((consumer, (bind, protocol)), ((tls, destinations), (identity, authentication))) =
    record {
      consumer = consumer;
      bind = bind;
      protocol = protocol;
      tls = tls;
      destinations = destinations;
      proxy_identity = identity;
      proxy_authentication = authentication;
    }

abbrev pub listener_beq : Listener → Listener → Bool
listener_beq l m = parts l == parts m

pub listener_beq_correct : (l m : Listener) → (listener_beq l m ≡ true) ↔ (l ≡ m)
listener_beq_correct l m =
    let (to, from) = pair_beq_correct (parts l) (parts m) in
    (λ h. ap listener_of (to h), λ e. from (ap parts e))

instance abbrev pub listener_eq : Eq Listener
listener_eq = record { beq = listener_beq; beq_correct = listener_beq_correct }

abbrev identity_beq : IdentityPolicy → IdentityPolicy → Bool
identity_beq p q =
    p.explicit_header == q.explicit_header
    && ((p.strip_before_forwarding && q.strip_before_forwarding)
        || (not p.strip_before_forwarding && not q.strip_before_forwarding))

pub identity_beq_correct : (p q : IdentityPolicy) → (identity_beq p q ≡ true) ↔ (p ≡ q)
identity_beq_correct p q = ground (arith, eq_iff p.explicit_header q.explicit_header)

instance abbrev pub identity_eq : Eq IdentityPolicy
identity_eq = record { beq = identity_beq; beq_correct = identity_beq_correct }
