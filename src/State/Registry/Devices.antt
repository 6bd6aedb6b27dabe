-- ===== src/State/Registry/Devices.antt =====
-- What a valid device gives to ssh: `user@host` is no option, and is read in one way only where the host
-- has no `@`. A host may have one, and ssh splits at the last.
use Prim.Native.String
use Prim.Native.String.append
use apm_projectrunner.Base.{
  Option, ℕ, suc, ◌+◌, ◌≤◌, List, [], ◌∷◌, ap, sym, ◌∙◌, inl, inr, Bool-cases, if◌then◌else◌,
  String, Bool, true, false, not, some, any, codes, split_once, ◌≡◌, refl, ◌==◌, nat_eq, arith,
}
use apm_projectrunner.State.Error.{ok, StateError, ensure, bind-eq-ok, validate_id}
use apm_projectrunner.State.Registry.{
  RegisteredDevice, validate_device, starts_with_dash, bad_host, bad_user,
}

-- `user@host`.
abbrev pub destination : RegisteredDevice → String
destination d = String.◌++◌ d.user (String.◌++◌ "@" d.host)

abbrev pub has_at : String → Bool
has_at s = any (λ c. c == b'@') (codes s)

pub record IsReachable (d : RegisteredDevice) : Type 0 where
  pub user_plain : has_at d.user ≡ false
  -- However the destination is split at an `@`, the parts are the user and the host.
  pub read_back :
      has_at d.host ≡ false
      → (user host : String) → String.◌++◌ user (String.◌++◌ "@" host) ≡ destination d
      → (user ≡ d.user) × (host ≡ d.host)
  pub no_option : starts_with_dash (codes (destination d)) ≡ false
  pub host_no_option : starts_with_dash (codes d.host) ≡ false
  pub port : (d.port == 0) ≡ false

pub ensure-ok : (b : Bool) (why : StateError) {v : Unit {0}} → ensure b why ≡ ok v → b ≡ true
ensure-ok true why h = refl
ensure-ok false why h = absurd (ground arith)

split_once-user :
    (user host : String)
    → any (λ c. c == b'@') (codes user) ≡ false
    → split_once b'@' (String.◌++◌ user (String.◌++◌ "@" host)) ≡ some (user, host)
unfolding split_once
split_once-user String.[] host h =
    rw (append.nil (String.◌++◌ "@" host), append.cons "@" String.[] host, append.nil host) refl
split_once-user (String.◌∷◌ c s) host h =
    rw (append.cons c s (String.◌++◌ "@" host)) (ground (arith, split_once-user s host))

abbrev count_at : List ℕ → ℕ
count_at [] = 0
count_at (c ∷ cs) = if c == b'@' then suc (count_at cs) else count_at cs

count_at-none : (cs : List ℕ) → any (λ c. c == b'@') cs ≡ false → count_at cs ≡ 0
count_at-none [] h = refl
count_at-none (c ∷ cs) h = ground (arith, count_at-none cs)

count_at-some : (cs : List ℕ) → any (λ c. c == b'@') cs ≡ true → 1 ≤ count_at cs
count_at-some [] h = ground arith
count_at-some (c ∷ cs) h = ground (arith, count_at-some cs)

count_at-append :
    (s t : String) → count_at (codes (String.◌++◌ s t)) ≡ count_at (codes s) + count_at (codes t)
count_at-append String.[] t = rw (append.nil t) (omega arith)
count_at-append (String.◌∷◌ c s) t = rw (append.cons c s t) (ground (arith, count_at-append s t))

count_at-joined :
    (user host : String)
    → count_at (codes (String.◌++◌ user (String.◌++◌ "@" host)))
      ≡ suc (count_at (codes user) + count_at (codes host))
count_at-joined user host =
    omega (arith, count_at-append user (String.◌++◌ "@" host), count_at-append "@" host)

read_in_one_way :
    (d : RegisteredDevice) (user host : String)
    → has_at d.user ≡ false
    → has_at d.host ≡ false
    → String.◌++◌ user (String.◌++◌ "@" host) ≡ destination d
    → (user ≡ d.user) × (host ≡ d.host)
read_in_one_way d user host u h e = elim (Bool-cases (has_at user)) [
  | inl other ↦ absurd (
      omega (
        arith,
        ap (λ s. count_at (codes s)) e,
        count_at-joined user host,
        count_at-joined d.user d.host,
        count_at-some (codes user) other,
        count_at-none (codes d.user) u,
        count_at-none (codes d.host) h,
      ))
  | inr plain ↦
      let same : ◌≡◌ {A = Option (String × String)} (some (user, host)) (some (d.user, d.host)) =
        sym (split_once-user user host plain)
        ∙ (ap (split_once b'@') e ∙ split_once-user d.user d.host u) in
      (ground arith, ground arith)
]

starts-user :
    (user host : String)
    → starts_with_dash (codes user) ≡ false
    → starts_with_dash (codes (String.◌++◌ user (String.◌++◌ "@" host))) ≡ false
starts-user String.[] host h =
    rw (append.nil (String.◌++◌ "@" host), append.cons "@" String.[] host) refl
starts-user (String.◌∷◌ c s) host h = rw (append.cons c s (String.◌++◌ "@" host)) h

-- A device that passes its checks is reachable in this sense.
pub validate_device-IsReachable :
    (d : RegisteredDevice) {v : Unit {0}} → validate_device d ≡ ok v → IsReachable d
unfolding validate_device
validate_device-IsReachable d h =
    let (_, _, h1) = bind-eq-ok (validate_id "device name" d.name) _ h in
    let (_, host, h2) = bind-eq-ok (ensure (not (bad_host d.host)) _) _ h1 in
    let (_, user, h3) = bind-eq-ok (ensure (not (bad_user d.user)) _) _ h2 in
    let (_, port, h4) = bind-eq-ok (ensure (not (d.port == 0)) _) _ h3 in
    let host_ok = ensure-ok (not (bad_host d.host)) _ host in
    let user_ok = ensure-ok (not (bad_user d.user)) _ user in
    let port_ok = ensure-ok (not (d.port == 0)) _ port in
    record {
      user_plain = ground arith;
      read_back = λ plain user host e. read_in_one_way d user host (ground arith) plain e;
      no_option = starts-user d.user d.host (ground arith);
      host_no_option = ground arith;
      port = ground arith;
    }
