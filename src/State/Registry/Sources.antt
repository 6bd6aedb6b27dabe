-- ===== src/State/Registry/Sources.antt =====
-- The calls on the table of sources leave the tables in order.
use apm_projectrunner.Base.{
  String, false, not, Option, get, insert, remove, insert-absent, any, contains_key, is_some, ◌≡◌,
  refl, subst, ◌==◌, string_eq, arith,
}
use apm_projectrunner.State.Error.{Result, ok, err, ensure, bind-eq-ok, pass, Faults, validate_id}
use apm_projectrunner.State.Registry.{
  RegisteredSource, RegisteredSourceKind, managed, Registry, check_source, misplaced_source,
  unplaced_source, is_empty_text, source_taken, register_source, deregister_source, left,
}
use apm_projectrunner.State.Registry.Devices.{ensure-ok}
use apm_projectrunner.State.Registry.Orderly.{
  Once-insert, Once-remove, All-insert, All-remove, PathsOnce-append, PathsOnce-remove, is_managed,
  IsSource, IsOrderly,
}

pub left-IsOrderly :
    (r : Registry) (m : Result (Unit {0} × Registry))
    → IsOrderly r
    → ((v : Unit {0}) (r' : Registry) → m ≡ ok (v, r') → IsOrderly r')
    → IsOrderly (left r m)
left-IsOrderly r (ok (v, r')) h k = k v r' refl
left-IsOrderly r (err why) h k = h

-- The tables of a result.
pub same_tables :
    (a r' : Registry) (v : Unit {0})
    → IsOrderly a
    → ◌≡◌ {A = Result (Unit {0} × Registry)} (ok (tt, a)) (ok (v, r'))
    → IsOrderly r'
same_tables a r' v h e = let same : a ≡ r' = ground arith in subst IsOrderly same h

placed_source :
    (kind : RegisteredSourceKind) (location : Option String)
    → misplaced_source kind location ≡ false
    → unplaced_source kind location ≡ false
    → is_some location ≡ is_managed kind
placed_source managed location a b = ground arith
placed_source RegisteredSourceKind.unmanaged location a b = a

check_source-IsSource :
    (s : RegisteredSource) {v : Unit {0}} → check_source s ≡ ok v → IsSource (s.name, s)
unfolding check_source
check_source-IsSource s h =
    let (_, _, h1) = bind-eq-ok (validate_id "source name" s.name) _ h in
    let (_, path, h2) = bind-eq-ok (ensure (not (is_empty_text s.path)) _) _ h1 in
    let (_, a, h3) =
      bind-eq-ok (ensure (not (misplaced_source s.kind s.managed_relative_path)) _) _ h2 in
    let path_ok = ensure-ok (not (is_empty_text s.path)) _ path in
    let a_ok = ensure-ok (not (misplaced_source s.kind s.managed_relative_path)) _ a in
    let b_ok = ensure-ok (not (unplaced_source s.kind s.managed_relative_path)) _ h3 in
    (refl, ground arith, placed_source s.kind s.managed_relative_path (ground arith) (ground arith))

pub register_source-IsOrderly :
    (faults : Faults) (r : Registry) (s : RegisteredSource)
    → IsOrderly r
    → IsOrderly (left r (register_source faults r s))
unfolding register_source
register_source-IsOrderly faults r s o = left-IsOrderly r (register_source faults r s) o (λ v r' h.
    let (_, fits, h1) = bind-eq-ok (check_source s) _ h in
    let (_, _, h2) = bind-eq-ok (pass faults.writing) _ h1 in
    let (_, fresh, h3) = bind-eq-ok (ensure (not (source_taken s r.sources)) _) _ h2 in
    let free = ensure-ok (not (source_taken s r.sources)) _ fresh in
    let absent : is_some (get s.name r.sources) ≡ false = ground arith in
    let path_free : any (λ (k, t). t.path == s.path) r.sources ≡ false = ground arith in
    same_tables (record r { sources = insert s.name s r.sources }) r' v
      (record {
        sources = record {
          names = Once-insert s.name s r.sources o.sources.names;
          paths =
              rw (insert-absent s.name s r.sources absent)
                (PathsOnce-append s.name s r.sources o.sources.paths path_free);
          each =
              All-insert IsSource s.name s r.sources (check_source-IsSource s fits) o.sources.each;
        };
        profiles = o.profiles;
        devices = o.devices;
      })
      h3)

pub deregister_source-IsOrderly :
    (faults : Faults) (r : Registry) (name : String)
    → IsOrderly r
    → IsOrderly (left r (deregister_source faults r name))
unfolding deregister_source
deregister_source-IsOrderly faults r name o =
    left-IsOrderly r (deregister_source faults r name) o (λ v r' h.
      let (_, _, h1) = bind-eq-ok (pass faults.writing) _ h in
      let (_, _, h2) = bind-eq-ok (ensure (contains_key name r.sources) _) _ h1 in
      same_tables (record r { sources = remove name r.sources }) r' v
        (record {
          sources = record {
            names = Once-remove name r.sources o.sources.names;
            paths = PathsOnce-remove name r.sources o.sources.paths;
            each = All-remove IsSource name r.sources o.sources.each;
          };
          profiles = o.profiles;
          devices = o.devices;
        })
        h2)
