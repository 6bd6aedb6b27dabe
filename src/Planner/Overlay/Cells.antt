-- ===== src/Planner/Overlay/Cells.antt =====
-- What the layers leave of one key, told by the last entry that names it.
use apm_projectrunner.Base.{
  String, Bool, true, false, not, List, [], ◌∷◌, ◌++◌, Option, none, some, Map, get, get-insert,
  get-remove, contains, filter, ◌≡◌, ◌==◌, string_eq, pair_eq, if◌then◌else◌, arith,
}
use apm_projectrunner.Planner.Overlay.{
  OverlaySecretReference, OverlayValue, literal, secret, overlay_value, Resolving, set_key,
  unset_key,
}

-- What is known of a key: nothing, that it is taken away, or that it is set.
pub data Cell : Type 0 where
  inherited : Cell
  unset : Cell
  given : OverlayValue → Cell

abbrev pub value_of : Cell → Option String
value_of inherited = none
value_of unset = none
value_of (given v) = some (overlay_value v)

abbrev pub is_unset : Cell → Bool
is_unset inherited = false
is_unset unset = true
is_unset (given v) = false

abbrev pub secret_of : Cell → Option OverlaySecretReference
secret_of inherited = none
secret_of unset = none
secret_of (given (literal v)) = none
secret_of (given (secret s)) = some s

-- The resolved instance holds the cell at the key.
pub record Holds (r : Resolving) (key : String) (cell : Cell) : Type 0 where
  pub value : get key r.environment ≡ value_of cell
  pub taken : contains key r.environment_unset ≡ is_unset cell
  pub secret_at : get (r.name, key) r.secret_environment ≡ secret_of cell

-- The last entry of the key, if it has one.
unfoldable pub latest : String → Cell → Map String Cell → Cell
latest key cell [] = cell
latest key cell ((k, next) ∷ rest) = latest key (if k == key then next else cell) rest

contains-filter :
    (key k : String) (xs : List String)
    → contains k (filter (λ c. not (c == key)) xs) ≡ (if key == k then false else contains k xs)
contains-filter key k [] = ground arith
contains-filter key k (x ∷ xs) = ground (
  arith,
  contains-filter key k xs,
  string_eq.beq_correct x key,
  string_eq.beq_correct x k,
  string_eq.beq_correct key k,
)

contains-append :
    (k key : String) (xs : List String)
    → contains k (xs ++ key ∷ []) ≡ (if key == k then true else contains k xs)
contains-append k key [] = ground arith
contains-append k key (x ∷ xs) = ground (arith, contains-append k key xs)

pub set_key-Holds :
    (layer key k : String) (v : OverlayValue) (r : Resolving) (cell : Cell)
    → Holds r k cell
    → Holds (set_key layer key v r) k (if key == k then given v else cell)
unfolding set_key
set_key-Holds layer key k (literal v) r cell h = record {
  value = ground (arith, get-insert key k (overlay_value (literal v)) r.environment, h.value);
  taken = ground (arith, contains-filter key k r.environment_unset, h.taken);
  secret_at = ground (
    arith,
    get-remove (r.name, key) (r.name, k) r.secret_environment,
    h.secret_at,
    string_eq.beq_correct r.name r.name,
  );
}
set_key-Holds layer key k (secret s) r cell h = record {
  value = ground (arith, get-insert key k (overlay_value (secret s)) r.environment, h.value);
  taken = ground (arith, contains-filter key k r.environment_unset, h.taken);
  secret_at = ground (
    arith,
    get-insert (r.name, key) (r.name, k) s r.secret_environment,
    h.secret_at,
    string_eq.beq_correct r.name r.name,
  );
}

pub unset_key-Holds :
    (layer key k : String) (r : Resolving) (cell : Cell)
    → Holds r k cell
    → Holds (unset_key layer key r) k (if key == k then unset else cell)
unfolding unset_key
unset_key-Holds layer key k r cell h = record {
  value = ground (arith, get-remove key k r.environment, h.value);
  taken =
      ground
        (arith, contains-append k key r.environment_unset, h.taken, string_eq.beq_correct key k);
  secret_at = ground (
    arith,
    get-remove (r.name, key) (r.name, k) r.secret_environment,
    h.secret_at,
    string_eq.beq_correct r.name r.name,
  );
}
