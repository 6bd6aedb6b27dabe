-- ===== src/State/Context/Secrets.antt =====
-- What is stored holds no secret in the clear.
use apm_projectrunner.Base.{ℕ, suc, String, ◌≡◌, true, not, ◌&&◌, arith}
use apm_projectrunner.State.Error.{ok, ensure, bind-eq-ok}
use apm_projectrunner.Base.Json.{
  Value, null, bool, number, text, array, object, Items, nil, cons, Fields, end, field, Has,
  in_items, in_fields, HasItem, item_here, item_later, HasField, field_is, field_in, field_later,
}
use apm_projectrunner.State.Context.{
  secret_like, valid_secret_reference, validate_no_secret_values, validate_items, validate_fields,
  structured_context,
}

-- A key that reads like a secret holds a reference.
abbrev Safe : String → Value → Type 0
Safe key child = secret_like key ≡ true → valid_secret_reference child ≡ true

mutual
  unfolding validate_no_secret_values

  Has-Safe :
      {key : String} {child : Value} (v : Value) (path : String)
      → validate_no_secret_values v path ≡ ok tt
      → Has key child v
      → Safe key child
  Has-Safe null path h m = elim m [ ]
  Has-Safe (bool b) path h m = elim m [ ]
  Has-Safe (number n) path h m = elim m [ ]
  Has-Safe (text s) path h m = elim m [ ]
  Has-Safe (array xs) path h (in_items m) = item-Safe xs path 0 h m
  Has-Safe (object fs) path h (in_fields m) = field-Safe fs path h m

  item-Safe :
      {key : String} {child : Value} (xs : Items) (path : String) (index : ℕ)
      → validate_items xs path index ≡ ok tt
      → HasItem key child xs
      → Safe key child
  item-Safe nil path index h m = elim m [ ]
  item-Safe (cons x xs) path index h (item_here m) =
      let (_, this, rest) = bind-eq-ok (validate_no_secret_values x _) _ h in Has-Safe x _ this m
  item-Safe (cons x xs) path index h (item_later m) =
      let (_, this, rest) = bind-eq-ok (validate_no_secret_values x _) _ h in
      item-Safe xs path (suc index) rest m

  field-Safe :
      {key : String} {child : Value} (fs : Fields) (path : String)
      → validate_fields fs path ≡ ok tt
      → HasField key child fs
      → Safe key child
  field-Safe end path h m = elim m [ ]
  field-Safe (field k v fs) path h field_is =
      let (_, this, rest) =
        bind-eq-ok (ensure (not (secret_like k && not (valid_secret_reference v))) _) _ h in
      λ s. ground arith
  field-Safe (field k v fs) path h (field_in m) =
      let (_, this, rest) =
        bind-eq-ok (ensure (not (secret_like k && not (valid_secret_reference v))) _) _ h in
      let (_, inner, later) = bind-eq-ok (validate_no_secret_values v _) _ rest in
      Has-Safe v _ inner m
  field-Safe (field k v fs) path h (field_later m) =
      let (_, this, rest) =
        bind-eq-ok (ensure (not (secret_like k && not (valid_secret_reference v))) _) _ h in
      let (_, inner, later) = bind-eq-ok (validate_no_secret_values v _) _ rest in
      field-Safe fs path later m

-- A value that `StructuredContext::new` takes has, under every key that reads like a secret and at
-- every depth, a reference to an environment variable or a file and nothing else; and what it
-- stores is the value's own printing.
pub structured_context-Safe :
    (print : Value → String) (value : Value) (out : String)
    → structured_context print value ≡ ok out
    → ((key : String) (child : Value)
        → Has key child value
        → secret_like key ≡ true
        → valid_secret_reference child ≡ true)
      × out ≡ print value
unfolding structured_context
structured_context-Safe print value out h =
    let (_, valid, printed) = bind-eq-ok (validate_no_secret_values value "$") _ h in
    ((λ key child m. Has-Safe value "$" valid m), ground arith)
