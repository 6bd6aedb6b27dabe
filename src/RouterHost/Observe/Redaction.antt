-- ===== src/RouterHost/Observe/Redaction.antt =====
-- What a recorded event shows of the values that it is given.
use apm_projectrunner.Base.{String, ◌≡◌, refl, Bool, true, false, if◌then◌else◌}
use apm_projectrunner.Base.Json.{
  Value, null, bool, number, text, array, object, Items, nil, cons, Fields, end, field, Has,
  in_items, in_fields, HasItem, item_here, item_later, HasField, field_is, field_in, field_later,
}
use apm_projectrunner.RouterHost.Observe.{
  sensitive_key, redacted, redact_value, redact_items, redact_fields,
}

-- A text has no field.
redacted_lem : {P : Type 0} {key : String} {child : Value} → Has key child redacted → P
redacted_lem m = elim m [ ]

-- A field whose value is redacted under a sensitive key.
choice_lem :
    {key : String} {child : Value} (b : Bool) (v : Value)
    → Has key child (if b then redacted else v)
    → (b ≡ false) × Has key child v
choice_lem true v m = redacted_lem m
choice_lem false v m = (refl, m)

abbrev pub Hidden : String → Value → Type 0
Hidden key child = sensitive_key key ≡ true → child ≡ redacted

mutual
  unfolding redact_value

  value-Hidden :
      {key : String} {child : Value} (v : Value) → Has key child (redact_value v) → Hidden key child
  value-Hidden null m = elim m [ ]
  value-Hidden (bool b) m = elim m [ ]
  value-Hidden (number n) m = elim m [ ]
  value-Hidden (text s) m = elim m [ ]
  value-Hidden (array xs) (in_items m) = items-Hidden xs m
  value-Hidden (object fs) (in_fields m) = fields-Hidden fs m

  items-Hidden :
      {key : String} {child : Value} (xs : Items)
      → HasItem key child (redact_items xs)
      → Hidden key child
  items-Hidden nil m = elim m [ ]
  items-Hidden (cons x xs) (item_here m) = value-Hidden x m
  items-Hidden (cons x xs) (item_later m) = items-Hidden xs m

  pub fields-Hidden :
      {key : String} {child : Value} (fs : Fields)
      → HasField key child (redact_fields fs)
      → Hidden key child
  fields-Hidden end m = elim m [ ]
  fields-Hidden (field k v fs) field_is = λ s. rw s refl
  fields-Hidden (field k v fs) (field_in m) =
      value-Hidden v (choice_lem (sensitive_key k) (redact_value v) m).1
  fields-Hidden (field k v fs) (field_later m) = fields-Hidden fs m
