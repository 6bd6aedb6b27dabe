-- ===== src/Base/Json.antt =====
-- JSON values, as `serde_json` holds them, and the fields at every depth.
use Prim.Native.String.{String}
use mathlib.Core.Bool.{Bool}

-- `serde_json::Value`; a number is its text.
mutual
  pub data Value : Type 0 where
    null : Value
    bool : Bool → Value
    number : String → Value
    text : String → Value
    array : Items → Value
    object : Fields → Value

  pub data Items : Type 0 where
    nil : Items
    cons : Value → Items → Items

  pub data Fields : Type 0 where
    end : Fields
    field : String → Value → Fields → Fields

-- The value has the field somewhere in it.
mutual
  pub data Has (key : String) (child : Value) : Value → Type 0 where
    in_items : {xs : Items} → HasItem key child xs → Has key child (array xs)
    in_fields : {fs : Fields} → HasField key child fs → Has key child (object fs)

  pub data HasItem (key : String) (child : Value) : Items → Type 0 where
    item_here : {x : Value} {xs : Items} → Has key child x → HasItem key child (cons x xs)
    item_later : {x : Value} {xs : Items} → HasItem key child xs → HasItem key child (cons x xs)

  pub data HasField (key : String) (child : Value) : Fields → Type 0 where
    field_is : {fs : Fields} → HasField key child (field key child fs)
    field_in :
        {k : String} {v : Value} {fs : Fields} → Has key child v → HasField key child (field k v fs)
    field_later :
        {k : String} {v : Value} {fs : Fields}
        → HasField key child fs
        → HasField key child (field k v fs)
