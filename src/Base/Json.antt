-- ===== src/Base/Json.antt =====
-- JSON values as Python's dictionaries hold them, with the truth value of each. The numbers are a
-- parameter.
use distrosense.Base.Tests.{if◌then◌else◌}
use distrosense.Base.Outcome.{Result, ok, raised}
use distrosense.Base.Equality.{string_eq, ◌==◌}
use Prim.Native.String.{String}
use mathlib.Core.Bool.{Bool, true, false, not}
use mathlib.Core.Option.{Option, none, some}

mutual
  pub data Json (Number : Type 0) : Type 0 where
    null : Json Number
    boolean : Bool → Json Number
    number : Number → Json Number
    text : String → Json Number
    array : Items Number → Json Number
    object : Fields Number → Json Number

  pub data Items (Number : Type 0) : Type 0 where
    no_items : Items Number
    item : Json Number → Items Number → Items Number

  pub data Fields (Number : Type 0) : Type 0 where
    no_fields : Fields Number
    field : String → Json Number → Fields Number → Fields Number

module _ {Number : Type 0} where
  -- d.get(key) with a missing key told apart
  unfoldable pub find : Fields Number → String → Option (Json Number)
  find no_fields key = none
  find (field k v d) key = if k == key then some v else find d key

  -- d.get(key, default)
  abbrev pub find_or : Fields Number → String → Json Number → Json Number
  find_or d key default = elim (find d key) [ none ↦ default | some v ↦ v ]

  -- v.get(key, default): AttributeError where v is no dictionary
  abbrev pub get_attr : Json Number → String → Json Number → Result (Json Number)
  get_attr (object d) key default = ok (find_or d key default)
  get_attr _ key default = raised

  module _ (is_zero : Number → Bool) where
    -- bool(v)
    unfoldable pub truthy : Json Number → Bool
    truthy null = false
    truthy (boolean b) = b
    truthy (number x) = not (is_zero x)
    truthy (text s) = not (s == "")
    truthy (array no_items) = false
    truthy (array (item v vs)) = true
    truthy (object no_fields) = false
    truthy (object (field k v d)) = true
