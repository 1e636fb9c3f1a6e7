-- ===== src/Base/Values.antt =====
-- JSON values: an object is its fields in order.
use Prim.Native.String.{String}
use mathlib.Core.Bool.{Bool}
use mathlib.Core.Option.{Option, none, some}
use oria.Base.Tests.{same_text, if◌then◌else◌}

mutual
  -- A number is its text.
  pub data Json : Type 0 where
    null : Json
    boolean : Bool → Json
    number : String → Json
    text : String → Json
    array : Items → Json
    object : Fields → Json

  pub data Items : Type 0 where
    no_items : Items
    item : Json → Items → Items

  pub data Fields : Type 0 where
    no_fields : Fields
    field : String → Json → Fields → Fields

-- The value of the first field with a name.
abbrev pub lookup : String → Fields → Option Json
lookup k no_fields = none
lookup k (field j v fields) = if same_text j k then some v else lookup k fields
