-- ===== src/Value.antt =====
-- The untyped values that templates, parameters and contexts are made of: Go's `interface{}` as
-- decoded from JSON or YAML, with `map[string]interface{}` and `[]interface{}`.
-- A map is the list of its entries in one order of iteration; its keys are distinct, which
-- `NodupFields` says. No modelled function looks into a number, so a number is kept as its text.
pub mod Maps
pub mod Merge
pub mod Prune
pub mod Sized
use kubocd.Common.{String, Bool}

mutual
  pub data Value : Type 0 where
    null : Value
    bool : Bool → Value
    number : String → Value
    str : String → Value
    array : Items → Value
    object : Fields → Value

  -- `[]interface{}`
  pub data Items : Type 0 where
    nil : Items
    item : Value → Items → Items

  -- `map[string]interface{}`
  pub data Fields : Type 0 where
    end : Fields
    field : String → Value → Fields → Fields
