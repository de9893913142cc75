-- ===== src/Tests/Schemas.antt =====
-- internal/kuboschema at a concrete schema, with a reference to a connection in a map and another in
-- a list. The stand-in for the search of an action finds none.
use kubocd.Common.{String, Bool, true, false, List, [], ◌∷◌}
use kubocd.Value.{Value, str, bool, array, object, nil, item, Fields, end, field}
use kubocd.Refs.Decl.{ConnectionDecl}
use kubocd.Schema.Nodes.{kubo2openapi}
use kubocd.Schema.Decls.{collect_connection_decls}
use kubocd.Schema.Parts.{HasFuel}
use kubocd.Schema.Total.{kubo2openapi-HasFuel}
use kubocd.Schema.Fuel.{Enough, collect_connection_decls-Enough}

abbrev no_action : String → Bool
no_action s = false

abbrev database : Value
database = object (
    field "type" (str "connectionRef")
      (field "contract" (str "postgres") (field "required" (bool true) end)))

abbrev caches : Value
caches = object (
    field "items"
      (object (
        field "type" (str "connectionRef")
          (field "contract" (str "redis") (field "kind" (str "Connection") end))))
      end)

abbrev schema : Fields
schema = field "properties" (object (field "database" database (field "caches" caches end))) end

abbrev marker : String → Fields → Value
marker contract rest = object (field "contract" (str contract) rest)

abbrev database_out : Value
database_out =
    object
      (field "type" (str "string") (field "x-kubocd-connection-ref" (marker "postgres" end) end))

abbrev caches_out : Value
caches_out = object (
    field "items"
      (object (
        field "type" (str "string") (
          field "x-kubocd-connection-ref" (marker "redis" (field "kind" (str "Connection") end))
            end)))
      (field "type" (str "array") end))

abbrev converted : Fields
converted =
    field "properties" (object (field "database" database_out (field "caches" caches_out end))) (
      field "type" (str "object") (
        field "additionalProperties" (bool false) (
          field "required" (array (item (str "database") nil))
            (field "$schema" (str "http://json-schema.org/schema#") end))))

kubo2openapi-HasFuel_example : HasFuel (kubo2openapi no_action schema false)
kubo2openapi-HasFuel_example = kubo2openapi-HasFuel no_action schema false

abbrev decls : List ConnectionDecl
decls =
    record {
      path = "database" ∷ [];
      contract = "postgres";
      required = true;
      default_template = "";
      kind_filter = "";
    }
    ∷ record {
      path = "caches" ∷ "[]" ∷ [];
      contract = "redis";
      required = false;
      default_template = "";
      kind_filter = "Connection";
    }
    ∷ []

collect_connection_decls-Enough_example : Enough (collect_connection_decls false converted)
collect_connection_decls-Enough_example = collect_connection_decls-Enough false converted
