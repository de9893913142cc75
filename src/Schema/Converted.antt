-- ===== src/Schema/Converted.antt =====
-- `handleNode` and `Kubo2openAPI` give a schema in openAPI.
use kubocd.Common.{Bool}
use kubocd.Value.{Value}
