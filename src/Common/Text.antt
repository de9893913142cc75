-- ===== src/Common/Text.antt =====
-- The bytes of a text and of its parts.
use Prim.Native.String.{String, ◌++◌, len, slice}
use text.Mathlib.TextPositions.{len-append, slice-append_right}
use mathlib.Core.Path.{◌≡◌, ap, ◌∙◌}

-- What is left of a text behind its first part.
pub slice_rest : (s t : String) → slice (s ++ t) (len s) (len (s ++ t)) ≡ t
slice_rest s t = ap (slice (s ++ t) (len s)) (len-append s t) ∙ slice-append_right s t
