-- ===== src/Refs/Path.antt =====
-- `setAtPath` of internal/controller/release_paramrefs.go. A path step is a map key or the decimal
-- text of a list index; which of them is told by `strconv.Atoi`, a parameter here.
-- The tree that the code modifies in place is a value here, and the new tree is the result.
pub mod Laws
use kubocd.Common.{ℕ, ◌<◌, String, ◌≡◌, Option, none, some, List, [], ◌∷◌, Result, ok, err, ◌>>=◌}
use kubocd.Common.Int64.{ℤ, pos, negsuc, half_modulus}
use kubocd.Value.{Value, null, array, object, Items, Fields}
use kubocd.Value.Maps.{get_field, set_field, get_elem?, set}

-- Of Go's `strconv`: `Atoi`, `none` being its error, and `Itoa` of a list index.
pub record Strconv : Type 0 where
  pub atoi : String → Option ℤ
  pub itoa : ℕ → String
  pub atoi-itoa : (n : ℕ) → n < half_modulus → atoi (itoa n) ≡ some (pos n)

-- The errors of `setAtPath`. A negative index passes the test `idx >= len(list)`, and the access
-- to the list panics.
pub data PathError : Type 0 where
  empty_path : PathError
  not_a_list : String → PathError
  not_a_map : String → PathError
  index_panic : PathError

or_null : Option Value → Value
or_null none = null
or_null (some v) = v

in_range : String → Option Value → Result PathError Value
in_range seg none = err (not_a_list seg)
in_range seg (some v) = ok v

list_step : String → ℤ → Value → Result PathError Value
list_step seg (pos i) (array l) = in_range seg (get_elem? l i)
list_step seg (negsuc n) (array l) = err index_panic
list_step seg idx v = err (not_a_list seg)

map_step : String → Value → Result PathError Value
map_step seg (object m) = ok (or_null (get_field seg m))
map_step seg v = err (not_a_map seg)

write_list : String → ℤ → Value → Value → Result PathError Value
write_list seg (pos i) (array l) v = in_range seg (get_elem? l i) >>= λ _. ok (array (set l i v))
write_list seg (negsuc n) (array l) v = err index_panic
write_list seg idx node v = err (not_a_list seg)

write_map : String → Value → Value → Result PathError Value
write_map seg (object m) v = ok (object (set_field seg v m))
write_map seg node v = err (not_a_map seg)

module _ (S : Strconv) where
  -- The body of the loop: the node under the step.
  step : String → Value → Result PathError Value
  unfolding list_step map_step in_range or_null
  step seg node = elim (S.atoi seg) [ some idx ↦ list_step seg idx node | none ↦ map_step seg node ]

  -- After the loop: the write at the last step. A write through a node that a step reached is
  -- a write in the tree, so that the same function puts a modified child back.
  write_step : String → Value → Value → Result PathError Value
  unfolding write_list write_map in_range
  write_step seg node v = elim (S.atoi seg) [
    | some idx ↦ write_list seg idx node v
    | none ↦ write_map seg node v
  ]

  unfoldable pub set_at_path : List String → Value → Value → Result PathError Value
  unfolding step write_step
  set_at_path [] tree v = err empty_path
  set_at_path (seg ∷ []) tree v = write_step seg tree v
  set_at_path (seg ∷ next ∷ path) tree v = do
    child ← step seg tree
    child' ← set_at_path (next ∷ path) child v
    write_step seg tree child'
