-- ===== src/Crdt/MapOperation/Calls.antt =====
-- crdt_commands.go: calls of the methods of MapOperation, as values.
use riak_go_client.Prelude.{ℕ, Bool, Option, List, [], ◌∷◌}
use riak_go_client.Object.{Bytes}
use riak_go_client.Crdt.MapOperation.{
  MapOperation, new_map_operation, change, increment_counter, remove_counter, add_to_set,
  remove_from_set, remove_set, set_register, remove_register, set_flag, remove_flag, in_map,
  remove_map,
}

-- A call of a method of MapOperation; one on the result of `Map`, with its key.
pub data Call : Type 0 where
  increments : Bytes → ℕ → Call
  removes_counter : Bytes → Call
  adds : Bytes → Bytes → Call
  removes_from : Bytes → Bytes → Call
  removes_set : Bytes → Call
  sets_register : Bytes → Option Bytes → Call
  removes_register : Bytes → Call
  sets_flag : Bytes → Bool → Call
  removes_flag : Bytes → Call
  inside : Bytes → Call → Call
  removes_map : Bytes → Call

abbrev pub run : Call → MapOperation → MapOperation
run (increments k n) = change (increment_counter k n)
run (removes_counter k) = change (remove_counter k)
run (adds k v) = change (add_to_set k v)
run (removes_from k v) = change (remove_from_set k v)
run (removes_set k) = change (remove_set k)
run (sets_register k v) = change (set_register k v)
run (removes_register k) = change (remove_register k)
run (sets_flag k b) = change (set_flag k b)
run (removes_flag k) = change (remove_flag k)
run (inside k x) = in_map k (run x)
run (removes_map k) = remove_map k

-- The last call stands first.
abbrev pub run_all : List Call → MapOperation
run_all [] = new_map_operation
run_all (x ∷ xs) = run x (run_all xs)
