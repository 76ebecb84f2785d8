-- ===== src/Crdt/Examples.antt =====
-- crdt_commands.go: tests and examples.
use riak_go_client.Prelude.{◌≡◌, ◌||◌, ◌&&◌, refl, true, none, some, inr, List, [], ◌∷◌}
use riak_go_client.Command.Building.{new_impl}
use riak_go_client.Rpb.Dt.{new_dt_update_req}
use riak_go_client.Crdt.MapOperation.{operation, Changes, no_changes, no_maps, has_removes, has_any}
use riak_go_client.Crdt.MapOperation.Calls.{
  Call, increments, removes_counter, adds, removes_from, sets_register, inside, run_all,
}
use riak_go_client.Crdt.MapOperation.Consistency.{Consistent, run_all-Consistent}
use riak_go_client.Crdt.MapOperation.Plans.{
  planned, counter_step, register_step, flag_step, counter_plan, register_plan, flag_plan,
  run_all-planned,
}
use riak_go_client.Crdt.Populate.{populate}
use riak_go_client.Crdt.Contexts.{takes_from_sets, nested_removal, build-nested_removal}
use riak_go_client.Crdt.Removals.{removals, sent_removals, takes_elements, has_removes-populate}
use riak_go_client.Crdt.UpdateMap
use riak_go_client.Crdt.UpdateMap.{UpdateMapCommandBuilder, UpdateMapCommand}
use riak_go_client.Crdt.Map.{Map, a_map, no_submaps, more_submaps, no_values, parse_pb_response}
use riak_go_client.Crdt.Map.Parsing.{entries_of, parse_pb_response-entries_of}

-- The last call stands first.
abbrev calls : List Call
calls =
    increments (1 ∷ []) 5
    ∷ removes_counter (1 ∷ [])
    ∷ inside (7 ∷ []) (removes_from (2 ∷ []) (9 ∷ []))
    ∷ sets_register (3 ∷ []) (some (4 ∷ []))
    ∷ adds (2 ∷ []) (8 ∷ [])
    ∷ increments (1 ∷ []) 30
    ∷ []

run_all-Consistent_example : Consistent (run_all calls)
run_all-Consistent_example = run_all-Consistent calls

run_all-planned_example :
    (counter_plan (run_all calls) (1 ∷ []) ≡ planned (λ x. counter_step x (1 ∷ [])) calls)
    × (register_plan (run_all calls) (1 ∷ []) ≡ planned (λ x. register_step x (1 ∷ [])) calls)
    × (flag_plan (run_all calls) (1 ∷ []) ≡ planned (λ x. flag_step x (1 ∷ [])) calls)
run_all-planned_example = run_all-planned calls (1 ∷ [])

has_removes-populate_example :
    (has_removes true (run_all calls)
      ≡ (has_any (removals [] (run_all calls)) || (true && takes_elements (run_all calls))))
    × (sent_removals [] (populate (run_all calls)) ≡ removals [] (run_all calls))
has_removes-populate_example = has_removes-populate true (run_all calls)

-- A counter, and within it a map with a register of the same name.
abbrev a_user : Map
a_user =
    a_map (record no_values { counters = (1 ∷ [], 3) ∷ (2 ∷ [], 4) ∷ [] })
      (more_submaps (1 ∷ [])
        (a_map (record no_values { registers = (1 ∷ [], some (5 ∷ [])) ∷ [] }) no_submaps)
        no_submaps)

parse_pb_response-entries_of_example : parse_pb_response (entries_of a_user) ≡ a_user
parse_pb_response-entries_of_example =
    parse_pb_response-entries_of a_user
      ((tt, ((refl, tt), tt)), tt, tt, tt, (tt, (tt, tt, (tt, tt), tt, tt), tt))

abbrev changes : Changes
changes = record no_changes { increment_counters = (1 ∷ [], 3) ∷ [] }

abbrev increment_builder : UpdateMapCommandBuilder
increment_builder = record {
  map_operation = some (operation changes no_maps);
  timeout = 0;
  protobuf = record new_dt_update_req { bucket = some (98 ∷ []); type = some (116 ∷ []) };
}

abbrev increment : UpdateMapCommand
increment = record {
  impl = new_impl;
  timeout = 0;
  last_node = none;
  response = none;
  op = some (operation changes no_maps);
  protobuf = increment_builder.protobuf;
}

abbrev removal_builder : UpdateMapCommandBuilder
removal_builder = record increment_builder {
  map_operation = some (nested_removal (7 ∷ []) (2 ∷ []) (9 ∷ []));
}

-- There is no context.
build-nested_removal_example :
    (cmd : UpdateMapCommand) × (UpdateMap.build removal_builder ≡ inr cmd)
    × (cmd.protobuf.context ≡ none)
    × (takes_from_sets (populate (nested_removal (7 ∷ []) (2 ∷ []) (9 ∷ []))) ≡ true)
build-nested_removal_example =
    build-nested_removal removal_builder (7 ∷ []) (2 ∷ []) (9 ∷ []) refl refl
