-- ===== src/Crdt/Populate.antt =====
-- crdt_commands.go: `populate`, the message that a MapOperation is sent as. What the loops append
-- stands in the order in which they run.
use riak_go_client.Prelude.{
  ℕ, Bool, true, false, Option, some, List, [], ◌∷◌, ◌++◌, map, if◌then◌else◌,
}
use riak_go_client.Object.{Bytes}
use riak_go_client.Rpb.Dt.{
  MapField, MapFieldType, counter_field, set_field, register_field, flag_field, map_field, FlagOp,
  enable, disable, MapOp, map_op, update_counter, update_set, update_register, update_flag,
  update_map, MapUpdates, no_updates, more_updates,
}
use riak_go_client.Crdt.Dict.{Dict, Names}
use riak_go_client.Crdt.MapOperation.{
  Changes, MapOperation, operation, Maps, no_maps, more_maps, has_removes,
}

abbrev pub field : MapFieldType → Bytes → MapField
field t name = record { name = name; type = t }

abbrev pub field_removes : MapFieldType → Names → List MapField
field_removes t = map (field t)

abbrev pub removes_of : Changes → List MapField
removes_of c =
    field_removes counter_field c.remove_counters
    ++ (field_removes set_field c.remove_sets
        ++ (field_removes map_field c.remove_maps
            ++ (field_removes register_field c.remove_registers
                ++ field_removes flag_field c.remove_flags)))

-- Each loop, with the updates that the later ones append.
unfoldable pub counter_updates : Dict ℕ → MapUpdates → MapUpdates
counter_updates [] rest = rest
counter_updates ((name, increment) ∷ d) rest =
    more_updates (update_counter (field counter_field name) (record { increment = some increment }))
      (counter_updates d rest)

unfoldable pub add_updates : Dict (List Bytes) → MapUpdates → MapUpdates
add_updates [] rest = rest
add_updates ((name, adds) ∷ d) rest =
    more_updates (update_set (field set_field name) (record { adds = adds; removes = [] }))
      (add_updates d rest)

unfoldable pub remove_updates : Dict (List Bytes) → MapUpdates → MapUpdates
remove_updates [] rest = rest
remove_updates ((name, removes) ∷ d) rest =
    more_updates (update_set (field set_field name) (record { adds = []; removes = removes }))
      (remove_updates d rest)

unfoldable pub register_updates : Dict (Option Bytes) → MapUpdates → MapUpdates
register_updates [] rest = rest
register_updates ((name, register) ∷ d) rest =
    more_updates (update_register (field register_field name) register) (register_updates d rest)

abbrev flag_op : Bool → FlagOp
flag_op true = enable
flag_op false = disable

unfoldable pub flag_updates : Dict Bool → MapUpdates → MapUpdates
flag_updates [] rest = rest
flag_updates ((name, flag) ∷ d) rest =
    more_updates (update_flag (field flag_field name) (flag_op flag)) (flag_updates d rest)

unfoldable mutual
  unfolding has_removes counter_updates add_updates remove_updates register_updates flag_updates

  pub populate : MapOperation → MapOp
  populate (operation c maps) =
      map_op (if has_removes false (operation c maps) then removes_of c else []) (
        counter_updates c.increment_counters (
          add_updates c.add_to_sets (
            remove_updates c.remove_from_sets (
              register_updates c.registers_to_set
                (flag_updates c.flags_to_set (map_updates maps))))))

  pub map_updates : Maps → MapUpdates
  map_updates no_maps = no_updates
  map_updates (more_maps name op maps) =
      more_updates (update_map (field map_field name) (populate op)) (map_updates maps)
