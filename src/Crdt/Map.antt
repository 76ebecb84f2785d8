-- ===== src/Crdt/Map.antt =====
-- crdt_commands.go: Map and `parsePbResponse`, the map that a response's entries are read into. `MapValues` are the
-- fields of a Map but for `Maps`, which nests.
use riak_go_client.Prelude.{ℕ, Bool, Option, none, some, List, [], ◌∷◌, if◌then◌else◌}
use riak_go_client.Object.{Bytes, same}
use riak_go_client.Rpb.Fields.{get_number, get_bool}
use riak_go_client.Rpb.Dt.{
  MapField, MapFieldType, counter_field, set_field, register_field, flag_field, map_field, MapEntry,
  entry, MapEntries, nil, cons,
}
use riak_go_client.Crdt.Dict.{Dict, put}
pub mod Parsing

pub record MapValues : Type 0 where
  pub counters : Dict ℕ
  pub sets : Dict (List Bytes)
  pub registers : Dict (Option Bytes)
  pub flags : Dict Bool

mutual
  pub data Map : Type 0 where
    a_map : MapValues → Submaps → Map

  pub data Submaps : Type 0 where
    no_submaps : Submaps
    more_submaps : Bytes → Map → Submaps → Submaps

abbrev pub no_values : MapValues
no_values = record { counters = []; sets = []; registers = []; flags = [] }

-- `m.Maps[key] = sub`.
pub put_submap : Bytes → Map → Submaps → Submaps
put_submap key sub no_submaps = more_submaps key sub no_submaps
put_submap key sub (more_submaps j old subs) =
    if same j key then more_submaps j sub subs else more_submaps j old (put_submap key sub subs)

abbrev pub set_value : (MapValues → MapValues) → Map → Map
set_value f (a_map v subs) = a_map (f v) subs

abbrev pub set_submap : Bytes → Map → Map → Map
set_submap key sub (a_map v subs) = a_map v (put_submap key sub subs)

unfoldable mutual
  unfolding put_submap

  -- The cases of the switch; the entries of a nested map are read in any case, and used in one.
  pub parse_entry : MapEntry → Map → Map
  parse_entry (entry f n s r b es) m = elim f.type [
    | counter_field ↦
        set_value (λ v. record v { counters = put f.name (get_number n) v.counters }) m
    | set_field ↦ set_value (λ v. record v { sets = put f.name s v.sets }) m
    | register_field ↦ set_value (λ v. record v { registers = put f.name r v.registers }) m
    | flag_field ↦ set_value (λ v. record v { flags = put f.name (get_bool b) v.flags }) m
    | map_field ↦ set_submap f.name (parse_entries es (a_map no_values no_submaps)) m
  ]

  pub parse_entries : MapEntries → Map → Map
  parse_entries nil m = m
  parse_entries (cons e es) m = parse_entries es (parse_entry e m)

unfoldable pub parse_pb_response : MapEntries → Map
unfolding parse_entries
parse_pb_response es = parse_entries es (a_map no_values no_submaps)
