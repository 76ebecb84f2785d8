-- ===== src/Crdt/MapOperation.antt =====
-- crdt_commands.go: MapOperation, the changes to a map that a program collects. `Changes` are its
-- fields but for `maps`, which nests. A counter's increment is an int64, the number of its bits.
-- `Map` returns the pointer to the nested operation: `in_map` is that call with what is then called
-- on the pointer, and stores what comes out. A pointer that is kept for later is not covered.
use riak_go_client.Prelude.{
  ℕ, ◌+◌, ◌%◌, Bool, true, false, ◌||◌, Option, none, some, List, [], ◌∷◌, ◌++◌, if◌then◌else◌,
}
use riak_go_client.Object.{Bytes, same}
use riak_go_client.Crdt.Dict.{Dict, Names, lookup, put, delete, put_name, delete_name}
pub mod Calls
pub mod Consistency
pub mod Plans

pub record Changes : Type 0 where
  pub increment_counters : Dict ℕ
  pub remove_counters : Names
  pub add_to_sets : Dict (List Bytes)
  pub remove_from_sets : Dict (List Bytes)
  pub remove_sets : Names
  pub registers_to_set : Dict (Option Bytes)
  pub remove_registers : Names
  pub flags_to_set : Dict Bool
  pub remove_flags : Names
  pub remove_maps : Names

mutual
  pub data MapOperation : Type 0 where
    operation : Changes → Maps → MapOperation

  pub data Maps : Type 0 where
    no_maps : Maps
    more_maps : Bytes → MapOperation → Maps → Maps

abbrev pub no_changes : Changes
no_changes = record {
  increment_counters = [];
  remove_counters = [];
  add_to_sets = [];
  remove_from_sets = [];
  remove_sets = [];
  registers_to_set = [];
  remove_registers = [];
  flags_to_set = [];
  remove_flags = [];
  remove_maps = [];
}

-- `&MapOperation{}`.
abbrev pub new_map_operation : MapOperation
new_map_operation = operation no_changes no_maps

abbrev pub change : (Changes → Changes) → MapOperation → MapOperation
change f (operation c maps) = operation (f c) maps

-- What a map that has no such key answers.
abbrev pub or_zero : Option ℕ → ℕ
or_zero none = 0
or_zero (some n) = n

abbrev pub or_empty : Option (List Bytes) → List Bytes
or_empty none = []
or_empty (some l) = l

unfoldable pub increment_counter : Bytes → ℕ → Changes → Changes
increment_counter key increment c = record c {
  remove_counters = delete_name key c.remove_counters;
  increment_counters =
      put key ((or_zero (lookup key c.increment_counters) + increment) % 18446744073709551616)
        c.increment_counters;
}

unfoldable pub remove_counter : Bytes → Changes → Changes
remove_counter key c = record c {
  increment_counters = delete key c.increment_counters;
  remove_counters = put_name key c.remove_counters;
}

unfoldable pub add_to_set : Bytes → Bytes → Changes → Changes
add_to_set key value c = record c {
  remove_sets = delete_name key c.remove_sets;
  add_to_sets = put key (or_empty (lookup key c.add_to_sets) ++ value ∷ []) c.add_to_sets;
}

unfoldable pub remove_from_set : Bytes → Bytes → Changes → Changes
remove_from_set key value c = record c {
  remove_sets = delete_name key c.remove_sets;
  remove_from_sets =
      put key (or_empty (lookup key c.remove_from_sets) ++ value ∷ []) c.remove_from_sets;
}

unfoldable pub remove_set : Bytes → Changes → Changes
remove_set key c = record c {
  add_to_sets = delete key c.add_to_sets;
  remove_from_sets = delete key c.remove_from_sets;
  remove_sets = put_name key c.remove_sets;
}

unfoldable pub set_register : Bytes → Option Bytes → Changes → Changes
set_register key value c = record c {
  remove_registers = delete_name key c.remove_registers;
  registers_to_set = put key value c.registers_to_set;
}

unfoldable pub remove_register : Bytes → Changes → Changes
remove_register key c = record c {
  registers_to_set = delete key c.registers_to_set;
  remove_registers = put_name key c.remove_registers;
}

unfoldable pub set_flag : Bytes → Bool → Changes → Changes
set_flag key value c = record c {
  remove_flags = delete_name key c.remove_flags;
  flags_to_set = put key value c.flags_to_set;
}

unfoldable pub remove_flag : Bytes → Changes → Changes
remove_flag key c = record c {
  flags_to_set = delete key c.flags_to_set;
  remove_flags = put_name key c.remove_flags;
}

-- The nested operation under a key, a new one where there is none, with the calls made on it.
pub on_map : Bytes → (MapOperation → MapOperation) → Maps → Maps
on_map key f no_maps = more_maps key (f new_map_operation) no_maps
on_map key f (more_maps j op maps) =
    if same j key then more_maps j (f op) maps else more_maps j op (on_map key f maps)

unfoldable pub in_map : Bytes → (MapOperation → MapOperation) → MapOperation → MapOperation
unfolding on_map
in_map key f (operation c maps) =
    operation (record c { remove_maps = delete_name key c.remove_maps }) (on_map key f maps)

delete_map : Bytes → Maps → Maps
delete_map key no_maps = no_maps
delete_map key (more_maps j op maps) =
    if same j key then delete_map key maps else more_maps j op (delete_map key maps)

unfoldable pub remove_map : Bytes → MapOperation → MapOperation
unfolding delete_map
remove_map key (operation c maps) =
    operation (record c { remove_maps = put_name key c.remove_maps }) (delete_map key maps)

abbrev pub has_any : {A : Type 0} → List A → Bool
has_any [] = false
has_any (x ∷ xs) = true

abbrev pub own_removes : Changes → Bool
own_removes c =
    has_any c.remove_counters
    || has_any c.remove_sets
    || has_any c.remove_registers
    || has_any c.remove_flags
    || has_any c.remove_maps

unfoldable mutual
  pub has_removes : Bool → MapOperation → Bool
  has_removes include_remove_from_sets (operation c maps) =
      let rv = nested_have_removes maps || own_removes c in
      if include_remove_from_sets then rv || has_any c.remove_from_sets else rv

  pub nested_have_removes : Maps → Bool
  nested_have_removes no_maps = false
  nested_have_removes (more_maps key op maps) =
      if has_removes false op then true else nested_have_removes maps
