-- ===== src/Crdt/MapOperation/Consistency.antt =====
-- crdt_commands.go: MapOperation never both changes and removes a field.
use riak_go_client.Prelude.{
  ◌≡◌, refl, Bool, true, false, ◌&&◌, Option, none, some, List, [], ◌∷◌, if◌then◌else◌, arith,
}
use riak_go_client.Object.{Bytes, same}
use riak_go_client.Object.Indexes.{same_refl}
use riak_go_client.Crdt.Dict.{
  put, delete, put_name, delete_name, Dict, Names, lookup, has_name, lookup-put, lookup-delete,
  has_name-put_name, has_name-delete_name, same_eq, same_sym,
}
use riak_go_client.Crdt.MapOperation.{
  Changes, MapOperation, operation, Maps, no_maps, more_maps, new_map_operation, increment_counter,
  remove_counter, add_to_set, remove_from_set, remove_set, set_register, remove_register, set_flag,
  remove_flag, in_map, remove_map, on_map, delete_map,
}
use riak_go_client.Crdt.MapOperation.Calls.{
  Call, increments, removes_counter, adds, removes_from, removes_set, sets_register,
  removes_register, sets_flag, removes_flag, inside, removes_map, run, run_all,
}

abbrev pub present : {V : Type 0} → Option V → Bool
present none = false
present (some v) = true

-- No name is in both.
abbrev pub Apart : {V : Type 0} → Dict V → Names → Type 0
Apart d names = (k : Bytes) → (present (lookup k d) && has_name k names) ≡ false

pub has_map : Bytes → Maps → Bool
has_map k no_maps = false
has_map k (more_maps j op maps) = if same j k then true else has_map k maps

pub record IsConsistent (c : Changes) : Type 0 where
  pub counters : Apart c.increment_counters c.remove_counters
  pub adding : Apart c.add_to_sets c.remove_sets
  pub removing : Apart c.remove_from_sets c.remove_sets
  pub registers : Apart c.registers_to_set c.remove_registers
  pub flags : Apart c.flags_to_set c.remove_flags

abbrev mutual
  -- At any depth, no field is both changed and removed.
  pub Consistent : MapOperation → Type 0
  Consistent (operation c maps) =
      IsConsistent c
      × ((k : Bytes) → (has_map k maps && has_name k c.remove_maps) ≡ false)
      × AllConsistent maps

  pub AllConsistent : Maps → Type 0
  AllConsistent no_maps = Unit
  AllConsistent (more_maps key op maps) = Consistent op × AllConsistent maps

module _ {V : Type 0} (d : Dict V) (names : Names) (h : Apart d names) (k : Bytes) where
  Apart-put : (v : V) → Apart (put k v d) (delete_name k names)
  Apart-put v j = rw (lookup-put k j v d, has_name-delete_name k j names) (ground (arith, h j))

  Apart-delete : Apart (delete k d) (put_name k names)
  Apart-delete j = rw (lookup-delete k j d, has_name-put_name k j names) (ground (arith, h j))

  -- The other map of a set that is removed, and the other one of a set that is changed.
  Apart-delete_name : Apart d (delete_name k names)
  Apart-delete_name j = rw (has_name-delete_name k j names) (ground (arith, h j))

-- `Map` and `RemoveMap`.
has_map-on_map :
    (k j : Bytes) (f : MapOperation → MapOperation) (maps : Maps)
    → has_map j (on_map k f maps) ≡ (if same k j then true else has_map j maps)
unfolding has_map on_map
has_map-on_map k j f no_maps = refl
has_map-on_map k j f (more_maps i op maps) = ground (
  arith,
  has_map-on_map k j f maps,
  same_eq i k,
  same_eq i j,
  same_eq k j,
  same_sym i k,
  same_refl k,
  same_refl j,
)

has_map-delete_map :
    (k j : Bytes) (maps : Maps)
    → has_map j (delete_map k maps) ≡ (if same k j then false else has_map j maps)
unfolding has_map delete_map
has_map-delete_map k j no_maps = ground arith
has_map-delete_map k j (more_maps i op maps) = ground (
  arith,
  has_map-delete_map k j maps,
  same_eq i k,
  same_eq i j,
  same_eq k j,
  same_sym i k,
  same_refl k,
  same_refl j,
)

new-Consistent : Consistent new_map_operation
unfolding lookup has_name has_map
new-Consistent = (
  record {
    counters = λ k. refl;
    adding = λ k. refl;
    removing = λ k. refl;
    registers = λ k. refl;
    flags = λ k. refl;
  },
  (λ k. refl),
  tt,
)

if-AllConsistent :
    (b : Bool) (x y : Maps) → AllConsistent x → AllConsistent y → AllConsistent (if b then x else y)
if-AllConsistent true x y p q = p
if-AllConsistent false x y p q = q

on_map-AllConsistent :
    (k : Bytes) (f : MapOperation → MapOperation) (maps : Maps)
    → ((op : MapOperation) → Consistent op → Consistent (f op))
    → AllConsistent maps
    → AllConsistent (on_map k f maps)
unfolding on_map
on_map-AllConsistent k f no_maps keeps h = (keeps new_map_operation new-Consistent, tt)
on_map-AllConsistent k f (more_maps j op maps) keeps (h, hs) =
    if-AllConsistent (same j k) (more_maps j (f op) maps) (more_maps j op (on_map k f maps))
      (keeps op h, hs) (h, on_map-AllConsistent k f maps keeps hs)

delete_map-AllConsistent :
    (k : Bytes) (maps : Maps) → AllConsistent maps → AllConsistent (delete_map k maps)
unfolding delete_map
delete_map-AllConsistent k no_maps h = tt
delete_map-AllConsistent k (more_maps j op maps) (h, hs) =
    if-AllConsistent (same j k) (delete_map k maps) (more_maps j op (delete_map k maps))
      (delete_map-AllConsistent k maps hs) (h, delete_map-AllConsistent k maps hs)

pub run-Consistent : (x : Call) (op : MapOperation) → Consistent op → Consistent (run x op)
unfolding increment_counter remove_counter add_to_set remove_from_set remove_set set_register
    remove_register set_flag remove_flag in_map remove_map
run-Consistent (increments k n) (operation c maps) (h, m, hs) = (
  record {
    counters = Apart-put _ _ h.counters k _;
    adding = h.adding;
    removing = h.removing;
    registers = h.registers;
    flags = h.flags;
  },
  m,
  hs,
)
run-Consistent (removes_counter k) (operation c maps) (h, m, hs) = (
  record {
    counters = Apart-delete _ _ h.counters k;
    adding = h.adding;
    removing = h.removing;
    registers = h.registers;
    flags = h.flags;
  },
  m,
  hs,
)
run-Consistent (adds k v) (operation c maps) (h, m, hs) = (
  record {
    counters = h.counters;
    adding = Apart-put _ _ h.adding k _;
    removing = Apart-delete_name _ _ h.removing k;
    registers = h.registers;
    flags = h.flags;
  },
  m,
  hs,
)
run-Consistent (removes_from k v) (operation c maps) (h, m, hs) = (
  record {
    counters = h.counters;
    adding = Apart-delete_name _ _ h.adding k;
    removing = Apart-put _ _ h.removing k _;
    registers = h.registers;
    flags = h.flags;
  },
  m,
  hs,
)
run-Consistent (removes_set k) (operation c maps) (h, m, hs) = (
  record {
    counters = h.counters;
    adding = Apart-delete _ _ h.adding k;
    removing = Apart-delete _ _ h.removing k;
    registers = h.registers;
    flags = h.flags;
  },
  m,
  hs,
)
run-Consistent (sets_register k v) (operation c maps) (h, m, hs) = (
  record {
    counters = h.counters;
    adding = h.adding;
    removing = h.removing;
    registers = Apart-put _ _ h.registers k v;
    flags = h.flags;
  },
  m,
  hs,
)
run-Consistent (removes_register k) (operation c maps) (h, m, hs) = (
  record {
    counters = h.counters;
    adding = h.adding;
    removing = h.removing;
    registers = Apart-delete _ _ h.registers k;
    flags = h.flags;
  },
  m,
  hs,
)
run-Consistent (sets_flag k b) (operation c maps) (h, m, hs) = (
  record {
    counters = h.counters;
    adding = h.adding;
    removing = h.removing;
    registers = h.registers;
    flags = Apart-put _ _ h.flags k b;
  },
  m,
  hs,
)
run-Consistent (removes_flag k) (operation c maps) (h, m, hs) = (
  record {
    counters = h.counters;
    adding = h.adding;
    removing = h.removing;
    registers = h.registers;
    flags = Apart-delete _ _ h.flags k;
  },
  m,
  hs,
)
run-Consistent (inside k x) (operation c maps) (h, m, hs) = (
  record {
    counters = h.counters;
    adding = h.adding;
    removing = h.removing;
    registers = h.registers;
    flags = h.flags;
  },
  (λ j.
      rw (has_map-on_map k j (run x) maps, has_name-delete_name k j c.remove_maps)
        (ground (arith, m j))),
  on_map-AllConsistent k (run x) maps (λ op. run-Consistent x op) hs,
)
run-Consistent (removes_map k) (operation c maps) (h, m, hs) = (
  record {
    counters = h.counters;
    adding = h.adding;
    removing = h.removing;
    registers = h.registers;
    flags = h.flags;
  },
  (λ j.
      rw (has_map-delete_map k j maps, has_name-put_name k j c.remove_maps) (ground (arith, m j))),
  delete_map-AllConsistent k maps hs,
)

-- Whatever methods are called on a MapOperation and on the results of its `Map`, in any order: it
-- never both changes and removes a counter, a set, a register, a flag or a map, at any depth.
pub run_all-Consistent : (xs : List Call) → Consistent (run_all xs)
run_all-Consistent [] = new-Consistent
run_all-Consistent (x ∷ xs) = run-Consistent x (run_all xs) (run_all-Consistent xs)
