-- ===== src/Crdt/Contexts.antt =====
-- crdt_commands.go: which updates of a map need a context, as `hasRemoves` and `Build` say it, and
-- what is sent.
use riak_go_client.Prelude.{
  ℕ, ◌≡◌, refl, Bool, true, false, ◌||◌, Option, some, inl, inr, Bool-cases, List, [], ◌∷◌, ◌++◌,
  map, if◌then◌else◌, arith,
}
use riak_go_client.Object.{Bytes, is_empty, default_type}
use riak_go_client.Rpb.Fields.{get_bytes, validate}
use riak_go_client.Rpb.Dt.{
  MapField, MapOp, map_op, update_counter, update_set, update_register, update_flag, update_map,
  MapUpdates, no_updates, more_updates, DtUpdateReq, dt_update_req_locatable,
}
use riak_go_client.Crdt.Dict.{Dict, lookup, put, delete_name}
use riak_go_client.Crdt.MapOperation.{
  Changes, MapOperation, operation, Maps, no_maps, more_maps, has_removes, nested_have_removes,
  own_removes, has_any, new_map_operation, change, remove_from_set, in_map,
}
use riak_go_client.Crdt.Populate.{
  populate, map_updates, counter_updates, add_updates, remove_updates, register_updates,
  flag_updates, removes_of,
}
use riak_go_client.Crdt.UpdateMap.{
  UpdateMapCommandBuilder, UpdateMapCommand, build, with_operation, command_of,
}

-- The message removes a field, at any depth.
unfoldable mutual
  pub sends_removes : MapOp → Bool
  sends_removes (map_op removes updates) = has_any removes || updates_remove updates

  pub updates_remove : MapUpdates → Bool
  updates_remove no_updates = false
  updates_remove (more_updates (update_map f op) rest) = sends_removes op || updates_remove rest
  updates_remove (more_updates (update_counter f op) rest) = updates_remove rest
  updates_remove (more_updates (update_set f op) rest) = updates_remove rest
  updates_remove (more_updates (update_register f op) rest) = updates_remove rest
  updates_remove (more_updates (update_flag f op) rest) = updates_remove rest

counters_lem :
    (d : Dict ℕ) (r : MapUpdates) → updates_remove (counter_updates d r) ≡ updates_remove r
unfolding updates_remove counter_updates
counters_lem [] r = refl
counters_lem (x ∷ d) r = counters_lem d r

adds_lem :
    (d : Dict (List Bytes)) (r : MapUpdates) → updates_remove (add_updates d r) ≡ updates_remove r
unfolding updates_remove add_updates
adds_lem [] r = refl
adds_lem (x ∷ d) r = adds_lem d r

removes_lem :
    (d : Dict (List Bytes)) (r : MapUpdates)
    → updates_remove (remove_updates d r) ≡ updates_remove r
unfolding updates_remove remove_updates
removes_lem [] r = refl
removes_lem (x ∷ d) r = removes_lem d r

registers_lem :
    (d : Dict (Option Bytes)) (r : MapUpdates)
    → updates_remove (register_updates d r) ≡ updates_remove r
unfolding updates_remove register_updates
registers_lem [] r = refl
registers_lem (x ∷ d) r = registers_lem d r

flags_lem : (d : Dict Bool) (r : MapUpdates) → updates_remove (flag_updates d r) ≡ updates_remove r
unfolding updates_remove flag_updates
flags_lem [] r = refl
flags_lem (x ∷ d) r = flags_lem d r

pub has_any-map : {A B : Type 0} (f : A → B) (xs : List A) → has_any (map f xs) ≡ has_any xs
has_any-map f [] = refl
has_any-map f (x ∷ xs) = refl

pub has_any-append : {A : Type 0} (xs ys : List A) → has_any (xs ++ ys) ≡ (has_any xs || has_any ys)
has_any-append [] ys = refl
has_any-append (x ∷ xs) ys = refl

pub has_any-removes_of : (c : Changes) → has_any (removes_of c) ≡ own_removes c
has_any-removes_of c =
    simp (has_any-append, has_any-map)
      (swap (has_any c.remove_counters) (has_any c.remove_sets) (has_any c.remove_maps)
        (has_any c.remove_registers) (has_any c.remove_flags))
  where
    swap : (a b m r f : Bool) → (a || (b || (m || (r || f)))) ≡ (a || b || r || f || m)
    swap a b m r f = ground arith

by_tests :
    (n o : Bool) (l : List MapField)
    → has_any l ≡ o
    → (has_any (if n || o then l else []) || n) ≡ (n || o)
by_tests n o l h = ground arith

mutual
  unfolding has_removes sends_removes populate

  sends_removes-populate : (op : MapOperation) → sends_removes (populate op) ≡ has_removes false op
  sends_removes-populate (operation c maps) =
      rw
        (
          counters_lem c.increment_counters,
          adds_lem c.add_to_sets,
          removes_lem c.remove_from_sets,
          registers_lem c.registers_to_set,
          flags_lem c.flags_to_set,
          updates_remove-map_updates maps,
        )
        (by_tests (nested_have_removes maps) (own_removes c) (removes_of c) (has_any-removes_of c))

  updates_remove-map_updates :
      (maps : Maps) → updates_remove (map_updates maps) ≡ nested_have_removes maps
  updates_remove-map_updates no_maps = refl
  updates_remove-map_updates (more_maps name op maps) =
      rw (sends_removes-populate op, updates_remove-map_updates maps) (ground arith)

-- The message removes elements of a set, at any depth.
unfoldable mutual
  pub takes_from_sets : MapOp → Bool
  takes_from_sets (map_op removes updates) = updates_take updates

  pub updates_take : MapUpdates → Bool
  updates_take no_updates = false
  updates_take (more_updates (update_map f op) rest) = takes_from_sets op || updates_take rest
  updates_take (more_updates (update_set f op) rest) = has_any op.removes || updates_take rest
  updates_take (more_updates (update_counter f op) rest) = updates_take rest
  updates_take (more_updates (update_register f op) rest) = updates_take rest
  updates_take (more_updates (update_flag f op) rest) = updates_take rest

validate_lem :
    (m : DtUpdateReq)
    → is_empty (get_bytes m.bucket) ≡ false
    → (m' : DtUpdateReq) × (validate m ≡ inr m') × (m'.context ≡ m.context)
unfolding validate
validate_lem m bucket = elim (Bool-cases (is_empty (get_bytes m.type))) [
  | inl untyped ↦ (record m { type = some default_type }, rw (bucket, untyped) refl, refl)
  | inr typed ↦ (record m { type = some (get_bytes m.type) }, rw (bucket, typed) refl, refl)
]

-- An element that is to be removed from a set in a nested map, under any names.
abbrev pub nested_removal : Bytes → Bytes → Bytes → MapOperation
nested_removal key name value = in_map key (change (remove_from_set name value)) new_map_operation

-- `Build` accepts an UpdateMap with a bucket whose operation removes an element from a set in a
-- nested map, whatever the names and the element are, with the context that its builder has, also
-- where that is none; and what is sent takes an element from a set.
pub build-nested_removal :
    (b : UpdateMapCommandBuilder) (key name value : Bytes)
    → b.map_operation ≡ some (nested_removal key name value)
    → is_empty (get_bytes b.protobuf.bucket) ≡ false
    → (cmd : UpdateMapCommand) × (build b ≡ inr cmd)
      × (cmd.protobuf.context ≡ b.protobuf.context)
      × (takes_from_sets (populate (nested_removal key name value)) ≡ true)
unfolding build with_operation has_removes populate takes_from_sets in_map remove_from_set lookup
    put add_updates remove_updates register_updates flag_updates counter_updates delete_name
build-nested_removal b key name value o bucket =
    let (protobuf, v, c) = validate_lem b.protobuf bucket in
    (command_of b protobuf (nested_removal key name value), rw (v, o) refl, c, refl)
