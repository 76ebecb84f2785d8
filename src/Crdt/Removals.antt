-- ===== src/Crdt/Removals.antt =====
-- crdt_commands.go: which fields an update of a map removes, at every depth.
use riak_go_client.Prelude.{
  ℕ, ◌≡◌, refl, ap, sym, ◌∙◌, Bool, true, false, ◌||◌, ◌&&◌, Option, List, [], ◌∷◌, ◌++◌, map,
  if◌then◌else◌, arith,
}
use riak_go_client.Object.{Bytes}
use riak_go_client.Rpb.Dt.{
  MapField, counter_field, set_field, register_field, flag_field, map_field, MapOp, map_op,
  update_counter, update_set, update_register, update_flag, update_map, MapUpdates, no_updates,
  more_updates,
}
use riak_go_client.Crdt.Dict.{Dict}
use riak_go_client.Crdt.MapOperation.{
  Changes, MapOperation, operation, Maps, no_maps, more_maps, has_removes, nested_have_removes,
  own_removes, has_any,
}
use riak_go_client.Crdt.Populate.{
  populate, map_updates, counter_updates, add_updates, remove_updates, register_updates,
  flag_updates, removes_of,
}
use riak_go_client.Crdt.Contexts.{has_any-map, has_any-append, has_any-removes_of}

-- A field that is removed, with the names of the maps that it stands in, the outermost first.
abbrev pub Removal : Type 0
Removal = List Bytes × MapField

-- The fields that an operation removes itself, by their kinds.
abbrev pub removed : Changes → List MapField
removed c =
    map (λ n. record { name = n; type = counter_field }) c.remove_counters
    ++ (map (λ n. record { name = n; type = set_field }) c.remove_sets
        ++ (map (λ n. record { name = n; type = map_field }) c.remove_maps
            ++ (map (λ n. record { name = n; type = register_field }) c.remove_registers
                ++ map (λ n. record { name = n; type = flag_field }) c.remove_flags)))

-- All removals that a program has asked for in an operation and in the maps within it.
unfoldable mutual
  pub removals : List Bytes → MapOperation → List Removal
  removals path (operation c maps) = map (λ f. (path, f)) (removed c) ++ nested_removals path maps

  pub nested_removals : List Bytes → Maps → List Removal
  nested_removals path no_maps = []
  nested_removals path (more_maps name op maps) =
      removals (path ++ name ∷ []) op ++ nested_removals path maps

-- All removals that a message holds.
unfoldable mutual
  pub sent_removals : List Bytes → MapOp → List Removal
  sent_removals path (map_op removes updates) =
      map (λ f. (path, f)) removes ++ sent_within path updates

  pub sent_within : List Bytes → MapUpdates → List Removal
  sent_within path no_updates = []
  sent_within path (more_updates (update_map f op) rest) =
      sent_removals (path ++ f.name ∷ []) op ++ sent_within path rest
  sent_within path (more_updates (update_counter f op) rest) = sent_within path rest
  sent_within path (more_updates (update_set f op) rest) = sent_within path rest
  sent_within path (more_updates (update_register f op) rest) = sent_within path rest
  sent_within path (more_updates (update_flag f op) rest) = sent_within path rest

-- Elements are to be removed from sets of the operation itself.
abbrev pub takes_elements : MapOperation → Bool
takes_elements (operation c maps) = has_any c.remove_from_sets

module _ (path : List Bytes) where
  counters_lem :
      (d : Dict ℕ) (r : MapUpdates) → sent_within path (counter_updates d r) ≡ sent_within path r
  unfolding sent_within counter_updates
  counters_lem [] r = refl
  counters_lem (x ∷ d) r = counters_lem d r

  adds_lem :
      (d : Dict (List Bytes)) (r : MapUpdates)
      → sent_within path (add_updates d r) ≡ sent_within path r
  unfolding sent_within add_updates
  adds_lem [] r = refl
  adds_lem (x ∷ d) r = adds_lem d r

  removes_lem :
      (d : Dict (List Bytes)) (r : MapUpdates)
      → sent_within path (remove_updates d r) ≡ sent_within path r
  unfolding sent_within remove_updates
  removes_lem [] r = refl
  removes_lem (x ∷ d) r = removes_lem d r

  registers_lem :
      (d : Dict (Option Bytes)) (r : MapUpdates)
      → sent_within path (register_updates d r) ≡ sent_within path r
  unfolding sent_within register_updates
  registers_lem [] r = refl
  registers_lem (x ∷ d) r = registers_lem d r

  flags_lem :
      (d : Dict Bool) (r : MapUpdates) → sent_within path (flag_updates d r) ≡ sent_within path r
  unfolding sent_within flag_updates
  flags_lem [] r = refl
  flags_lem (x ∷ d) r = flags_lem d r

-- Where the test before the loops says no, there is nothing to remove.
gate_lem : (n o : Bool) (l : List MapField) → has_any l ≡ o → (if n || o then l else []) ≡ l
gate_lem n o [] h = ground arith
gate_lem n o (x ∷ l) h = ground arith

if_or : (a b : Bool) → (if a then true else b) ≡ (a || b)
if_or true b = refl
if_or false b = refl

or_swap : (a b : Bool) → (a || b) ≡ (b || a)
or_swap a b = ground arith

mutual
  unfolding has_removes sent_removals removals populate

  sent-populate :
      (path : List Bytes) (op : MapOperation) → sent_removals path (populate op) ≡ removals path op
  sent-populate path (operation c maps) =
      rw
        (
          counters_lem path c.increment_counters,
          adds_lem path c.add_to_sets,
          removes_lem path c.remove_from_sets,
          registers_lem path c.registers_to_set,
          flags_lem path c.flags_to_set,
          sent-map_updates path maps,
          gate_lem (nested_have_removes maps) (own_removes c) (removes_of c) (has_any-removes_of c),
        )
        refl

  sent-map_updates :
      (path : List Bytes) (maps : Maps)
      → sent_within path (map_updates maps) ≡ nested_removals path maps
  sent-map_updates path no_maps = refl
  sent-map_updates path (more_maps name op maps) =
      rw (sent-populate (path ++ name ∷ []) op, sent-map_updates path maps) refl

mutual
  unfolding has_removes removals

  has_removes-removals :
      (path : List Bytes) (op : MapOperation) → has_removes false op ≡ has_any (removals path op)
  has_removes-removals path (operation c maps) =
      rw
        (
          has_any-append,
          has_any-map,
          nested_have_removes-removals path maps,
          sym (has_any-removes_of c),
        )
        (or_swap (has_any (nested_removals path maps)) (has_any (removes_of c)))

  nested_have_removes-removals :
      (path : List Bytes) (maps : Maps)
      → nested_have_removes maps ≡ has_any (nested_removals path maps)
  nested_have_removes-removals path no_maps = refl
  nested_have_removes-removals path (more_maps name op maps) =
      rw
        (
          has_any-append,
          has_removes-removals (path ++ name ∷ []) op,
          nested_have_removes-removals path maps,
        )
        (if_or (has_any (removals (path ++ name ∷ []) op)) (has_any (nested_removals path maps)))

with_elements :
    (b : Bool) (op : MapOperation)
    → has_removes b op ≡ (has_removes false op || (b && takes_elements op))
unfolding has_removes
with_elements true (operation c maps) = refl
with_elements false (operation c maps) = ground arith

-- Of every operation, `hasRemoves` says whether it removes a field, of the operation or of a map at
-- any depth within it, or, where it is asked to include these, elements of the operation's own
-- sets; and the message that `populate` makes holds exactly the removals of fields that were asked
-- for, each at its place and with its kind, and none is left out.
pub has_removes-populate :
    (b : Bool) (op : MapOperation)
    → (has_removes b op ≡ (has_any (removals [] op) || (b && takes_elements op)))
      × (sent_removals [] (populate op) ≡ removals [] op)
has_removes-populate b op = (
  with_elements b op ∙ ap (λ x. x || (b && takes_elements op)) (has_removes-removals [] op),
  sent-populate [] op,
)
