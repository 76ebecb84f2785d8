-- ===== src/Crdt/Map/Parsing.antt =====
-- crdt_commands.go: the entries of a map, read back into it.
use riak_go_client.Prelude.{
  ℕ, ◌≡◌, refl, ◌∙◌, ap, sym, Bool, false, Option, none, some, List, [], ◌∷◌, ◌++◌,
}
use mathlib.Core.List.{append_assoc, append-nil}
use riak_go_client.Object.{Bytes, same}
use riak_go_client.Rpb.Dt.{
  MapField, MapFieldType, counter_field, set_field, register_field, flag_field, map_field, MapEntry,
  entry, MapEntries, nil, cons,
}
use riak_go_client.Crdt.Dict.{Dict, put}
use riak_go_client.Crdt.Map.{
  Map, a_map, Submaps, no_submaps, more_submaps, MapValues, no_values, put_submap, parse_entry,
  parse_entries, parse_pb_response,
}

abbrev field : MapFieldType → Bytes → MapField
field t name = record { name = name; type = t }

abbrev counter_entry : Bytes → ℕ → MapEntry
counter_entry k n = entry (field counter_field k) (some n) [] none none nil

abbrev set_entry : Bytes → List Bytes → MapEntry
set_entry k s = entry (field set_field k) none s none none nil

abbrev register_entry : Bytes → Option Bytes → MapEntry
register_entry k r = entry (field register_field k) none [] r none nil

abbrev flag_entry : Bytes → Bool → MapEntry
flag_entry k b = entry (field flag_field k) none [] none (some b) nil

abbrev map_entry : Bytes → MapEntries → MapEntry
map_entry k es = entry (field map_field k) none [] none none es

-- The entries for one of the dictionaries of a map, with the entries that follow.
abbrev emit : {V : Type 0} → (Bytes → V → MapEntry) → Dict V → MapEntries → MapEntries
emit e [] rest = rest
emit e ((k, v) ∷ d) rest = cons (e k v) (emit e d rest)

-- The entries that a server sends for a map.
unfoldable mutual
  pub entries_of : Map → MapEntries
  entries_of (a_map v subs) = emit counter_entry v.counters (
      emit set_entry v.sets
        (emit register_entry v.registers (emit flag_entry v.flags (submap_entries subs))))

  pub submap_entries : Submaps → MapEntries
  submap_entries no_submaps = nil
  submap_entries (more_submaps k m subs) = cons (map_entry k (entries_of m)) (submap_entries subs)

-- No name stands twice, with the names before.
abbrev Fresh : {V : Type 0} → Bytes → Dict V → Type 0
Fresh k [] = Unit
Fresh k ((j, v) ∷ d) = (same j k ≡ false) × Fresh k d

abbrev Distinct : {V : Type 0} → Dict V → Dict V → Type 0
Distinct before [] = Unit
Distinct before ((k, v) ∷ d) = Fresh k before × Distinct (before ++ (k, v) ∷ []) d

put-Fresh : {V : Type 0} (k : Bytes) (v : V) (d : Dict V) → Fresh k d → put k v d ≡ d ++ (k, v) ∷ []
unfolding put
put-Fresh k v [] h = refl
put-Fresh k v ((j, w) ∷ d) (n, h) = rw (n, put-Fresh k v d h) refl

-- The same for maps within maps, at any depth.
abbrev FreshMap : Bytes → Submaps → Type 0
FreshMap k no_submaps = Unit
FreshMap k (more_submaps j m subs) = (same j k ≡ false) × FreshMap k subs

abbrev add_last : Submaps → Bytes → Map → Submaps
add_last no_submaps k m = more_submaps k m no_submaps
add_last (more_submaps j n subs) k m = more_submaps j n (add_last subs k m)

abbrev join : Submaps → Submaps → Submaps
join no_submaps subs = subs
join (more_submaps j n rest) subs = more_submaps j n (join rest subs)

join-no_submaps : (a : Submaps) → join a no_submaps ≡ a
join-no_submaps no_submaps = refl
join-no_submaps (more_submaps j n a) = rw (join-no_submaps a) refl

join-add_last :
    (a : Submaps) (k : Bytes) (m : Map) (b : Submaps)
    → join (add_last a k m) b ≡ join a (more_submaps k m b)
join-add_last no_submaps k m b = refl
join-add_last (more_submaps j n a) k m b = rw (join-add_last a k m b) refl

put_submap-FreshMap :
    (k : Bytes) (m : Map) (subs : Submaps)
    → FreshMap k subs
    → put_submap k m subs ≡ add_last subs k m
unfolding put_submap
put_submap-FreshMap k m no_submaps h = refl
put_submap-FreshMap k m (more_submaps j n subs) (d, h) = rw (d, put_submap-FreshMap k m subs h) refl

abbrev mutual
  pub IsProper : Map → Type 0
  IsProper (a_map v subs) =
      Distinct [] v.counters
      × Distinct [] v.sets
      × Distinct [] v.registers
      × Distinct [] v.flags
      × AllProper no_submaps subs

  pub AllProper : Submaps → Submaps → Type 0
  AllProper before no_submaps = Unit
  AllProper before (more_submaps k m subs) =
      FreshMap k before × IsProper m × AllProper (add_last before k m) subs

-- The entries of a dictionary, read one after the other into the map that holds it.
parse_entries-emit :
    {V : Type 0} (e : Bytes → V → MapEntry) (into : Dict V → Map)
    → ((k : Bytes) (v : V) (d : Dict V) → parse_entry (e k v) (into d) ≡ into (put k v d))
    → (before d : Dict V) (rest : MapEntries) → Distinct before d
    → parse_entries (emit e d rest) (into before) ≡ parse_entries rest (into (before ++ d))
unfolding parse_entries
parse_entries-emit e into step before [] rest h = rw (append-nil before) refl
parse_entries-emit e into step before ((k, v) ∷ d) rest (f, h) =
    rw
      (
        step k v before,
        put-Fresh k v before f,
        parse_entries-emit e into step (before ++ (k, v) ∷ []) d rest h,
      )
      (ap (λ x. parse_entries rest (into x)) (append_assoc before ((k, v) ∷ []) d))

mutual
  unfolding entries_of parse_entries

  -- The entries of a map, read into an empty one, are the map.
  pub parse_entries-entries_of :
      (m : Map) → IsProper m → parse_entries (entries_of m) (a_map no_values no_submaps) ≡ m
  parse_entries-entries_of (a_map v subs) (c, s, r, f, h) =
      parse_entries-emit counter_entry (λ d. a_map (record no_values { counters = d }) no_submaps)
        (λ k n d. refl) [] v.counters _ c
      ∙ parse_entries-emit set_entry
          (λ d. a_map (record no_values { counters = v.counters; sets = d }) no_submaps)
          (λ k n d. refl) [] v.sets _ s
      ∙ parse_entries-emit register_entry
          (λ d. a_map (record v { registers = d; flags = [] }) no_submaps) (λ k n d. refl) []
          v.registers _ r
      ∙ parse_entries-emit flag_entry (λ d. a_map (record v { flags = d }) no_submaps)
          (λ k n d. refl) [] v.flags _ f
      ∙ parse_entries-submap_entries v no_submaps subs h

  parse_entries-submap_entries :
      (v : MapValues) (before subs : Submaps)
      → AllProper before subs
      → parse_entries (submap_entries subs) (a_map v before) ≡ a_map v (join before subs)
  parse_entries-submap_entries v before no_submaps h = ap (a_map v) (sym (join-no_submaps before))
  parse_entries-submap_entries v before (more_submaps k m subs) (f, p, h) =
      rw
        (
          parse_entries-entries_of m p,
          put_submap-FreshMap k m before f,
          parse_entries-submap_entries v (add_last before k m) subs h,
          join-add_last before k m subs,
        )
        refl

-- `parsePbResponse` reads the entries of a map back into the map, with the maps within it at every depth,
-- where no dictionary of it has a name twice.
pub parse_pb_response-entries_of : (m : Map) → IsProper m → parse_pb_response (entries_of m) ≡ m
unfolding parse_pb_response
parse_pb_response-entries_of m h = parse_entries-entries_of m h
