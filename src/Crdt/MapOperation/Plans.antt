-- ===== src/Crdt/MapOperation/Plans.antt =====
-- crdt_commands.go: what a MapOperation plans for each field, against a description that knows
-- nothing of maps: the calls on that field, one after the other.
use riak_go_client.Prelude.{
  ℕ, ◌+◌, ◌%◌, ◌≡◌, refl, ◌∙◌, ap, inl, inr, Bool-cases, Bool, true, false, Option, none, some,
  List, [], ◌∷◌, if◌then◌else◌, arith,
}
use riak_go_client.Object.{Bytes, same}
use riak_go_client.Crdt.Dict.{
  Dict, Names, put, delete, put_name, delete_name, lookup, has_name, lookup-put, lookup-delete,
  has_name-put_name, has_name-delete_name, same_eq,
}
use riak_go_client.Crdt.MapOperation.{
  MapOperation, operation, increment_counter, remove_counter, add_to_set, remove_from_set,
  remove_set, set_register, remove_register, set_flag, remove_flag, in_map, remove_map, or_zero,
}
use riak_go_client.Crdt.MapOperation.Calls.{
  Call, increments, removes_counter, adds, removes_from, removes_set, sets_register,
  removes_register, sets_flag, removes_flag, inside, removes_map, run, run_all,
}
use riak_go_client.Crdt.MapOperation.Consistency.{Apart, Consistent, run_all-Consistent}

-- What is planned for a field.
pub data Plan (A : Type 0) : Type 0 where
  untouched : Plan A
  removed : Plan A
  changed : A → Plan A

-- The plan that the two maps of one kind of field hold.
abbrev pub of_maps : {A : Type 0} → Option A → Bool → Plan A
of_maps v true = removed
of_maps none false = untouched
of_maps (some a) false = changed a

abbrev pub plan : {A : Type 0} → Dict A → Names → Bytes → Plan A
plan d names k = of_maps (lookup k d) (has_name k names)

-- A change of one name, and a removal.
abbrev pub amount : Plan ℕ → ℕ
amount (changed n) = n
amount other = 0

-- The description: what a call makes of the plan for the counter, the register or the flag `j`.
abbrev pub counter_step : Call → Bytes → Plan ℕ → Plan ℕ
counter_step (increments k n) j p =
    if same k j then changed ((amount p + n) % 18446744073709551616) else p
counter_step (removes_counter k) j p = if same k j then removed else p
counter_step other j p = p

abbrev pub register_step : Call → Bytes → Plan (Option Bytes) → Plan (Option Bytes)
register_step (sets_register k v) j p = if same k j then changed v else p
register_step (removes_register k) j p = if same k j then removed else p
register_step other j p = p

abbrev pub flag_step : Call → Bytes → Plan Bool → Plan Bool
flag_step (sets_flag k b) j p = if same k j then changed b else p
flag_step (removes_flag k) j p = if same k j then removed else p
flag_step other j p = p

-- The plan after all calls, of which the last one stands first.
abbrev pub planned : {A : Type 0} → (Call → Plan A → Plan A) → List Call → Plan A
planned step [] = untouched
planned step (x ∷ xs) = step x (planned step xs)

module _ {A : Type 0} (d : Dict A) (names : Names) (k j : Bytes) where
  plan-put :
      (v : A)
      → plan (put k v d) (delete_name k names) j ≡ (if same k j then changed v else plan d names j)
  plan-put v = rw (lookup-put k j v d, has_name-delete_name k j names) (ground arith)

  plan-delete :
      plan (delete k d) (put_name k names) j ≡ (if same k j then removed else plan d names j)
  plan-delete = rw (lookup-delete k j d, has_name-put_name k j names) (ground arith)

-- What a counter holds before it is incremented: nothing, where it is removed.
amount_lem :
    (d : Dict ℕ) (names : Names) (k : Bytes)
    → Apart d names
    → or_zero (lookup k d) ≡ amount (plan d names k)
amount_lem d names k h = ground (arith, h k)

incremented :
    (d : Dict ℕ) (names : Names) (k j : Bytes) (n : ℕ)
    → Apart d names
    → (if same k j
        then changed ((or_zero (lookup k d) + n) % 18446744073709551616)
        else plan d names j)
      ≡ (if same k j
          then changed ((amount (plan d names j) + n) % 18446744073709551616)
          else plan d names j)
incremented d names k j n h = elim (Bool-cases (same k j)) [
  | inl e ↦ rw e (
      ap (λ m. changed ((m + n) % 18446744073709551616))
        (amount_lem d names k h ∙ ap (λ i. amount (plan d names i)) (same_eq k j e)))
  | inr e ↦ rw e refl
]

abbrev pub counter_plan : MapOperation → Bytes → Plan ℕ
counter_plan (operation c maps) = plan c.increment_counters c.remove_counters

abbrev pub register_plan : MapOperation → Bytes → Plan (Option Bytes)
register_plan (operation c maps) = plan c.registers_to_set c.remove_registers

abbrev pub flag_plan : MapOperation → Bytes → Plan Bool
flag_plan (operation c maps) = plan c.flags_to_set c.remove_flags

counter_plan-run :
    (x : Call) (op : MapOperation) (j : Bytes)
    → Consistent op
    → counter_plan (run x op) j ≡ counter_step x j (counter_plan op j)
unfolding increment_counter remove_counter add_to_set remove_from_set remove_set set_register
    remove_register set_flag remove_flag in_map remove_map
counter_plan-run (increments k n) (operation c maps) j (h, _, _) =
    plan-put c.increment_counters c.remove_counters k j _
    ∙ incremented c.increment_counters c.remove_counters k j n h.counters
counter_plan-run (removes_counter k) (operation c maps) j h =
    plan-delete c.increment_counters c.remove_counters k j
counter_plan-run (adds k v) (operation c maps) j h = refl
counter_plan-run (removes_from k v) (operation c maps) j h = refl
counter_plan-run (removes_set k) (operation c maps) j h = refl
counter_plan-run (sets_register k v) (operation c maps) j h = refl
counter_plan-run (removes_register k) (operation c maps) j h = refl
counter_plan-run (sets_flag k b) (operation c maps) j h = refl
counter_plan-run (removes_flag k) (operation c maps) j h = refl
counter_plan-run (inside k x) (operation c maps) j h = refl
counter_plan-run (removes_map k) (operation c maps) j h = refl

register_plan-run :
    (x : Call) (op : MapOperation) (j : Bytes)
    → register_plan (run x op) j ≡ register_step x j (register_plan op j)
unfolding increment_counter remove_counter add_to_set remove_from_set remove_set set_register
    remove_register set_flag remove_flag in_map remove_map
register_plan-run (increments k n) (operation c maps) j = refl
register_plan-run (removes_counter k) (operation c maps) j = refl
register_plan-run (adds k v) (operation c maps) j = refl
register_plan-run (removes_from k v) (operation c maps) j = refl
register_plan-run (removes_set k) (operation c maps) j = refl
register_plan-run (sets_register k v) (operation c maps) j =
    plan-put c.registers_to_set c.remove_registers k j v
register_plan-run (removes_register k) (operation c maps) j =
    plan-delete c.registers_to_set c.remove_registers k j
register_plan-run (sets_flag k b) (operation c maps) j = refl
register_plan-run (removes_flag k) (operation c maps) j = refl
register_plan-run (inside k x) (operation c maps) j = refl
register_plan-run (removes_map k) (operation c maps) j = refl

flag_plan-run :
    (x : Call) (op : MapOperation) (j : Bytes)
    → flag_plan (run x op) j ≡ flag_step x j (flag_plan op j)
unfolding increment_counter remove_counter add_to_set remove_from_set remove_set set_register
    remove_register set_flag remove_flag in_map remove_map
flag_plan-run (increments k n) (operation c maps) j = refl
flag_plan-run (removes_counter k) (operation c maps) j = refl
flag_plan-run (adds k v) (operation c maps) j = refl
flag_plan-run (removes_from k v) (operation c maps) j = refl
flag_plan-run (removes_set k) (operation c maps) j = refl
flag_plan-run (sets_register k v) (operation c maps) j = refl
flag_plan-run (removes_register k) (operation c maps) j = refl
flag_plan-run (sets_flag k b) (operation c maps) j = plan-put c.flags_to_set c.remove_flags k j b
flag_plan-run (removes_flag k) (operation c maps) j = plan-delete c.flags_to_set c.remove_flags k j
flag_plan-run (inside k x) (operation c maps) j = refl
flag_plan-run (removes_map k) (operation c maps) j = refl

-- After any calls on a MapOperation and on the results of its `Map`, what it plans for a counter, a
-- register or a flag is what the calls on that one make of it, one after the other: a counter is
-- to be incremented by the sum, modulo 2 ^ 64, of the increments behind its last removal, or
-- removed where there is none; a register and a flag are to have the value that was set last,
-- unless they were removed after that. Nothing is planned for one that no call names.
pub run_all-planned :
    (xs : List Call) (j : Bytes)
    → (counter_plan (run_all xs) j ≡ planned (λ x. counter_step x j) xs)
      × (register_plan (run_all xs) j ≡ planned (λ x. register_step x j) xs)
      × (flag_plan (run_all xs) j ≡ planned (λ x. flag_step x j) xs)
unfolding lookup has_name
run_all-planned [] j = (refl, refl, refl)
run_all-planned (x ∷ xs) j =
    let (c, r, f) = run_all-planned xs j in
    (
      counter_plan-run x (run_all xs) j (run_all-Consistent xs) ∙ ap (counter_step x j) c,
      register_plan-run x (run_all xs) j ∙ ap (register_step x j) r,
      flag_plan-run x (run_all xs) j ∙ ap (flag_step x j) f,
    )
