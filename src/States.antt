-- ===== src/States.antt =====
-- states.go: the state byte that clusters, nodes, connection managers and connections carry.
-- The lock around each method is not modelled: a method is one step. `setStateFunc` is the default
-- one, which only tests replace.
use riak_go_client.Prelude.{
  ℕ, Bool, true, false, Option, none, some, List, [], ◌∷◌, ltb, ◌==◌, if◌then◌else◌, get_elem?,
}
use Prim.Native.String.{String}
use riak_go_client.Errors.{Error, illegal_state}

pub record StateData : Type 0 where
  pub state_val : ℕ
  pub state_desc : List String

-- What `String` prints: a description, or `STATE_` with the number.
pub data StateString : Type 0 where
  described : String → StateString
  numbered : ℕ → StateString

-- A new struct has the state 0.
unfoldable pub init_state_data : List String → StateData
init_state_data desc = record { state_val = 0; state_desc = desc }

or_numbered : ℕ → Option String → StateString
or_numbered idx none = numbered idx
or_numbered idx (some d) = described d

unfoldable pub state_string : StateData → StateString
unfolding or_numbered
state_string s = or_numbered s.state_val (get_elem? s.state_desc s.state_val)

abbrev pub is_current_state : StateData → ℕ → Bool
is_current_state s st = s.state_val == st

abbrev pub is_state_less_than : StateData → ℕ → Bool
is_state_less_than s st = ltb s.state_val st

abbrev pub set_state : StateData → ℕ → StateData
set_state s st = record s { state_val = st }

-- The loop over the allowed states.
abbrev pub state_allowed : ℕ → List ℕ → Bool
state_allowed v [] = false
state_allowed v (st ∷ sts) = if v == st then true else state_allowed v sts

abbrev pub state_check : StateData → List ℕ → Option Error
state_check s allowed =
    if state_allowed s.state_val allowed then none else some (illegal_state allowed s.state_val)
