-- ===== src/ConnectionManager/Examples.antt =====
-- connection_manager.go: a small pool, tests and examples.
use riak_go_client.Prelude.{
  ℕ, suc, ◌+◌, ◌*◌, ◌≡◌, ◌≤◌, refl, true, false, Option, none, some, inl, inr, List, [], ◌∷◌, arith,
  ltb, ◌==◌, if◌then◌else◌, Run, ok, Bool-cases,
}
use riak_go_client.Errors.{Error, client_error, net_error, all_connections_in_use}
use riak_go_client.Queue.{iterate, enqueue}
use riak_go_client.ConnectionManager.{
  ConnApi, Dials, ConnectionManager, ConnectionManagerOptions, create, get, put, remove, cm_created,
  cm_running, cm_shutdown, cm_state_desc,
}
use riak_go_client.ConnectionManager.Invariant.{Inv, Makes, get-Makes}
use riak_go_client.ConnectionManager.Shutdown.{stop_then_put, stop_then_put_closes, close_all}
use riak_go_client.ConnectionManager.Expiry.{Expired, expire-Expired}
use riak_go_client.ConnectionManager.Traces.{Step, Reach, Reach_bounds}

-- Connections are numbers, those from 100 are broken. The world is a number too: a dial takes the
-- next one, and fails at 13; a close appends the connection's number.
abbrev pub dialled : ℕ → Run (Option ℕ × Option Error × ℕ)
dialled w = if w == 13 then ok (none, some (net_error false), w + 1) else ok (some 1, none, w + 1)

pub dialled-Dials : (w : ℕ) → Dials (λ c. ltb c 100) (dialled w)
dialled-Dials w = elim (Bool-cases (w == 13)) [
  | inl fails ↦ rw fails tt
  | inr answers ↦ rw answers refl
]

abbrev pub pool : ConnApi ℕ ℕ
pool = record {
  available = λ c. ltb c 100;
  last_used = λ c. c;
  close = λ c w. (c, none, 1000 * w + c);
  create_connection = λ o w. dialled w;
  dialable = λ o. true;
  dials = λ o w h. dialled-Dials w;
}

abbrev pub options : ConnectionManagerOptions
options = record {
  addr = some 1;
  min_connections = 1;
  max_connections = 3;
  temp_net_error_retries = 0;
  idle_expiration_interval = 0;
  idle_timeout = 10;
  connect_timeout = 0;
  request_timeout = 0;
  auth_options = none;
}

-- A manager in the state, with the connections in its queue, and the count.
abbrev pub manager : ℕ → List ℕ → ℕ → ConnectionManager ℕ
manager st conns count = record {
  addr = some 1;
  min_connections = 1;
  max_connections = 3;
  temp_net_error_retries = 0;
  idle_expiration_interval = 5;
  idle_timeout = 10;
  connect_timeout = 3;
  request_timeout = 5;
  auth_options = none;
  stop_chan_closed = false;
  q = record { queue_size = 3; queue_chan = conns; closed = false };
  expire_ticker = true;
  connection_counter = count;
  state_data = record { state_val = st; state_desc = cm_state_desc };
}

pub created-Inv : Inv pool (manager cm_created [] 0) 0
created-Inv = record {
  live = omega arith;
  can_dial = refl;
  open_queue = record { open_chan = refl; bounded = omega arith; word = omega arith };
  sized = refl;
  counted = refl;
  capped = omega arith;
}

-- Two connections in the queue, one of them broken, and one held.
abbrev pub busy : ConnectionManager ℕ
busy = manager cm_running (105 ∷ 7 ∷ []) 3

pub busy-Inv : Inv pool busy 1
busy-Inv = record {
  live = omega arith;
  can_dial = refl;
  open_queue = record { open_chan = refl; bounded = omega arith; word = omega arith };
  sized = refl;
  counted = refl;
  capped = omega arith;
}

-- The broken connection is closed on the way to the other.
get_test : get pool busy 2 ≡ ok (manager cm_running [] 2, some 7, none, 2105)
unfolding get iterate
get_test = refl

create_test :
    create pool (manager cm_running [] 3) 2
    ≡ ok (manager cm_running [] 3, none, some (client_error all_connections_in_use), 2)
unfolding create
create_test = refl

get-Makes_example : Makes pool (get pool busy 2) 1
get-Makes_example = get-Makes pool busy 1 2 busy-Inv

stop_then_put_closes_example :
    (cm' : ConnectionManager ℕ) × (stop_then_put pool busy (4 ∷ []) 2
      ≡ ok (cm', close_all pool (105 ∷ 7 ∷ 4 ∷ []) 2))
    × (cm'.connection_counter ≡ 0)
    × (cm'.q.queue_chan ≡ [])
    × (cm'.state_data.state_val ≡ cm_shutdown)
stop_then_put_closes_example = stop_then_put_closes pool busy (4 ∷ []) 2 busy-Inv refl refl

expire-Expired_example : Expired pool 30 busy 1 2
expire-Expired_example = expire-Expired pool 30 busy 1 2 busy-Inv

-- The held connection is given back, one is got, and it is dropped.
gives_test : put pool busy 4 2 ≡ ok (manager cm_running (105 ∷ 7 ∷ 4 ∷ []) 3, none, 2)
unfolding put enqueue
gives_test = refl

gets_test :
    get pool (manager cm_running (105 ∷ 7 ∷ 4 ∷ []) 3) 2
    ≡ ok (manager cm_running (4 ∷ []) 2, some 7, none, 2105)
unfolding get iterate
gets_test = refl

drops_test : (remove pool (manager cm_running (4 ∷ []) 2) 7 2105).0 ≡ manager cm_running (4 ∷ []) 1
unfolding remove
drops_test = refl

abbrev some_calls : Reach pool busy 1 (manager cm_running (4 ∷ []) 1) 0
some_calls =
    Reach.next
      (Reach.next (Reach.next Reach.here (Step.gave 4 none 2 2 gives_test refl))
        (Step.got (some 7) none 2 2105 gets_test refl))
      (Step.dropped 7 2105 drops_test refl)

Reach_bounds_example :
    (1 ≤ 3)
    × ((held_before : ℕ) (c : ℕ) (w : ℕ)
        → 0 ≡ suc held_before
        → (cm'' : ConnectionManager ℕ) × (put pool (manager cm_running (4 ∷ []) 1) c w
            ≡ ok (cm'', none, w)))
Reach_bounds_example = Reach_bounds pool busy-Inv some_calls
