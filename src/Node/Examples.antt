-- ===== src/Node/Examples.antt =====
-- node.go: tests and examples, over the small pool.
use riak_go_client.Prelude.{ℕ, ◌≡◌, refl, true, false, Option, some, inr, [], arith, Run, ok}
use riak_go_client.Errors.{Error, net_error, is_temporary_net_error}
use riak_go_client.Queue.{iterate}
use riak_go_client.Command.{CommandImpl}
use riak_go_client.Connection.Connect.{new_command}
use riak_go_client.Connection.Examples.{fetch}
use riak_go_client.ConnectionManager.{ConnectionManager, get, remove, cm_created, cm_running}
use riak_go_client.ConnectionManager.Examples.{pool, manager, busy, busy-Inv, created-Inv}
use riak_go_client.Node.{
  Node, node_created, node_running, node_health_checking, node_state_desc, execute,
}
use riak_go_client.Node.HealthCheck.{Checking, Ticked, health_check_tick, health_check_tick-Ticked}
use riak_go_client.Node.Lifecycle.{IsFresh, IsUp}

abbrev pub node : ℕ → ℕ → ConnectionManager ℕ → Node ℕ
node st checking cm = record {
  addr = 1;
  health_check_interval = 125;
  stop_chan_closed = false;
  cm = cm;
  state_data = record { state_val = st; state_desc = node_state_desc };
  checking = checking;
}

-- A connection that always fails, closed by the other side.
abbrev fails : ℕ → CommandImpl → ℕ → Run (ℕ × CommandImpl × Option Error × ℕ)
fails c k w = ok (c, k, some (net_error false), w)

-- The connection is dropped, and the node begins to check its health.
execute_test :
    execute pool fetch fails 1 (node node_running 0 busy) new_command 2
    ≡ ok (
      node node_health_checking 1 (manager cm_running [] 1),
      true,
      some (net_error false),
      new_command,
      2105007,
    )
unfolding execute get iterate remove is_temporary_net_error
execute_test = refl

abbrev ill : Node ℕ
ill = node node_health_checking 1 busy

ill-Checking : Checking pool fetch fails ill
ill-Checking = (record { at_most_one = omega arith; none_before = λ h. absurd (omega arith) }, refl)

health_check_tick-Ticked_example :
    Ticked pool fetch fails ill ill ill new_command 2
      (health_check_tick pool fetch fails ill ill ill new_command 2)
health_check_tick-Ticked_example =
    health_check_tick-Ticked pool fetch fails ill ill ill new_command 2 ill-Checking ill-Checking
      ill-Checking

abbrev pub new_node : Node ℕ
new_node = node node_created 0 (manager cm_created [] 0)

pub new_node-IsFresh : IsFresh pool new_node
new_node-IsFresh = record {
  created = refl;
  manager_valid = created-Inv;
  manager_created = refl;
  fits = omega arith;
  manager_empty = refl;
  manager_unsignalled = refl;
  unsignalled = refl;
}

pub ill-IsUp : IsUp pool (node node_health_checking 1 busy) 1
ill-IsUp = record {
  up = inr refl;
  manager_valid = busy-Inv;
  manager_running = refl;
  manager_unsignalled = refl;
  unsignalled = refl;
}
