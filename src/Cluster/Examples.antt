-- ===== src/Cluster/Examples.antt =====
-- cluster.go: tests and examples, over nodes with the small pool.
use mathlib.Core.List.{Nodup, Nodup-cons, not-mem-nil, Pairwise}
use riak_go_client.Prelude.{
  ℕ, ◌+◌, ◌≡◌, refl, Bool, true, false, Option, none, some, List, [], ◌∷◌, arith, ◌==◌, ltb,
  if◌then◌else◌, ok,
}
use riak_go_client.Errors.{Error, net_error}
use riak_go_client.Queue.{Queue, iterate}
use riak_go_client.Queue.Sweep.{IsOpen}
use riak_go_client.Command.{CommandImpl, CommandApi}
use riak_go_client.Async.{Async}
use riak_go_client.Connection.Connect.{new_command}
use riak_go_client.Connection.Examples.{fetch}
use riak_go_client.ConnectionManager.Examples.{pool, busy}
use riak_go_client.Node.{Node, node_running, node_health_checking, node_shutdown}
use riak_go_client.Node.Examples.{node, new_node, new_node-IsFresh, ill-IsUp}
use riak_go_client.Node.Lifecycle.{IsUp}
use riak_go_client.Cluster.{Cluster, NodeApi, cluster_created, cluster_running, cluster_state_desc}
use riak_go_client.Cluster.Execute.{Seen, ExecuteOnNode, execute}
use riak_go_client.Cluster.Requests.{fresh_async}
use riak_go_client.Cluster.Lifecycle.{start, stop, dispatch, queue_event}
use riak_go_client.Cluster.Members.{Returns}
use riak_go_client.Cluster.Fleet.{node_api, Each, fleet_with}
use riak_go_client.Cluster.Running.{start-running, stop-shut_down, stopped, ended}
use riak_go_client.Cluster.Dispatch.{Ticked, queue_event-Ticked}
use riak_go_client.Cluster.Attempts.{AtMost, counted, execute-AtMost}
use riak_go_client.Cluster.Signals.{Once, execute-Once}

-- An async with a channel, which may be executed from the time.
abbrev pub due_at : ℕ → Async CommandImpl
due_at t = record (fresh_async new_command) { has_done = true; execute_at = t }

abbrev pub cq : List (Async CommandImpl) → Queue (Async CommandImpl)
cq l = record { queue_size = 2; queue_chan = l; closed = false }

abbrev pub cluster : ℕ → List ℕ → Bool → List (Async CommandImpl) → Cluster CommandImpl
cluster st nodes queues l = record {
  stop_chan_closed = false;
  nodes = nodes;
  execution_attempts = 3;
  queue_commands = queues;
  cq = cq l;
  ticker_interval = some 125;
  state_data = record { state_val = st; state_desc = cluster_state_desc };
}

-- The first node is asked; it fails in the worlds below 2, and from then on executes nothing.
abbrev pub exec : ExecuteOnNode CommandImpl ℕ
exec nodes k last w = ok (false, if ltb w 2 then some (net_error false) else none, k, w + 1)

abbrev exec_answers :
    (nodes : List ℕ) (k : CommandImpl) (last : Option ℕ) (w : ℕ)
    → (r : Bool × Option Error × CommandImpl × ℕ) × (exec nodes k last w ≡ ok r)
exec_answers nodes k last w =
    ((false, if ltb w 2 then some (net_error false) else none, k, w + 1), refl)

abbrev pub up : Seen
up = record {
  at_try = λ n. record { state_val = cluster_running; state_desc = [] };
  at_enqueue = record { state_val = cluster_running; state_desc = [] };
}

cq-IsOpen : IsOpen (cq (due_at 10 ∷ due_at 20 ∷ []))
cq-IsOpen = record { open_chan = refl; bounded = omega arith; word = omega arith }

empty-IsOpen : IsOpen (cq [])
empty-IsOpen = record { open_chan = refl; bounded = omega arith; word = omega arith }

-- The commands may be tried again.
abbrev pub retryable : CommandApi CommandImpl (List ℕ)
retryable = record fetch { is_retryable = λ k. true }

execute-AtMost_example :
    AtMost retryable exec
      (λ n. n)
      (λ w. w)
      (cluster cluster_running (1 ∷ []) true [])
      up
      8
      (execute retryable
        (counted retryable exec (λ n. n) (λ w. w) (cluster cluster_running (1 ∷ []) true []) up)
        (λ n. n)
        (λ (n, w). w)
        (cluster cluster_running (1 ∷ []) true [])
        up
        (due_at 0)
        (cq [])
        (5, 0))
execute-AtMost_example =
    execute-AtMost retryable exec (λ n. n) (λ w. w) (cluster cluster_running (1 ∷ []) true []) up
      (due_at 0) (cq []) 5 0 exec_answers empty-IsOpen

execute-Once_example :
    Once fetch exec
      (λ n. n)
      (λ w. w)
      (cluster cluster_running (1 ∷ []) false [])
      up
      (due_at 0)
      (cq [])
      (execute fetch exec
        (λ n. n)
        (λ w. w)
        (cluster cluster_running (1 ∷ []) false [])
        up
        (due_at 0)
        (cq [])
        0)
execute-Once_example =
    execute-Once fetch exec (λ n. n) (λ w. w) (cluster cluster_running (1 ∷ []) false []) up
      (due_at 0) (cq []) 0 exec_answers refl

-- A shutdown begins after the first value.
abbrev first_only : ℕ → Bool
first_only n = n == 0

abbrev loaded : Cluster CommandImpl
loaded = cluster cluster_running (1 ∷ []) true (due_at 10 ∷ due_at 20 ∷ [])

-- The second command is dropped.
queue_event_test :
    queue_event first_only loaded (some 15)
    ≡ ok (cluster cluster_running (1 ∷ []) true [], due_at 10 ∷ [], true)
unfolding queue_event iterate dispatch
queue_event_test = refl

queue_event-Ticked_example : Ticked first_only loaded 15
queue_event-Ticked_example = queue_event-Ticked first_only loaded 15 cq-IsOpen refl

one-Nodup : Nodup {A = ℕ} (1 ∷ [])
one-Nodup = Nodup-cons.1 (λ m. not-mem-nil m, Pairwise.nil)

start-running_example :
    (start (node_api pool) (cluster cluster_created (1 ∷ []) true []) ((λ n. new_node), 12)
      ≡ ok (
        cluster cluster_running (1 ∷ []) true [],
        none,
        fleet_with pool (1 ∷ []) (λ n. new_node) 12,
      ))
    × Each pool (λ n. IsUp pool n 0) (1 ∷ []) (fleet_with pool (1 ∷ []) (λ n. new_node) 12).0
start-running_example =
    start-running pool (cluster cluster_created (1 ∷ []) true []) (λ n. new_node) 12 refl one-Nodup
      (λ n m. new_node-IsFresh)

stop-shut_down_example :
    (ns' : ℕ → Node ℕ) × (w' : ℕ) × (stop
        (node_api pool)
        loaded
        ((λ n. node node_health_checking 1 busy), 2)
      ≡ ok (stopped pool loaded, ended pool loaded, none, (ns', w')))
    × Each pool (λ n. n.state_data.state_val ≡ node_shutdown) (1 ∷ []) ns'
stop-shut_down_example =
    stop-shut_down pool loaded (λ n. node node_health_checking 1 busy) 2 (λ n. 1) refl one-Nodup
      (λ n m. ill-IsUp) (λ q. cq-IsOpen) refl

-- Nodes that start in the world 0 only; the world counts the calls.
abbrev members : NodeApi ℕ
members = record {
  start = λ n w. ok (if w == 0 then none else some (net_error false), w + 1);
  stop = λ n w. ok (none, w + 1);
  get_state = λ n w. node_running;
}

members-Returns : Returns members
members-Returns = record {
  starts = λ n w. ((if w == 0 then none else some (net_error false), w + 1), refl);
  stops = λ n w. ((none, w + 1), refl);
}
