-- ===== src/Cluster/Execute.antt =====
-- cluster.go: `execute`, with its retries, and the queueing of a command that could not be
-- executed. Other goroutines may change the cluster's state meanwhile, so the states that the
-- tests find are given: `at_try n` with `n` tries left, and `at_enqueue`. The queue is the one
-- that the enqueueing finds.
use riak_go_client.Prelude.{
  ℕ, zero, suc, Bool, true, false, Option, none, some, List, [], ◌∷◌, if◌then◌else◌, Run, ok, ◌>>=◌,
}
use riak_go_client.Errors.{
  Error, client_error, new_client_error, cluster_no_nodes_available,
  cluster_enqueue_while_shutting_down,
}
use riak_go_client.States.{StateData, is_state_less_than, state_check}
use riak_go_client.Queue.{Queue, enqueue}
use riak_go_client.Command.{CommandApi}
use riak_go_client.Async.{Async, on_execute, on_retry, on_enqueued, done}
use riak_go_client.Cluster.{Cluster, cluster_running, cluster_shutting_down}

-- What the tests on the cluster's state find.
pub record Seen : Type 0 where
  pub at_try : ℕ → StateData
  pub at_enqueue : StateData

-- The NodeManager interface: the nodes, the command, the previous node; `executed`, `err`, and the
-- command as it was left.
abbrev pub ExecuteOnNode : Type 0 → Type 0 → Type 0
ExecuteOnNode K W = List ℕ → K → Option ℕ → W → Run (Bool × Option Error × K × W)

module _ {K W Msg : Type 0} (cmds : CommandApi K Msg) (exec_on_node : ExecuteOnNode K W)
    (delay : ℕ → ℕ) (now : W → ℕ) (c : Cluster K) (seen : Seen) where
  -- The async, the queue and the world.
  abbrev pub Executed : Type 0
  Executed = Run (Async K × Queue (Async K) × W)

  -- `if !enqueued { async.done(err) }`.
  unfoldable pub finish : Bool → Option Error → Async K → Queue (Async K) → W → Executed
  finish true err a q w = ok (a, q, w)
  finish false err a q w = ok (done err a, q, w)

  unfoldable pub after_enqueue : W → Async K → Queue (Async K) × Option Error → Executed
  unfolding finish
  after_enqueue w a (q, none) = finish true none a q w
  after_enqueue w a (q, some e) = finish false (some e) (done (some e) a) q w

  -- `enqueueCommand` has called `done` where it fails, and then `finish` calls it again.
  unfoldable pub enqueue_command : Async K → Queue (Async K) → W → Executed
  unfolding after_enqueue
  enqueue_command a q w =
      if is_state_less_than seen.at_enqueue cluster_shutting_down
      then (let a' = on_enqueued delay (now w) a in enqueue q (some a') >>= after_enqueue w a')
      else finish false (some (client_error cluster_enqueue_while_shutting_down))
          (done (some (client_error cluster_enqueue_while_shutting_down)) a) q w

  -- `tries--`, and another try or the end.
  unfoldable pub retry :
      (Async K → Option Error → Queue (Async K) → W → Executed)
      → ℕ
      → Async K
      → Option Error
      → Queue (Async K)
      → W
      → Executed
  unfolding new_client_error finish
  retry again zero a err q w =
      finish false (some (new_client_error cluster_no_nodes_available err)) a q w
  retry again (suc tries) a err q w =
      again (on_retry (record a { command = cmds.handle_retry a.command })) err q w

  unfoldable pub after_node :
      (Async K → Option Error → Queue (Async K) → W → Executed)
      → ℕ
      → Async K
      → Queue (Async K)
      → Bool × Option Error × K × W
      → Executed
  unfolding retry enqueue_command
  after_node again tries a q (true, none, k, w) = finish false none (record a { command = k }) q w
  after_node again tries a q (true, some e, k, w) =
      retry again tries (record a { command = k }) (some e) q w
  after_node again tries a q (false, some e, k, w) =
      retry again tries (record a { command = k }) (some e) q w
  after_node again tries a q (false, none, k, w) =
      let next = retry again tries (record a { command = k }) none q w in
      if c.queue_commands then enqueue_command (record a { command = k }) q w else next

  unfoldable pub try_node :
      (Async K → Option Error → Queue (Async K) → W → Executed)
      → ℕ
      → Option ℕ
      → Option Error
      → Async K
      → Queue (Async K)
      → W
      → Executed
  unfolding after_node
  try_node again tries last (some e) a q w = finish false (some e) a q w
  try_node again tries last none a q w =
      exec_on_node c.nodes a.command last w >>= after_node again tries a q

  -- The `for` loop; `err` is what the last try left.
  unfoldable pub try_loop : ℕ → Option ℕ → Async K → Option Error → Queue (Async K) → W → Executed
  unfolding try_node
  try_loop zero last a err q w = finish false err a q w
  try_loop (suc tries) last a err q w =
      try_node (try_loop tries last) tries last
        (state_check (seen.at_try (suc tries)) (cluster_running ∷ [])) a q w

  -- A command that is not retryable is tried once, with no previous node.
  abbrev pub tries_of : K → ℕ
  tries_of k = if cmds.is_retryable k then c.execution_attempts else 1

  abbrev pub last_node_of : K → Option ℕ
  last_node_of k = if cmds.is_retryable k then cmds.get_last_node k else none

  unfoldable pub execute : Async K → Queue (Async K) → W → Executed
  unfolding try_loop
  execute a q w = try_loop (tries_of a.command) (last_node_of a.command) (on_execute a) none q w
