-- ===== src/Cluster/Running.antt =====
-- cluster.go: `Start` and `Stop` over nodes of node.go, whatever the dials answer.
use mathlib.Core.List.{Mem, Nodup}
use riak_go_client.Prelude.{
  ℕ, ◌≡◌, refl, true, false, none, inl, inr, List, [], ◌∷◌, arith, if◌then◌else◌, Bool-cases, ok,
}
use riak_go_client.States.{set_state, state_check}
use riak_go_client.Queue.Sweep.{IsOpen}
use riak_go_client.Async.{Async}
use riak_go_client.ConnectionManager.{ConnApi}
use riak_go_client.Node.{Node, node_shutdown}
use riak_go_client.Node.Lifecycle.{IsFresh, IsUp}
use riak_go_client.Cluster.{
  Cluster, cluster_created, cluster_running, cluster_shutting_down, cluster_shutdown,
}
use riak_go_client.Cluster.Lifecycle.{
  start, start_checked, start_done, stop, stop_checked, stop_done,
}
use riak_go_client.Cluster.Dispatch.{ended_all, shut, stop_queue_ends}
use riak_go_client.Cluster.Fleet.{
  node_api, Each, fleet_with, start_nodes-fleet_with, stop_nodes-Swept, all_stopped-Each,
}

module _ {K C W : Type 0} (api : ConnApi C W) where
  -- A created cluster over nodes that have not been started, none of them twice, with settings with
  -- which dialing is known not to panic, which for connections of connection.go are those without
  -- TLS, and a `minConnections` that is not above the maximum, starts without an error, whatever the
  -- dials answer. The cluster is running; each node in turn has dialed `minConnections` times, and is
  -- up with just the connections that succeeded in its queue, none of them held.
  pub start-running :
      (c : Cluster K) (ns : ℕ → Node C) (w : W)
      → c.state_data.state_val ≡ cluster_created
      → Nodup c.nodes
      → Each api (IsFresh api) c.nodes ns
      → (start (node_api api) c (ns, w)
          ≡ ok (
            record c { state_data = set_state c.state_data cluster_running },
            none,
            fleet_with api c.nodes ns w,
          ))
        × Each api (λ n. IsUp api n 0) c.nodes (fleet_with api c.nodes ns w).0
  unfolding start start_checked start_done
  start-running c ns w created d f =
      let (runs, each) = start_nodes-fleet_with api c.nodes ns w d f in (ground (arith, runs), each)

  -- What `Stop` leaves of a cluster, and the commands that it ends.
  abbrev pub stopped : Cluster K → Cluster K
  stopped c =
      let c' = if c.queue_commands then shut c else c in
      record c' { state_data = set_state c.state_data cluster_shutdown }

  abbrev pub ended : Cluster K → List (Async K)
  ended c = if c.queue_commands then ended_all c.cq.queue_chan else []

  -- A running cluster whose `stopChan` is open, whose nodes are up, none of them twice, and
  -- whose command queue, if it has one, is open, stops without an error or a panic, also while
  -- nodes check their health or callers hold connections: the cluster and each of its nodes are
  -- shut down, and each queued command is ended once, with an error.
  pub stop-shut_down :
      (c : Cluster K) (ns : ℕ → Node C) (w : W) (out : ℕ → ℕ)
      → c.state_data.state_val ≡ cluster_running
      → Nodup c.nodes
      → ((n : ℕ) → Mem n c.nodes → IsUp api (ns n) (out n))
      → (c.queue_commands ≡ true → IsOpen c.cq)
      → c.stop_chan_closed ≡ false
      → (ns' : ℕ → Node C) × (w' : W) × (stop (node_api api) c (ns, w)
          ≡ ok (stopped c, ended c, none, (ns', w')))
        × Each api (λ n. n.state_data.state_val ≡ node_shutdown) c.nodes ns'
  unfolding stop stop_checked stop_done
  stop-shut_down c ns w out running d up q unsignalled =
      let s = stop_nodes-Swept api c.nodes ns w out d up in
      let passes : state_check c.state_data (cluster_running ∷ []) ≡ none =
        ground (arith, running) in
      let c' = record c { state_data = set_state c.state_data cluster_shutting_down } in
      let down = all_stopped-Each api c.nodes s.nodes s.world s.each in
      elim (Bool-cases c.queue_commands) [
        | inl queues ↦ (
          s.nodes,
          s.world,
          rw (passes, stop_queue_ends c' (q queues) unsignalled, queues, s.runs, down) refl,
          s.each,
        )
        | inr fails ↦ (s.nodes, s.world, rw (passes, fails, s.runs, down) refl, s.each)
      ]
