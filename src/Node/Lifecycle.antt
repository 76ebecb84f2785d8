-- ===== src/Node/Lifecycle.antt =====
-- node.go: starting and stopping a node.
use riak_go_client.Prelude.{
  ℕ, ◌≤◌, ◌≡◌, refl, ◌⊎◌, inl, true, false, List, Option, none, some, [], ◌∷◌, arith, if◌then◌else◌,
  Run, ok, panic, ◌>>=◌, close_of_closed_channel,
}
use riak_go_client.Errors.{Error}
use riak_go_client.States.{set_state, state_check}
use riak_go_client.ConnectionManager.{
  ConnectionManager, ConnApi, cm_created, cm_running, cm_shutdown,
}
use riak_go_client.ConnectionManager.Invariant.{Inv}
use riak_go_client.ConnectionManager.Starting as Starting
use riak_go_client.ConnectionManager.Starting.{start-Started, dialled}
use riak_go_client.ConnectionManager.Shutdown.{stop-Stopped, close_all}
use riak_go_client.ConnectionManager.Lifecycle as Manager
use riak_go_client.Node.{
  Node, node_created, node_running, node_health_checking, node_shutting_down, node_shutdown,
  node_error,
}

module _ {C W : Type 0} (api : ConnApi C W) where
  -- An error of the manager's `start` is only logged.
  started : Node C → ConnectionManager C × Option Error × W → Run (Node C × Option Error × W)
  started n (cm, _, w) =
      ok (record n { cm = cm; state_data = set_state n.state_data node_running }, none, w)

  start_checked : Option Error → Node C → W → Run (Node C × Option Error × W)
  unfolding started
  start_checked (some e) n w = ok (n, some e, w)
  start_checked none n w = Manager.start api n.cm w >>= started n

  unfoldable pub start : Node C → W → Run (Node C × Option Error × W)
  unfolding start_checked
  start n w = start_checked (state_check n.state_data (node_created ∷ [])) n w

  stopped_state : Option Error → ℕ
  stopped_state none = node_shutdown
  stopped_state (some e) = node_error

  stopped : Node C → ConnectionManager C × Option Error × W → Run (Node C × Option Error × W)
  unfolding stopped_state
  stopped n (cm, e, w) =
      ok (record n { cm = cm; state_data = set_state n.state_data (stopped_state e) }, e, w)

  -- `close(n.stopChan)`.
  signalled : Node C → Run (Node C)
  signalled n =
      if n.stop_chan_closed
      then panic close_of_closed_channel
      else ok (record n {
        state_data = set_state n.state_data node_shutting_down;
        stop_chan_closed = true;
      })

  stop_checked : Option Error → Node C → W → Run (Node C × Option Error × W)
  unfolding signalled stopped
  stop_checked (some e) n w = ok (n, some e, w)
  stop_checked none n w = signalled n >>= λ n'. (Manager.stop api n'.cm w >>= stopped n')

  unfoldable pub stop : Node C → W → Run (Node C × Option Error × W)
  unfolding stop_checked
  stop n w = stop_checked (state_check n.state_data (node_running ∷ node_health_checking ∷ [])) n w

  -- A node that has not been started, with a manager that `newConnectionManager` can have made, whose
  -- minimum is not above its maximum. By `Inv`, dialing with the manager's settings is known not to
  -- panic, which for connections of connection.go means that no TLS is configured.
  pub record IsFresh (n : Node C) : Type 0 where
    pub created : n.state_data.state_val ≡ node_created
    pub manager_valid : Inv api n.cm 0
    pub manager_created : n.cm.state_data.state_val ≡ cm_created
    pub fits : n.cm.min_connections ≤ n.cm.max_connections
    pub manager_empty : n.cm.q.queue_chan ≡ []
    pub manager_unsignalled : n.cm.stop_chan_closed ≡ false
    pub unsignalled : n.stop_chan_closed ≡ false

  -- A node that has been started and not stopped; callers hold `out` of its connections.
  pub record IsUp (n : Node C) (out : ℕ) : Type 0 where
    pub up :
        (n.state_data.state_val ≡ node_running) ⊎ (n.state_data.state_val ≡ node_health_checking)
    pub manager_valid : Inv api n.cm out
    pub manager_running : n.cm.state_data.state_val ≡ cm_running
    pub manager_unsignalled : n.cm.stop_chan_closed ≡ false
    pub unsignalled : n.stop_chan_closed ≡ false

  -- The running node with the connections.
  abbrev pub running_with : Node C → List C → Node C
  running_with n cs = record n {
    cm = Starting.running_with api n.cm cs;
    state_data = record n.state_data { state_val = node_running };
  }

  -- Starting a fresh node, whatever its dials answer, dials `minConnections` times and makes it run
  -- with the connections that this gives, none of them held.
  pub start-IsUp :
      (n : Node C) (w : W)
      → IsFresh n
      → (let (cs, w') = dialled api n.cm w in
          (start n w ≡ ok (running_with n cs, none, w')) × IsUp (running_with n cs) 0)
  unfolding start
  start-IsUp n w f =
      let s = start-Started api n.cm w f.manager_valid f.manager_created f.manager_empty f.fits in
      (
        ground (arith, s.runs),
        record {
          up = inl refl;
          manager_valid = s.valid;
          manager_running = refl;
          manager_unsignalled = f.manager_unsignalled;
          unsignalled = f.unsignalled;
        },
      )

  -- Stopping a node that is up, also while it checks its health, shuts it and its manager down
  -- and closes every connection in the queue; what callers hold stays counted.
  pub stop-shutdown :
      (n : Node C) (out : ℕ) (w : W)
      → IsUp n out
      → (n' : Node C) × (stop n w ≡ ok (n', none, close_all api n.cm.q.queue_chan w))
        × (n'.state_data.state_val ≡ node_shutdown)
        × (n'.cm.state_data.state_val ≡ cm_shutdown)
        × (n'.cm.q.queue_chan ≡ [])
        × (n'.cm.connection_counter ≡ out)
  unfolding stop
  stop-shutdown n out w u =
      let s = stop-Stopped api n.cm out w u.manager_valid u.manager_running u.manager_unsignalled in
      (
        record n {
          cm = s.after;
          stop_chan_closed = true;
          state_data = set_state n.state_data node_shutdown;
        },
        ground (arith, s.runs),
        refl,
        s.state,
        s.emptied,
        s.left_open,
      )
