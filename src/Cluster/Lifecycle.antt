-- ===== src/Cluster/Lifecycle.antt =====
-- cluster.go: `Start`, `Stop`, and the ticks of the goroutine that executes what is queued.
use riak_go_client.Prelude.{
  ℕ, suc, Bool, true, false, Option, none, some, List, [], ◌∷◌, ◌++◌, ltb, ◌==◌, if◌then◌else◌, Run,
  ok, panic, ◌>>=◌, close_of_closed_channel, nodes_still_running,
}
use riak_go_client.Errors.{Error, client_error, cluster_is_shutting_down}
use riak_go_client.States.{set_state, is_current_state, is_state_less_than, state_check}
use riak_go_client.Queue.{Queue, Visitor, iterate, count, destroy}
use riak_go_client.Async.{Async, done}
use riak_go_client.Cluster.{
  Cluster, NodeApi, cluster_created, cluster_running, cluster_shutting_down, cluster_shutdown,
}
use riak_go_client.Node.{node_shutdown}

module _ {K : Type 0} where
  -- The visitor of `Stop`, which collects the commands that it has ended.
  unfoldable pub refuse : Visitor (List (Async K)) (Async K)
  refuse ended none = (ended, true, false)
  refuse ended (some a) =
      (ended ++ done (some (client_error cluster_is_shutting_down)) a ∷ [], false, false)

  -- What a tick's visitor does while the cluster is not shutting down: `t.After(async.executeAt)`.
  unfoldable pub visit_async :
      ℕ → ℕ → List (Async K) → Option (Async K) → (ℕ × List (Async K)) × Bool × Bool
  visit_async t seen spawned none = ((suc seen, spawned), true, false)
  visit_async t seen spawned (some a) =
      if ltb a.execute_at t
      then ((suc seen, spawned ++ a ∷ []), false, false)
      else ((suc seen, spawned), false, true)

  -- The visitor of a tick at time `t`. It collects the commands that goroutines are started for;
  -- `less n` is what the test on the cluster's state finds at the n-th value, since `Stop` may run
  -- meanwhile.
  unfoldable pub dispatch : (ℕ → Bool) → ℕ → Visitor (ℕ × List (Async K)) (Async K)
  unfolding visit_async
  dispatch less t (seen, spawned) v =
      if less seen then visit_async t seen spawned v else ((suc seen, spawned), true, false)

  -- An error of the pass is only logged.
  unfoldable pub after_pass :
      Cluster K
      → (ℕ × List (Async K)) × Queue (Async K) × Option Error
      → Run (Cluster K × List (Async K) × Bool)
  after_pass c ((_, spawned), q, _) = ok (record c { cq = q }, spawned, true)

  -- One event of `executeEnqueuedCommands`: `none` when `stopChan` is closed, else the time of a
  -- tick. It answers the commands that goroutines are started for, and whether the loop goes on.
  unfoldable pub queue_event :
      (ℕ → Bool) → Cluster K → Option ℕ → Run (Cluster K × List (Async K) × Bool)
  unfolding after_pass
  queue_event less c none = ok (c, [], false)
  queue_event less c (some t) =
      if is_state_less_than c.state_data cluster_shutting_down
      then (iterate (dispatch less t) (0, []) c.cq >>= after_pass c)
      else ok (c, [], false)

  unfoldable pub after_refusals :
      Cluster K → List (Async K) × Queue (Async K) × Option Error → Run (Cluster K × List (Async K))
  after_refusals c (ended, q, _) = destroy q >>= λ q'. ok (record c { cq = q' }, ended)

  -- The part of `Stop` under `queueCommands`.
  unfoldable pub stop_queue : Cluster K → Run (Cluster K × List (Async K))
  unfolding after_refusals
  stop_queue c =
      let c' = record c { stop_chan_closed = true; ticker_interval = none } in
      if c.stop_chan_closed
      then panic close_of_closed_channel
      else if ltb 0 (count c.cq)
      then (iterate refuse [] c.cq >>= after_refusals c')
      else after_refusals c' ([], c.cq, none)

module _ {W : Type 0} (api : NodeApi W) where
  -- The loop of `Start`: the first error ends it.
  unfoldable pub start_nodes : List ℕ → W → Run (Option Error × W)
  start_nodes [] w = ok (none, w)
  start_nodes (n ∷ ns) w =
      api.start n w >>= λ (e, w'). elim e [ some e ↦ ok (some e, w') | none ↦ start_nodes ns w' ]

  -- The loop of `Stop`: each node is stopped, and `err` is what the last one answered.
  unfoldable pub stop_nodes : Option Error → List ℕ → W → Run (Option Error × W)
  stop_nodes err [] w = ok (err, w)
  stop_nodes err (n ∷ ns) w = api.stop n w >>= λ (e, w'). stop_nodes e ns w'

  unfoldable pub all_stopped : List ℕ → W → Bool
  all_stopped [] w = true
  all_stopped (n ∷ ns) w = if api.get_state n w == node_shutdown then all_stopped ns w else false

module _ {K W : Type 0} (api : NodeApi W) where
  unfoldable pub start_done : Cluster K → Option Error × W → Run (Cluster K × Option Error × W)
  start_done c (some e, w) = ok (c, some e, w)
  start_done c (none, w) =
      ok (record c { state_data = set_state c.state_data cluster_running }, none, w)

  unfoldable pub start_checked : Option Error → Cluster K → W → Run (Cluster K × Option Error × W)
  unfolding start_done start_nodes
  start_checked (some e) c w = ok (c, some e, w)
  start_checked none c w = start_nodes api c.nodes w >>= start_done c

  unfoldable pub start : Cluster K → W → Run (Cluster K × Option Error × W)
  unfolding start_checked
  start c w =
      if is_current_state c.state_data cluster_running
      then ok (c, none, w)
      else start_checked (state_check c.state_data (cluster_created ∷ [])) c w

  unfoldable pub stop_done :
      Cluster K
      → List (Async K)
      → Option Error × W
      → Run (Cluster K × List (Async K) × Option Error × W)
  unfolding all_stopped
  stop_done c ended (err, w) =
      if all_stopped api c.nodes w
      then ok (record c { state_data = set_state c.state_data cluster_shutdown }, ended, err, w)
      else panic nodes_still_running

  unfoldable pub stop_checked :
      Option Error → Cluster K → W → Run (Cluster K × List (Async K) × Option Error × W)
  unfolding stop_done stop_nodes stop_queue
  stop_checked (some e) c w = ok (c, [], some e, w)
  stop_checked none c w =
      let c' = record c { state_data = set_state c.state_data cluster_shutting_down } in
      (if c.queue_commands then stop_queue c' else ok (c', [])) >>= λ (c'', ended).
      (stop_nodes api none c.nodes w >>= stop_done c'' ended)

  -- It also answers the queued commands that it has ended, in the order of their ends.
  unfoldable pub stop : Cluster K → W → Run (Cluster K × List (Async K) × Option Error × W)
  unfolding stop_checked
  stop c w = stop_checked (state_check c.state_data (cluster_running ∷ [])) c w
