-- ===== src/Cluster/Queueing.antt =====
-- cluster.go: what becomes of a command that no node could execute, where the cluster queues
-- commands.
use riak_go_client.Prelude.{
  ℕ, suc, ◌<◌, ◌≡◌, refl, true, false, none, some, ◌⊎◌, inl, inr, [], ◌∷◌, ◌++◌, arith, length, ok,
  Option-cases,
}
use riak_go_client.Errors.{Error, client_error, queue_full, cluster_enqueue_while_shutting_down}
use riak_go_client.States.{is_state_less_than, state_check}
use riak_go_client.Queue.{Queue}
use riak_go_client.Queue.Fifo.{enqueue_full, enqueue_room}
use riak_go_client.Command.{CommandApi}
use riak_go_client.Async.{Async, on_execute, on_enqueued, done, signal}
use riak_go_client.Cluster.{Cluster, cluster_running, cluster_shutting_down}
use riak_go_client.Cluster.Execute.{
  Seen, ExecuteOnNode, finish, enqueue_command, after_enqueue, after_node, try_node, try_loop,
  tries_of, last_node_of, execute,
}
use riak_go_client.Cluster.Requests.{fresh_async, execute_sync, answer}

module _ {K : Type 0} where
  -- No signal more than before.
  abbrev Quiet : Async K → Async K → Type 0
  Quiet a b =
      (b.has_done ≡ a.has_done)
      × (b.has_wait ≡ a.has_wait)
      × (b.done_signals ≡ a.done_signals)
      × (b.wait_signals ≡ a.wait_signals)

  -- What a queueing does not change.
  abbrev Same : Async K → Async K → Type 0
  Same a b = Quiet a b × (b.error ≡ a.error) × (b.command ≡ a.command)

  on_enqueued-Same : (delay : ℕ → ℕ) (at : ℕ) (a : Async K) → Same a (on_enqueued delay at a)
  unfolding on_enqueued
  on_enqueued-Same delay at a = elim (Option-cases a.queue_backoff) [
    | inl first ↦ rw first ((refl, refl, refl, refl), refl, refl)
    | inr (n, again) ↦ rw again ((refl, refl, refl, refl), refl, refl)
  ]

module _ {K W Msg : Type 0} (cmds : CommandApi K Msg) (exec_on_node : ExecuteOnNode K W)
    (delay : ℕ → ℕ) (now : W → ℕ) (c : Cluster K) (seen : Seen) where
  -- The first try finds the cluster running and no node that executes the command, and no node
  -- that fails; the command is left `k`.
  pub record Unplaced (a : Async K) (q : Queue (Async K)) (w : W) (k : K) (w' : W) : Type 0 where
    pub tries : ℕ
    pub some_tries : tries_of cmds exec_on_node delay now c seen a.command ≡ suc tries
    pub running : (n : ℕ) → state_check (seen.at_try n) (cluster_running ∷ []) ≡ none
    pub queues : c.queue_commands ≡ true
    pub unexecuted :
        exec_on_node c.nodes a.command (last_node_of cmds exec_on_node delay now c seen a.command) w
        ≡ ok (false, none, k, w')

  -- The async as it is queued.
  abbrev pub waiting : Async K → K → W → Async K
  waiting a k w = on_enqueued delay (now w) (record (on_execute a) { command = k })

  -- The one try, and then the queueing.
  execute_enqueues :
      (a : Async K) (q : Queue (Async K)) (w : W) (k : K) (w' : W)
      → Unplaced a q w k w'
      → execute cmds exec_on_node delay now c seen a q w
        ≡ enqueue_command cmds exec_on_node delay now c seen
            (record (on_execute a) { command = k })
            q
            w'
  unfolding execute try_loop try_node after_node on_execute
  execute_enqueues a q w k w' u =
      rw (u.some_tries, u.running (suc u.tries), u.unexecuted, u.queues) refl

  -- Where the cluster is running, the first try finds no node that executes the command and no
  -- error, and the cluster queues commands, is not shutting down when it does, and its queue is
  -- open with room: `execute` puts the command at the back of the queue after that one try, and
  -- signals nothing.
  pub execute-queued :
      (a : Async K) (q : Queue (Async K)) (w : W) (k : K) (w' : W)
      → Unplaced a q w k w'
      → is_state_less_than seen.at_enqueue cluster_shutting_down ≡ true
      → q.closed ≡ false
      → length q.queue_chan < q.queue_size
      → (execute cmds exec_on_node delay now c seen a q w
          ≡ ok (waiting a k w', record q { queue_chan = q.queue_chan ++ waiting a k w' ∷ [] }, w'))
        × ((waiting a k w').done_signals ≡ a.done_signals)
        × ((waiting a k w').wait_signals ≡ a.wait_signals)
  unfolding enqueue_command after_enqueue finish on_enqueued on_execute
  execute-queued a q w k w' u up o room = (
    rw (execute_enqueues a q w k w' u, up, enqueue_room q (waiting a k w') o room) refl,
    kept.0.2,
    kept.0.3,
  )
    where
      kept : Same (record (on_execute a) { command = k }) (waiting a k w')
      kept = on_enqueued-Same delay (now w') (record (on_execute a) { command = k })

  -- Why the queueing fails, with its error.
  abbrev pub Refused : Queue (Async K) → Error → Type 0
  Refused q e =
      ((is_state_less_than seen.at_enqueue cluster_shutting_down ≡ false)
        × (e ≡ client_error cluster_enqueue_while_shutting_down))
      ⊎ ((is_state_less_than seen.at_enqueue cluster_shutting_down ≡ true)
          × (length q.queue_chan ≡ q.queue_size)
          × (e ≡ client_error queue_full))

  -- `done` was called twice.
  abbrev pub Twice : Async K → Async K → Error → Type 0
  Twice a b e =
      (b.done_signals ≡ signal a.has_done (signal a.has_done a.done_signals))
      × (b.wait_signals ≡ signal a.has_wait (signal a.has_wait a.wait_signals))
      × (b.error ≡ some e)

  done-Twice : (a b : Async K) (e : Error) → Quiet a b → Twice a (done (some e) (done (some e) b)) e
  unfolding done
  done-Twice a b e (hd, hw, ds, ws) = (ground (arith, hd, ds), ground (arith, hw, ws), refl)

  -- Where the cluster is running, the first try finds no node that executes the command and no
  -- error, and the cluster queues commands, but the queue is full or the cluster is shutting
  -- down by then: `execute` ends the command twice. The async's channel and its wait group,
  -- where they are there, get two signals each.
  pub execute-Twice :
      (a : Async K) (q : Queue (Async K)) (w : W) (k : K) (w' : W) (e : Error)
      → Unplaced a q w k w'
      → Refused q e
      → (b : Async K) × (execute cmds exec_on_node delay now c seen a q w ≡ ok (b, q, w'))
        × Twice a b e
  unfolding enqueue_command after_enqueue finish on_execute
  execute-Twice a q w k w' e u (inl (down, is)) = (
    done (some e) (done (some e) (record (on_execute a) { command = k })),
    rw (execute_enqueues a q w k w' u, down, is) refl,
    done-Twice a (record (on_execute a) { command = k }) e (refl, refl, refl, refl),
  )
  execute-Twice a q w k w' e u (inr (up, full, is)) = (
    done (some e) (done (some e) (waiting a k w')),
    rw (execute_enqueues a q w k w' u, up, enqueue_full q (waiting a k w') full, is) refl,
    done-Twice a (waiting a k w') e
        (on_enqueued-Same delay (now w') (record (on_execute a) { command = k })).0,
  )

  -- Where the cluster is running, the first try finds no node that executes the command and no
  -- error, and the cluster queues commands, is not shutting down when it does, and its queue is
  -- open with room: `Execute` answers nil if the command holds no error, as for a command that
  -- succeeded, although the command was only put into the queue.
  pub execute_sync-queued :
      (k : K) (q : Queue (Async K)) (w : W) (k' : K) (w' : W)
      → Unplaced (fresh_async k) q w k' w'
      → is_state_less_than seen.at_enqueue cluster_shutting_down ≡ true
      → q.closed ≡ false
      → length q.queue_chan < q.queue_size
      → cmds.error k' ≡ none
      → execute_sync cmds exec_on_node delay now c seen (some k) q w
        ≡ ok
            (none, record q { queue_chan = q.queue_chan ++ waiting (fresh_async k) k' w' ∷ [] }, w')
  unfolding execute_sync answer on_execute
  execute_sync-queued k q w k' w' u up o room none_held =
      let (runs, _, _) = execute-queued (fresh_async k) q w k' w' u up o room in
      let (_, er, co) =
        on_enqueued-Same delay (now w') (record (on_execute (fresh_async k)) { command = k' }) in
      rw (runs, er, co, none_held) refl
