-- ===== src/Cluster/Attempts.antt =====
-- cluster.go: how often `execute` tries, and what it ends with.
use riak_go_client.Prelude.{
  ℕ, zero, suc, ◌+◌, ◌≤◌, ◌≡◌, Bool, true, false, Option, none, some, inl, inr, List, [], ◌∷◌,
  if◌then◌else◌, arith, length, ◌==◌, ok, panic, spins, ◌>>=◌, Bool-cases,
}
use riak_go_client.Errors.{Error}
use riak_go_client.States.{is_state_less_than, state_check}
use riak_go_client.Queue.{Queue, enqueue}
use riak_go_client.Queue.Sweep.{IsOpen}
use riak_go_client.Queue.Fifo.{enqueue_full, enqueue_room}
use riak_go_client.Command.{CommandApi}
use riak_go_client.Async.{Async, on_execute, on_enqueued}
use riak_go_client.Cluster.{Cluster, cluster_running, cluster_shutting_down}
use riak_go_client.Cluster.Execute.{
  Seen, ExecuteOnNode, Executed, finish, enqueue_command, after_enqueue, retry, after_node,
  try_node, try_loop, tries_of, execute,
}

-- On an open queue `enqueue` returns, with a value more or as it was.
enqueue_answers :
    {A : Type 0} (q : Queue A) (x : A)
    → IsOpen q
    → (r : Queue A × Option Error) × (enqueue q (some x) ≡ ok r)
enqueue_answers q x v = elim (Bool-cases (length q.queue_chan == q.queue_size)) [
  | inl full ↦ (_, enqueue_full q x (ground arith))
  | inr room ↦ (_, enqueue_room q x v.open_chan (ground arith))
]

module _ {K W Msg : Type 0} (cmds : CommandApi K Msg) (exec_on_node : ExecuteOnNode K W)
    (delay : ℕ → ℕ) (now : W → ℕ) (c : Cluster K) (seen : Seen) where
  -- The node manager, counting its calls in the world.
  abbrev pub counted : ExecuteOnNode K (ℕ × W)
  counted nodes k last (n, w) =
      exec_on_node nodes k last w >>= λ (executed, e, k', w'). ok (executed, e, k', (suc n, w'))

  abbrev pub now' : ℕ × W → ℕ
  now' (n, w) = now w

  -- The node manager returns.
  abbrev pub Answers : Type 0
  Answers =
      (nodes : List ℕ) (k : K) (last : Option ℕ) (w : W)
      → (r : Bool × Option Error × K × W) × (exec_on_node nodes k last w ≡ ok r)

  -- `execute` returns after `m` calls at most.
  abbrev pub AtMost : ℕ → Executed cmds counted delay now' c seen → Type 0
  AtMost m (ok (a, q, (n, w))) = n ≤ m
  AtMost m (panic p) = ⊥
  AtMost m spins = ⊥

  finish-AtMost :
      (m : ℕ) (b : Bool) (e : Option Error) (a : Async K) (q : Queue (Async K)) (n : ℕ) (w : W)
      → n ≤ m
      → AtMost m (finish cmds counted delay now' c seen b e a q (n, w))
  unfolding finish
  finish-AtMost m true e a q n w h = h
  finish-AtMost m false e a q n w h = h

  enqueue-AtMost :
      (m : ℕ) (a : Async K) (q : Queue (Async K)) (n : ℕ) (w : W)
      → IsOpen q
      → n ≤ m
      → AtMost m (enqueue_command cmds counted delay now' c seen a q (n, w))
  unfolding enqueue_command after_enqueue finish
  enqueue-AtMost m a q n w v h =
      elim (Bool-cases (is_state_less_than seen.at_enqueue cluster_shutting_down)) [
        | inl up ↦
            let (r, e) = enqueue_answers q (on_enqueued delay (now w) a) v in rw (up, e) (after r)
        | inr down ↦ rw down h
      ]
    where
      after :
          (r : Queue (Async K) × Option Error)
          → AtMost m
              (after_enqueue cmds counted delay now' c seen (n, w) (on_enqueued delay (now w) a) r)
      after (q', none) = h
      after (q', some e) = h

  -- What holds of the loop for any error that the last try left.
  abbrev Bounded :
      ℕ
      → ℕ
      → (Async K → Option Error → Queue (Async K) → ℕ × W → Executed cmds counted delay now' c seen)
      → Type 0
  Bounded m tries again =
      (a : Async K) (e : Option Error) (q : Queue (Async K)) (n : ℕ) (w : W)
      → IsOpen q
      → n + tries ≤ m
      → AtMost m (again a e q (n, w))

  retry-AtMost :
      (again : Async K
        → Option Error
        → Queue (Async K)
        → ℕ × W
        → Executed cmds counted delay now' c seen)
      (m tries : ℕ) (a : Async K) (e : Option Error) (q : Queue (Async K)) (n : ℕ) (w : W)
      → Bounded m tries again
      → IsOpen q
      → n + tries ≤ m
      → AtMost m (retry cmds counted delay now' c seen again tries a e q (n, w))
  unfolding retry finish
  retry-AtMost again m zero a e q n w more v h = omega arith
  retry-AtMost again m (suc tries) a e q n w more v h = more _ e q n w v h

  after_node-AtMost :
      (again : Async K
        → Option Error
        → Queue (Async K)
        → ℕ × W
        → Executed cmds counted delay now' c seen)
      (m tries : ℕ) (a : Async K) (q : Queue (Async K)) (n : ℕ) (x : Bool) (e : Option Error)
      (k : K) (w : W)
      → Bounded m tries again
      → IsOpen q
      → n + tries ≤ m
      → AtMost m (after_node cmds counted delay now' c seen again tries a q (x, e, k, (n, w)))
  unfolding after_node finish
  after_node-AtMost again m tries a q n true none k w more v h = omega arith
  after_node-AtMost again m tries a q n true (some e) k w more v h =
      retry-AtMost again m tries _ (some e) q n w more v h
  after_node-AtMost again m tries a q n false (some e) k w more v h =
      retry-AtMost again m tries _ (some e) q n w more v h
  after_node-AtMost again m tries a q n false none k w more v h =
      elim (Bool-cases c.queue_commands) [
        | inl queues ↦ rw queues (enqueue-AtMost m (record a { command = k }) q n w v (omega arith))
        | inr fails ↦
            rw fails (retry-AtMost again m tries (record a { command = k }) none q n w more v h)
      ]

  try_node-AtMost :
      (again : Async K
        → Option Error
        → Queue (Async K)
        → ℕ × W
        → Executed cmds counted delay now' c seen)
      (m tries : ℕ) (last : Option ℕ) (checked : Option Error) (a : Async K) (q : Queue (Async K))
      (n : ℕ) (w : W)
      → Answers
      → Bounded m tries again
      → IsOpen q
      → n + suc tries ≤ m
      → AtMost m (try_node cmds counted delay now' c seen again tries last checked a q (n, w))
  unfolding try_node finish
  try_node-AtMost again m tries last (some s) a q n w answers more v h = omega arith
  try_node-AtMost again m tries last none a q n w answers more v h =
      let ((x, e, k, w'), runs) = answers c.nodes a.command last w in
      rw runs (after_node-AtMost again m tries a q (suc n) x e k w' more v (omega arith))

  try_loop-AtMost :
      (m tries : ℕ) (last : Option ℕ)
      → Answers
      → Bounded m tries (try_loop cmds counted delay now' c seen tries last)
  unfolding try_loop finish
  try_loop-AtMost m zero last answers a e q n w v h = omega arith
  try_loop-AtMost m (suc tries) last answers a e q n w v h =
      try_node-AtMost (try_loop cmds counted delay now' c seen tries last) m tries last
        (state_check (seen.at_try (suc tries)) (cluster_running ∷ [])) a q n w answers
        (try_loop-AtMost m tries last answers) v h

  -- Where the node manager's calls return and the queue is open, `execute` returns without a
  -- panic, and it has called `ExecuteOnNode` at most `executionAttempts` times for a retryable
  -- command and once for any other. The calls are counted from `n`.
  pub execute-AtMost :
      (a : Async K) (q : Queue (Async K)) (n : ℕ) (w : W)
      → Answers
      → IsOpen q
      → AtMost
          (n + (if cmds.is_retryable a.command then c.execution_attempts else 1))
          (execute cmds counted delay now' c seen a q (n, w))
  unfolding execute
  execute-AtMost a q n w answers v =
      try_loop-AtMost _ (tries_of cmds counted delay now' c seen a.command) _ answers (on_execute a)
        none q n w v (omega arith)
