-- ===== src/Cluster/Signals.antt =====
-- cluster.go and async.go: how often `execute` signals that a command is done, and what `Execute`
-- answers of it.
use riak_go_client.Prelude.{
  ℕ, zero, suc, ◌≡◌, refl, Bool, true, false, Option, none, some, List, [], ◌∷◌, ok, panic, spins,
}
use riak_go_client.Errors.{Error}
use riak_go_client.States.{state_check}
use riak_go_client.Queue.{Queue}
use riak_go_client.Command.{CommandApi}
use riak_go_client.Async.{Async, on_execute, on_retry, done, signal}
use riak_go_client.Cluster.{Cluster, cluster_running}
use riak_go_client.Cluster.Execute.{
  Seen, ExecuteOnNode, Executed, finish, retry, after_node, try_node, try_loop, tries_of, execute,
}

module _ {K W Msg : Type 0} (cmds : CommandApi K Msg) (exec_on_node : ExecuteOnNode K W)
    (delay : ℕ → ℕ) (now : W → ℕ) (c : Cluster K) (seen : Seen) where
  -- The node manager returns.
  abbrev pub Answers : Type 0
  Answers =
      (nodes : List ℕ) (k : K) (last : Option ℕ) (w : W)
      → (r : Bool × Option Error × K × W) × (exec_on_node nodes k last w ≡ ok r)

  abbrev Run_ : Type 0
  Run_ = Executed cmds exec_on_node delay now c seen

  -- `execute` returned, with one signal on the channel and one on the wait group, where they are
  -- there, and with the queue as it was.
  abbrev pub Once : Async K → Queue (Async K) → Run_ → Type 0
  Once a q (ok (a', q', w)) =
      (q' ≡ q)
      × (a'.done_signals ≡ signal a.has_done a.done_signals)
      × (a'.wait_signals ≡ signal a.has_wait a.wait_signals)
  Once a q (panic p) = ⊥
  Once a q spins = ⊥

  -- The parts of an async that a try does not change.
  abbrev Same : Async K → Async K → Type 0
  Same a b =
      (b.has_done ≡ a.has_done)
      × (b.has_wait ≡ a.has_wait)
      × (b.done_signals ≡ a.done_signals)
      × (b.wait_signals ≡ a.wait_signals)

  finish-Once :
      (a b : Async K) (q : Queue (Async K)) (e : Option Error) (w : W)
      → Same a b
      → Once a q (finish cmds exec_on_node delay now c seen false e b q w)
  unfolding finish done
  finish-Once a b q e w (hd, hw, ds, ws) = (refl, rw (hd, ds) refl, rw (hw, ws) refl)

  retry-Once :
      (again : Async K → Option Error → Queue (Async K) → W → Run_) (tries : ℕ) (a b : Async K)
      (e : Option Error) (q : Queue (Async K)) (w : W)
      → ((b : Async K) (e : Option Error) (w : W) → Same a b → Once a q (again b e q w))
      → Same a b
      → Once a q (retry cmds exec_on_node delay now c seen again tries b e q w)
  unfolding retry on_retry
  retry-Once again zero a b e q w more s = finish-Once a b q _ w s
  retry-Once again (suc tries) a b e q w more s = more _ e w s

  after_node-Once :
      (again : Async K → Option Error → Queue (Async K) → W → Run_) (tries : ℕ) (a b : Async K)
      (q : Queue (Async K)) (x : Bool) (e : Option Error) (k : K) (w : W)
      → c.queue_commands ≡ false
      → ((b : Async K) (e : Option Error) (w : W) → Same a b → Once a q (again b e q w))
      → Same a b
      → Once a q (after_node cmds exec_on_node delay now c seen again tries b q (x, e, k, w))
  unfolding after_node
  after_node-Once again tries a b q true none k w off more s = finish-Once a _ q none w s
  after_node-Once again tries a b q true (some e) k w off more s =
      retry-Once again tries a _ (some e) q w more s
  after_node-Once again tries a b q false (some e) k w off more s =
      retry-Once again tries a _ (some e) q w more s
  after_node-Once again tries a b q false none k w off more s =
      rw off (retry-Once again tries a (record b { command = k }) none q w more s)

  try_node-Once :
      (again : Async K → Option Error → Queue (Async K) → W → Run_) (tries : ℕ) (last : Option ℕ)
      (checked : Option Error) (a b : Async K) (q : Queue (Async K)) (w : W)
      → Answers
      → c.queue_commands ≡ false
      → ((b : Async K) (e : Option Error) (w : W) → Same a b → Once a q (again b e q w))
      → Same a b
      → Once a q (try_node cmds exec_on_node delay now c seen again tries last checked b q w)
  unfolding try_node
  try_node-Once again tries last (some e) a b q w answers off more s =
      finish-Once a b q (some e) w s
  try_node-Once again tries last none a b q w answers off more s =
      let ((x, e, k, w'), runs) = answers c.nodes b.command last w in
      rw runs (after_node-Once again tries a b q x e k w' off more s)

  try_loop-Once :
      (tries : ℕ) (last : Option ℕ) (a : Async K) (q : Queue (Async K))
      → Answers
      → c.queue_commands ≡ false
      → (b : Async K) (e : Option Error) (w : W) → Same a b
      → Once a q (try_loop cmds exec_on_node delay now c seen tries last b e q w)
  unfolding try_loop
  try_loop-Once zero last a q answers off b e w s = finish-Once a b q e w s
  try_loop-Once (suc tries) last a q answers off b e w s =
      try_node-Once (try_loop cmds exec_on_node delay now c seen tries last) tries last
        (state_check (seen.at_try (suc tries)) (cluster_running ∷ [])) a b q w answers off
        (try_loop-Once tries last a q answers off) s

  -- Where the cluster does not queue commands and the node manager's calls return, `execute`
  -- returns and signals each of the async's channel and wait group that is there exactly once,
  -- whether the command was executed, failed, or was refused for the cluster's state.
  pub execute-Once :
      (a : Async K) (q : Queue (Async K)) (w : W)
      → Answers
      → c.queue_commands ≡ false
      → Once a q (execute cmds exec_on_node delay now c seen a q w)
  unfolding execute on_execute
  execute-Once a q w answers off =
      try_loop-Once (tries_of cmds exec_on_node delay now c seen a.command) _ a q answers off
        (on_execute a) none w (refl, refl, refl, refl)
