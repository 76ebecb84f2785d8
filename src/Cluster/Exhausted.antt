-- ===== src/Cluster/Exhausted.antt =====
-- cluster.go: a command that fails on every try.
use mathlib.Core.List.{append_assoc}
use riak_go_client.Prelude.{
  ℕ, zero, suc, ◌≡◌, refl, ap, ◌∙◌, Bool, true, false, Option, none, some, List, [], ◌∷◌, arith, ok,
  ◌++◌, ◌>>=◌, length, length-append, sym, if◌then◌else◌,
}
use riak_go_client.Errors.{Error, client_error_inner, cluster_no_nodes_available, new_client_error}
use riak_go_client.States.{state_check}
use riak_go_client.Queue.{Queue}
use riak_go_client.Command.{CommandApi}
use riak_go_client.Async.{Async, on_execute, on_retry, done}
use riak_go_client.Cluster.{Cluster, cluster_running}
use riak_go_client.Cluster.Execute.{
  Seen, ExecuteOnNode, Executed, finish, retry, after_node, try_node, try_loop, last_node_of,
  execute,
}

module _ {K W Msg : Type 0} (cmds : CommandApi K Msg) (exec_on_node : ExecuteOnNode K W)
    (delay : ℕ → ℕ) (now : W → ℕ) (c : Cluster K) (seen : Seen) where
  -- The node manager, noting in the world the error of each of its calls, the last one first.
  abbrev pub logged : ExecuteOnNode K (List (Option Error) × W)
  logged nodes k last (l, w) =
      exec_on_node nodes k last w >>= λ (executed, e, k', w'). ok (executed, e, k', (e ∷ l, w'))

  abbrev pub clock : List (Option Error) × W → ℕ
  clock (l, w) = now w

  -- Each call of the node manager answers an error.
  abbrev pub Fails : Type 0
  Fails =
      (nodes : List ℕ) (k : K) (last : Option ℕ) (w : W)
      → (x : Bool) × (e : Error) × (k' : K) × (w' : W) × (exec_on_node nodes k last w
          ≡ ok (x, some e, k', w'))

  -- The run ends after exactly `m` calls, which were not noted in `l`, with the queue as it was and
  -- an error around that of the last call.
  pub record GivesUp (m : ℕ) (q : Queue (Async K)) (l : List (Option Error))
      (r : Executed cmds logged delay clock c seen) : Type 0 where
    pub after : Async K
    pub error : Error
    pub earlier : List (Option Error)
    pub world : W
    pub runs : r ≡ ok (after, q, (some error ∷ (earlier ++ l), world))
    pub calls : suc (length earlier) ≡ m
    pub told : after.error ≡ some (client_error_inner cluster_no_nodes_available error)

  -- An error of a try, executed or not, leads to the next one.
  after_node-retry :
      (again : Async K
        → Option Error
        → Queue (Async K)
        → List (Option Error) × W
        → Executed cmds logged delay clock c seen)
      (tries : ℕ) (a : Async K) (q : Queue (Async K)) (x : Bool) (e : Error) (k : K)
      (w : List (Option Error) × W)
      → after_node cmds logged delay clock c seen again tries a q (x, some e, k, w)
        ≡ retry cmds logged delay clock c seen again tries (record a { command = k }) (some e) q w
  unfolding after_node
  after_node-retry again tries a q true e k w = refl
  after_node-retry again tries a q false e k w = refl

  -- One try that fails.
  try_loop-retry :
      (tries : ℕ) (last : Option ℕ) (a : Async K) (err : Option Error) (q : Queue (Async K))
      (l : List (Option Error)) (w : W) (x : Bool) (e : Error) (k : K) (w' : W)
      → state_check (seen.at_try (suc tries)) (cluster_running ∷ []) ≡ none
      → exec_on_node c.nodes a.command last w ≡ ok (x, some e, k, w')
      → try_loop cmds logged delay clock c seen (suc tries) last a err q (l, w)
        ≡ retry cmds logged delay clock c seen
            (try_loop cmds logged delay clock c seen tries last)
            tries
            (record a { command = k })
            (some e)
            q
            (some e ∷ l, w')
  unfolding try_loop try_node
  try_loop-retry tries last a err q l w x e k w' up runs =
      rw (up, runs)
        (after_node-retry (try_loop cmds logged delay clock c seen tries last) tries a q x e k
          (some e ∷ l, w'))

  try_loop-GivesUp :
      (tries : ℕ) (last : Option ℕ) (a : Async K) (err : Option Error) (q : Queue (Async K))
      (l : List (Option Error)) (w : W)
      → Fails
      → ((n : ℕ) → state_check (seen.at_try n) (cluster_running ∷ []) ≡ none)
      → GivesUp
          (suc tries)
          q
          l
          (try_loop cmds logged delay clock c seen (suc tries) last a err q (l, w))
  unfolding retry finish new_client_error done
  try_loop-GivesUp zero last a err q l w fails up =
      let (x, e, k, w', runs) = fails c.nodes a.command last w in
      record {
        after =
            done (some (client_error_inner cluster_no_nodes_available e))
              (record a { command = k });
        error = e;
        earlier = [];
        world = w';
        runs = try_loop-retry zero last a err q l w x e k w' (up 1) runs;
        calls = refl;
        told = refl;
      }
  try_loop-GivesUp (suc tries) last a err q l w fails up =
      let (x, e, k, w', runs) = fails c.nodes a.command last w in
      let a' = on_retry (record a { command = cmds.handle_retry k }) in
      let g = try_loop-GivesUp tries last a' (some e) q (some e ∷ l) w' fails up in
      record {
        after = g.after;
        error = g.error;
        earlier = g.earlier ++ some e ∷ [];
        world = g.world;
        runs =
            try_loop-retry (suc tries) last a err q l w x e k w' (up (suc (suc tries))) runs
            ∙ g.runs
            ∙ ap (λ earlier. ok (g.after, q, (some g.error ∷ earlier, g.world)))
                (sym (append_assoc g.earlier (some e ∷ []) l));
        calls = ground (arith, length-append g.earlier (some e ∷ []), g.calls);
        told = g.told;
      }

  -- Where the cluster is running and every call of the node manager answers an error, `execute`
  -- calls it exactly `executionAttempts` times for a retryable command, which is at least once, and
  -- exactly once for any other; then it ends the command with the error that no nodes are
  -- available, around the error of the last call, and leaves the queue alone.
  pub execute-GivesUp :
      (tries : ℕ) (a : Async K) (q : Queue (Async K)) (l : List (Option Error)) (w : W)
      → Fails
      → ((n : ℕ) → state_check (seen.at_try n) (cluster_running ∷ []) ≡ none)
      → (if cmds.is_retryable a.command then c.execution_attempts else 1) ≡ suc tries
      → GivesUp (suc tries) q l (execute cmds logged delay clock c seen a q (l, w))
  unfolding execute
  execute-GivesUp tries a q l w fails up some_tries = rw some_tries (
      try_loop-GivesUp tries (last_node_of cmds logged delay clock c seen a.command) (on_execute a)
        none q l _ fails up)
