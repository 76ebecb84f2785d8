-- ===== src/Cluster/QueueExamples.antt =====
-- cluster.go: examples of commands that find no node, and of commands that fail.
use riak_go_client.Prelude.{ℕ, ◌+◌, ◌==◌, ◌≡◌, refl, true, false, some, inr, [], ◌∷◌, ok}
use riak_go_client.Errors.{net_error, client_error, queue_full}
use riak_go_client.Queue.{Queue}
use riak_go_client.Command.{CommandImpl}
use riak_go_client.Async.{Async}
use riak_go_client.Connection.Connect.{new_command}
use riak_go_client.Connection.Examples.{fetch}
use riak_go_client.Cluster.{Cluster, cluster_running}
use riak_go_client.Cluster.Execute.{ExecuteOnNode, execute}
use riak_go_client.Cluster.Exhausted.{GivesUp, logged, clock, execute-GivesUp}
use riak_go_client.Cluster.Queueing.{Unplaced, Twice, execute-Twice}
use riak_go_client.Cluster.Examples.{due_at, cq, cluster, exec, up, retryable}

abbrev queueing : Cluster CommandImpl
queueing = cluster cluster_running (1 ∷ []) true []

due-Unplaced :
    (q : Queue (Async CommandImpl))
    → Unplaced fetch exec (λ n. n) (λ w. w) queueing up (due_at 0) q 2 new_command 3
due-Unplaced q = record {
  tries = 0;
  some_tries = refl;
  running = λ n. refl;
  queues = refl;
  unexecuted = refl;
}

execute-Twice_example :
    (b : Async CommandImpl) × (execute fetch exec
        (λ n. n)
        (λ w. w)
        queueing
        up
        (due_at 0)
        (cq (due_at 1 ∷ due_at 2 ∷ []))
        2
      ≡ ok (b, cq (due_at 1 ∷ due_at 2 ∷ []), 3))
    × Twice fetch exec (λ n. n) (λ w. w) queueing up (due_at 0) b (client_error queue_full)
execute-Twice_example =
    execute-Twice fetch exec (λ n. n) (λ w. w) queueing up (due_at 0)
      (cq (due_at 1 ∷ due_at 2 ∷ [])) 2 new_command 3 (client_error queue_full)
      (due-Unplaced (cq (due_at 1 ∷ due_at 2 ∷ []))) (inr (refl, refl, refl))

-- Every try fails, in its own way.
abbrev failing : ExecuteOnNode CommandImpl ℕ
failing nodes k last w = ok (false, some (net_error (w == 2)), k, w + 1)

execute-GivesUp_example :
    GivesUp retryable failing
      (λ n. n)
      (λ w. w)
      queueing
      up
      3
      (cq [])
      []
      (execute retryable
        (logged retryable failing (λ n. n) (λ w. w) queueing up)
        (λ n. n)
        (clock retryable failing (λ n. n) (λ w. w) queueing up)
        queueing
        up
        (due_at 0)
        (cq [])
        ([], 0))
execute-GivesUp_example =
    execute-GivesUp retryable failing (λ n. n) (λ w. w) queueing up 2 (due_at 0) (cq []) [] 0
      (λ nodes k last w. (false, net_error (w == 2), k, w + 1, refl)) (λ n. refl) refl
