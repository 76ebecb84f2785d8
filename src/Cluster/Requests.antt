-- ===== src/Cluster/Requests.antt =====
-- cluster.go: `Execute` and `ExecuteAsync`.
use riak_go_client.Prelude.{
  ℕ, false, ◌||◌, Option, none, some, ◌⊎◌, inl, inr, if◌then◌else◌, Run, ok, ◌>>=◌,
}
use riak_go_client.Errors.{
  Error, client_error, cluster_command_required, cluster_async_requires_channel_or_wait_group,
}
use riak_go_client.Queue.{Queue}
use riak_go_client.Command.{CommandApi}
use riak_go_client.Async.{Async, or_old, signal}
use riak_go_client.Cluster.{Cluster}
use riak_go_client.Cluster.Execute.{Seen, ExecuteOnNode, execute}

module _ {K : Type 0} where
  -- `&Async{Command: command}`.
  abbrev pub fresh_async : K → Async K
  fresh_async k = record {
    command = k;
    has_done = false;
    has_wait = false;
    error = none;
    retry_backoff = none;
    enqueued_at = 0;
    execute_at = 0;
    queue_backoff = none;
    done_signals = 0;
    wait_signals = 0;
    wait_adds = 0;
  }

  -- The async that a goroutine executes, or the error. The command is `none` for nil; the rest of
  -- the async is `a`.
  unfoldable pub execute_async : Option K → Async K → Error ⊎ Async K
  execute_async none a = inl (client_error cluster_command_required)
  execute_async (some k) a =
      if a.has_done || a.has_wait
      then inr (record a { command = k; wait_adds = signal a.has_wait a.wait_adds })
      else inl (client_error cluster_async_requires_channel_or_wait_group)

module _ {K W Msg : Type 0} (cmds : CommandApi K Msg) (exec_on_node : ExecuteOnNode K W)
    (delay : ℕ → ℕ) (now : W → ℕ) (c : Cluster K) (seen : Seen) where
  -- What `Execute` answers once `execute` is done.
  unfoldable pub answer : Async K → Option Error
  answer a = or_old a.error (cmds.error a.command)

  unfoldable pub execute_sync :
      Option K → Queue (Async K) → W → Run (Option Error × Queue (Async K) × W)
  unfolding answer
  execute_sync none q w = ok (some (client_error cluster_command_required), q, w)
  execute_sync (some k) q w =
      execute cmds exec_on_node delay now c seen (fresh_async k) q w >>= λ (a, q', w').
      ok (answer a, q', w')
