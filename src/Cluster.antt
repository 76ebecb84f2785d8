-- ===== src/Cluster.antt =====
-- cluster.go: the cluster's state and its members. A node is a number, which stands for its
-- pointer; the nodes themselves are in the world `W`, reached through `NodeApi`. The methods that
-- hold the cluster's lock are one step. `cq` is used only where `queue_commands` is set.
use Prim.Native.String.{String}
use riak_go_client.Prelude.{
  ℕ, zero, suc, Bool, true, false, not, ◌&&◌, Option, none, some, ◌⊎◌, inl, inr, List, [], ◌∷◌,
  ◌++◌, ltb, ◌==◌, if◌then◌else◌, length, Run, ok, panic, ◌>>=◌,
}
use riak_go_client.Errors.{
  Error, client_error, cluster_node_must_be_non_nil, cluster_nodes_must_be_non_nil,
}
use riak_go_client.States.{StateData, init_state_data, is_current_state, set_state, state_check}
use riak_go_client.Config.{or_default, default_execution_attempts, default_queue_execution_interval}
use riak_go_client.Queue.{Queue, new_queue}
use riak_go_client.Async.{Async}
use riak_go_client.Node.{node_created, node_shutdown}
pub mod Execute
pub mod Requests
pub mod Lifecycle
pub mod Dispatch
pub mod Members
pub mod Attempts
pub mod Fleet
pub mod Running
pub mod Exhausted
pub mod Signals
pub mod Queueing
pub mod Examples
pub mod QueueExamples

abbrev pub cluster_created : ℕ
cluster_created = 0

abbrev pub cluster_running : ℕ
cluster_running = 1

abbrev pub cluster_shutting_down : ℕ
cluster_shutting_down = 2

abbrev pub cluster_shutdown : ℕ
cluster_shutdown = 3

abbrev pub cluster_error : ℕ
cluster_error = 4

-- A nil node is `none`. The node manager is a parameter of `execute`.
pub record ClusterOptions : Type 0 where
  pub nodes : List (Option ℕ)
  pub no_default_node : Bool
  pub execution_attempts : ℕ
  pub queue_max_depth : ℕ
  pub queue_execution_interval : ℕ

pub record Cluster (K : Type 0) : Type 0 where
  pub stop_chan_closed : Bool
  pub nodes : List ℕ
  pub execution_attempts : ℕ
  pub queue_commands : Bool
  pub cq : Queue (Async K)
  pub ticker_interval : Option ℕ
  pub state_data : StateData

-- What the cluster calls of its nodes.
pub record NodeApi (W : Type 0) : Type 0 where
  pub start : ℕ → W → Run (Option Error × W)
  pub stop : ℕ → W → Run (Option Error × W)
  pub get_state : ℕ → W → ℕ

abbrev pub cluster_state_desc : List String
cluster_state_desc =
    "clusterCreated" ∷ "clusterRunning" ∷ "clusterShuttingDown" ∷ "clusterShutdown" ∷ "clusterError"
    ∷ []

-- The check that no node is nil.
abbrev pub all_nodes : List (Option ℕ) → Option (List ℕ)
all_nodes [] = some []
all_nodes (none ∷ ns) = none
all_nodes (some n ∷ ns) = elim (all_nodes ns) [ none ↦ none | some ms ↦ some (n ∷ ms) ]

module _ {K : Type 0} where
  abbrev pub no_queue : Queue (Async K)
  no_queue = record { queue_size = 0; queue_chan = []; closed = false }

  unqueued : ClusterOptions → List ℕ → Cluster K
  unfolding init_state_data
  unqueued o ns = record {
    stop_chan_closed = false;
    nodes = ns;
    execution_attempts = or_default o.execution_attempts default_execution_attempts;
    queue_commands = false;
    cq = no_queue;
    ticker_interval = none;
    state_data = set_state (init_state_data cluster_state_desc) cluster_created;
  }

  queued : ClusterOptions → Cluster K → Run (Error ⊎ Cluster K)
  unfolding new_queue
  queued o c =
      if ltb 0 o.queue_max_depth
      then (new_queue o.queue_max_depth >>= λ cq. ok (
          inr (record c {
            queue_commands = true;
            cq = cq;
            ticker_interval =
                some (or_default o.queue_execution_interval default_queue_execution_interval);
          })))
      else ok (inr c)

  non_nil : ClusterOptions → Option (List ℕ) → Run (Error ⊎ Cluster K)
  unfolding unqueued queued
  non_nil o none = ok (inl (client_error cluster_nodes_must_be_non_nil))
  non_nil o (some ns) = queued o (unqueued o ns)

  with_default : ClusterOptions → Error ⊎ ℕ → Run (Error ⊎ Cluster K)
  unfolding non_nil
  with_default o (inl e) = ok (inl e)
  with_default o (inr n) = non_nil o (some (n ∷ []))

  -- `default_node` is what `NewNode(nil)` answers.
  unfoldable pub new_cluster : Error ⊎ ℕ → ClusterOptions → Run (Error ⊎ Cluster K)
  unfolding with_default
  new_cluster default_node o =
      if not o.no_default_node && (length o.nodes == 0)
      then with_default o default_node
      else non_nil o (all_nodes o.nodes)

abbrev pub contains : ℕ → List ℕ → Bool
contains n [] = false
contains n (m ∷ ms) = if n == m then true else contains n ms

-- The last of a list with a first element, and the rest before it.
abbrev pub last : ℕ → List ℕ → ℕ
last n [] = n
last n (m ∷ ms) = last m ms

abbrev pub without_last : ℕ → List ℕ → List ℕ
without_last n [] = []
without_last n (m ∷ ms) = n ∷ without_last m ms

-- `cn[i], cn[l], c.nodes = cn[l], nil, cn[:l]` at the first position of `n`: the last node takes
-- its place.
abbrev pub swap_remove : ℕ → List ℕ → List ℕ
swap_remove n [] = []
swap_remove n (m ∷ []) = if n == m then [] else m ∷ []
swap_remove n (m ∷ m' ∷ ms) =
    if n == m then last m' ms ∷ without_last m' ms else m ∷ swap_remove n (m' ∷ ms)

module _ {K W : Type 0} (api : NodeApi W) where
  add_started : Cluster K → ℕ → Option Error × W → Cluster K × Option Error × W
  add_started c n (some e, w) = (c, some e, w)
  add_started c n (none, w) = (record c { nodes = c.nodes ++ n ∷ [] }, none, w)

  pub add_node : Cluster K → Option ℕ → W → Run (Cluster K × Option Error × W)
  unfolding add_started
  add_node c none w = ok (c, some (client_error cluster_node_must_be_non_nil), w)
  add_node c (some n) w =
      if contains n c.nodes
      then ok (c, none, w)
      else if is_current_state c.state_data cluster_running
      then (api.start n w >>= λ r. ok (add_started c n r))
      else ok (record c { nodes = c.nodes ++ n ∷ [] }, none, w)

  -- The node is out of the list before it is stopped, also if that fails.
  pub remove_node : Cluster K → Option ℕ → W → Run (Cluster K × Option Error × W)
  remove_node c none w = ok (c, some (client_error cluster_node_must_be_non_nil), w)
  remove_node c (some n) w =
      let c' = record c { nodes = swap_remove n c.nodes } in
      if contains n c.nodes
      then (if api.get_state n w == node_created
          then ok (c', none, w)
          else (api.stop n w >>= λ (e, w'). ok (c', e, w')))
      else ok (c, none, w)
