-- ===== src/Node.antt =====
-- node.go: a node and its connection manager. `C`, `K` and `W` are connections, commands and the
-- world; `conn_execute` is the connection's `execute`. A node is known to commands by a number. The
-- field `checking` counts the goroutines of `healthCheck` that are running. A method is one step.
use Prim.Native.String.{String}
use riak_go_client.Prelude.{
  ℕ, ◌+◌, ◌-◌, Bool, true, false, not, Option, none, some, ◌⊎◌, inl, inr, List, [], ◌∷◌,
  if◌then◌else◌, Run, ok, panic, spins, ◌>>=◌, nil_connection, nil_dereference,
  close_of_closed_channel, ◌&&◌,
}
use riak_go_client.Errors.{
  Error, client_error, client_error_inner, riak_error, is_temporary_net_error,
}
use riak_go_client.States.{
  StateData, init_state_data, is_current_state, is_state_less_than, set_state, state_check,
}
use riak_go_client.Config.{
  AuthOptions, or_default, default_min_connections, default_max_connections,
  default_temp_net_error_retries, default_idle_timeout, default_connect_timeout,
  default_request_timeout, default_health_check_interval,
}
use riak_go_client.Command.{CommandApi}
use riak_go_client.ConnectionManager.{
  ConnectionManager, ConnectionManagerOptions, ConnApi, new_connection_manager, connection_options,
  get, put, remove,
}
pub mod HealthCheck
pub mod Conservation
pub mod Lifecycle
pub mod Examples

abbrev pub node_created : ℕ
node_created = 0

abbrev pub node_running : ℕ
node_running = 1

abbrev pub node_health_checking : ℕ
node_health_checking = 2

abbrev pub node_shutting_down : ℕ
node_shutting_down = 3

abbrev pub node_shutdown : ℕ
node_shutdown = 4

abbrev pub node_error : ℕ
node_error = 5

-- The remote address is resolved by the `net` package before the options are used, so that it is
-- a parameter of `new_node`.
pub record NodeOptions : Type 0 where
  pub min_connections : ℕ
  pub max_connections : ℕ
  pub temp_net_error_retries : ℕ
  pub idle_timeout : ℕ
  pub connect_timeout : ℕ
  pub request_timeout : ℕ
  pub health_check_interval : ℕ
  pub auth_options : Option AuthOptions

pub record Node (C : Type 0) : Type 0 where
  pub addr : ℕ
  pub health_check_interval : ℕ
  pub stop_chan_closed : Bool
  pub cm : ConnectionManager C
  pub state_data : StateData
  pub checking : ℕ

abbrev pub node_state_desc : List String
node_state_desc =
    "nodeCreated" ∷ "nodeRunning" ∷ "nodeHealthChecking" ∷ "nodeShuttingDown" ∷ "nodeShutdown"
    ∷ "nodeError" ∷ []

abbrev pub default_node_options : NodeOptions
default_node_options = record {
  min_connections = default_min_connections;
  max_connections = default_max_connections;
  temp_net_error_retries = default_temp_net_error_retries;
  idle_timeout = default_idle_timeout;
  connect_timeout = default_connect_timeout;
  request_timeout = default_request_timeout;
  health_check_interval = 0;
  auth_options = none;
}

abbrev pub manager_options : ℕ → NodeOptions → ConnectionManagerOptions
manager_options addr o = record {
  addr = some addr;
  min_connections = or_default o.min_connections default_min_connections;
  max_connections = or_default o.max_connections default_max_connections;
  temp_net_error_retries = or_default o.temp_net_error_retries default_temp_net_error_retries;
  idle_expiration_interval = 0;
  idle_timeout = or_default o.idle_timeout default_idle_timeout;
  connect_timeout = or_default o.connect_timeout default_connect_timeout;
  request_timeout = or_default o.request_timeout default_request_timeout;
  auth_options = o.auth_options;
}

-- RiakError and ClientError, which do not close the connection.
abbrev pub keeps_connection : Error → Bool
keeps_connection (client_error msg) = true
keeps_connection (client_error_inner msg e) = true
keeps_connection (riak_error code text) = true
keeps_connection _ = false

module _ {C : Type 0} where
  built : ℕ → NodeOptions → Error ⊎ ConnectionManager C → Run (Error ⊎ Node C)
  unfolding init_state_data
  built addr o (inl e) = ok (inl e)
  built addr o (inr cm) = ok (
      inr (record {
        addr = addr;
        health_check_interval = or_default o.health_check_interval default_health_check_interval;
        stop_chan_closed = false;
        cm = cm;
        state_data = set_state (init_state_data node_state_desc) node_created;
        checking = 0;
      }))

  resolved : Error ⊎ ℕ → NodeOptions → Run (Error ⊎ Node C)
  unfolding built
  resolved (inl e) o = ok (inl e)
  resolved (inr addr) o = new_connection_manager (some (manager_options addr o)) >>= built addr o

  -- `resolve` is what `net.ResolveTCPAddr` answers for the remote address or its default.
  unfoldable pub new_node : Error ⊎ ℕ → Option NodeOptions → Run (Error ⊎ Node C)
  unfolding resolved
  new_node resolve none = resolved resolve default_node_options
  new_node resolve (some o) = resolved resolve o

  -- `go n.healthCheck()`.
  pub do_health_check : Node C → Node C
  do_health_check n =
      if is_state_less_than n.state_data node_health_checking
      then record n {
        state_data = set_state n.state_data node_health_checking;
        checking = n.checking + 1;
      }
      else n

module _ {C K W Msg : Type 0} (api : ConnApi C W) (cmds : CommandApi K Msg)
    (conn_execute : C → K → W → Run (C × K × Option Error × W)) where
  -- `executed`, `err`, the command and the world, behind the node.
  abbrev pub NodeOutcome : Type 0
  NodeOutcome = Run (Node C × Bool × Option Error × K × W)

  -- `put` and `remove` may fail, which is only logged.
  given_back : Node C → Option Error → K → ConnectionManager C × Option Error × W → NodeOutcome
  given_back n err k (cm, _, w) = ok (record n { cm = cm }, true, err, k, w)

  pub lost : Node C → Error → K → ConnectionManager C × Option Error × W → NodeOutcome
  unfolding do_health_check
  lost n e k (cm, _, w) =
      let n' = record n { cm = cm } in
      ok (if is_temporary_net_error e then n' else do_health_check n', true, some e, k, w)

  unfoldable pub after_execute : Node C → C × K × Option Error × W → NodeOutcome
  unfolding given_back lost
  after_execute n (conn, k, none, w) = put api n.cm conn w >>= given_back n none k
  after_execute n (conn, k, some e, w) =
      if keeps_connection e
      then (put api n.cm conn w >>= given_back n (some e) k)
      else lost n e k (remove api n.cm conn w)

  -- `setLastNode` for a retryable command.
  pub mark : ℕ → K → K
  mark self k = if cmds.is_retryable k then cmds.record_last_node k self else k

  after_get : ℕ → Node C → K → ConnectionManager C × Option C × Option Error × W → NodeOutcome
  unfolding after_execute mark do_health_check
  after_get self n k (cm, conn, some e, w) =
      ok (do_health_check (record n { cm = cm }), false, some e, k, w)
  after_get self n k (cm, none, none, w) = panic nil_connection
  after_get self n k (cm, some conn, none, w) =
      conn_execute conn (mark self k) w >>= after_execute (record n { cm = cm })

  unfoldable pub checked : Option Error → ℕ → Node C → K → W → NodeOutcome
  unfolding after_get
  checked (some e) self n k w = ok (n, false, some e, k, w)
  checked none self n k w =
      if is_current_state n.state_data node_running
      then (get api n.cm w >>= after_get self n k)
      else ok (n, false, none, k, w)

  -- `self` is the number of this node.
  unfoldable pub execute : ℕ → Node C → K → W → NodeOutcome
  unfolding checked
  execute self n k w =
      checked (state_check n.state_data (node_running ∷ node_health_checking ∷ [])) self n k w
