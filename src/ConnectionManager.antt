-- ===== src/ConnectionManager.antt =====
-- connection_manager.go: a pool of connections behind a queue, with a count of the connections
-- that are open. `C` is the type of connections and `W` the world that dialing and closing act
-- on; the manager reaches both through `ConnApi`, which the connection component fills. A method
-- is one step; `get` and `start`, which take their locks several times, are sequences of such
-- steps with nothing between them. `stopChan` is whether it is closed, the ticker whether it runs.
pub mod Lifecycle
pub mod Invariant
pub mod Starting
pub mod Expiry
pub mod Shutdown
pub mod Traces
pub mod Examples
use Prim.Native.String.{String}
use riak_go_client.Prelude.{
  ℕ, zero, suc, ◌+◌, ◌-◌, ◌%◌, ◌≡◌, Bool, true, false, not, ◌||◌, Option, none, some, ◌⊎◌, inl, inr,
  List, [], ◌∷◌, ltb, leb, ◌==◌, if◌then◌else◌, Run, ok, panic, spins, ◌>>=◌, nil_connection,
  close_of_closed_channel,
}
use riak_go_client.Errors.{
  Error, client_error, manager_requires_options, manager_requires_address,
  manager_max_greater_than_min, all_connections_in_use,
}
use riak_go_client.States.{StateData, init_state_data, is_state_less_than, set_state, state_check}
use riak_go_client.Queue.{Queue, new_queue, enqueue, iterate, destroy, Visitor}
use riak_go_client.Config.{
  AuthOptions, ConnectionOptions, or_default, default_min_connections, default_max_connections,
  default_temp_net_error_retries, default_idle_expiration_interval, default_idle_timeout,
  default_connect_timeout, default_request_timeout,
}

abbrev pub cm_created : ℕ
cm_created = 0

abbrev pub cm_running : ℕ
cm_running = 1

abbrev pub cm_shutting_down : ℕ
cm_shutting_down = 2

abbrev pub cm_shutdown : ℕ
cm_shutdown = 3

abbrev pub cm_error : ℕ
cm_error = 4

-- What `createConnection` answers: no panic, and a usable connection or an error.
abbrev pub Dials : {C W : Type 0} → (C → Bool) → Run (Option C × Option Error × W) → Type 0
Dials available (ok (conn, some e, w)) = Unit
Dials available (ok (none, none, w)) = ⊥
Dials available (ok (some c, none, w)) = available c ≡ true
Dials available (panic p) = ⊥
Dials available spins = ⊥

-- What the manager needs of connections.
pub record ConnApi (C W : Type 0) : Type 0 where
  pub available : C → Bool
  pub last_used : C → ℕ
  pub close : C → W → C × Option Error × W
  pub create_connection : ConnectionOptions → W → Run (Option C × Option Error × W)
  -- The options with which dialing is known not to panic.
  pub dialable : ConnectionOptions → Bool
  -- With those, dialing answers, and without an error there is a connection, which can be used.
  pub dials :
      (o : ConnectionOptions) (w : W) → dialable o ≡ true → Dials available (create_connection o w)

pub record ConnectionManagerOptions : Type 0 where
  pub addr : Option ℕ
  pub min_connections : ℕ
  pub max_connections : ℕ
  pub temp_net_error_retries : ℕ
  pub idle_expiration_interval : ℕ
  pub idle_timeout : ℕ
  pub connect_timeout : ℕ
  pub request_timeout : ℕ
  pub auth_options : Option AuthOptions

-- The connectionCounter's value is `connection_counter`.
pub record ConnectionManager (C : Type 0) : Type 0 where
  pub addr : Option ℕ
  pub min_connections : ℕ
  pub max_connections : ℕ
  pub temp_net_error_retries : ℕ
  pub idle_expiration_interval : ℕ
  pub idle_timeout : ℕ
  pub connect_timeout : ℕ
  pub request_timeout : ℕ
  pub auth_options : Option AuthOptions
  pub stop_chan_closed : Bool
  pub q : Queue C
  pub expire_ticker : Bool
  pub connection_counter : ℕ
  pub state_data : StateData

abbrev pub cm_state_desc : List String
cm_state_desc =
    "connMgrError" ∷ "connMgrCreated" ∷ "connMgrRunning" ∷ "connMgrShuttingDown" ∷ "connMgrShutdown"
    ∷ []

-- The two methods of the counter, a `uint16`, that change it.
abbrev pub increment : ℕ → ℕ
increment value = if ltb value 65535 then value + 1 else value

abbrev pub decrement : ℕ → ℕ
decrement value = if ltb 0 value then value - 1 else value

abbrev pub with_defaults : ConnectionManagerOptions → ConnectionManagerOptions
with_defaults o = record {
  addr = o.addr;
  min_connections = or_default o.min_connections default_min_connections;
  max_connections = or_default o.max_connections default_max_connections;
  temp_net_error_retries = or_default o.temp_net_error_retries default_temp_net_error_retries;
  idle_expiration_interval = or_default o.idle_expiration_interval default_idle_expiration_interval;
  idle_timeout = or_default o.idle_timeout default_idle_timeout;
  connect_timeout = or_default o.connect_timeout default_connect_timeout;
  request_timeout = or_default o.request_timeout default_request_timeout;
  auth_options = o.auth_options;
}

module _ {C : Type 0} where
  build_manager : ConnectionManagerOptions → Queue C → ConnectionManager C
  unfolding init_state_data
  build_manager o queue = record {
    addr = o.addr;
    min_connections = o.min_connections;
    max_connections = o.max_connections;
    temp_net_error_retries = o.temp_net_error_retries;
    idle_expiration_interval = o.idle_expiration_interval;
    idle_timeout = o.idle_timeout;
    connect_timeout = o.connect_timeout;
    request_timeout = o.request_timeout;
    auth_options = o.auth_options;
    stop_chan_closed = false;
    q = queue;
    expire_ticker = false;
    connection_counter = 0;
    state_data = set_state (init_state_data cm_state_desc) cm_created;
  }

  checked_manager : ConnectionManagerOptions → Run (Error ⊎ ConnectionManager C)
  unfolding build_manager new_queue
  checked_manager o =
      if ltb o.max_connections o.min_connections
      then ok (inl (client_error manager_max_greater_than_min))
      else (new_queue o.max_connections >>= λ queue. ok (inr (build_manager o queue)))

  addressed_manager : Option ℕ → ConnectionManagerOptions → Run (Error ⊎ ConnectionManager C)
  unfolding checked_manager
  addressed_manager none o = ok (inl (client_error manager_requires_address))
  addressed_manager (some a) o = checked_manager (with_defaults o)

  pub new_connection_manager : Option ConnectionManagerOptions → Run (Error ⊎ ConnectionManager C)
  unfolding addressed_manager
  new_connection_manager none = ok (inl (client_error manager_requires_options))
  new_connection_manager (some o) = addressed_manager o.addr o

  abbrev pub connection_options : ConnectionManager C → ConnectionOptions
  connection_options cm = record {
    remote_address = cm.addr;
    connect_timeout = cm.connect_timeout;
    request_timeout = cm.request_timeout;
    auth_options = cm.auth_options;
    temp_net_error_retries = cm.temp_net_error_retries;
  }

  abbrev pub is_live : ConnectionManager C → Bool
  is_live cm = is_state_less_than cm.state_data cm_shutting_down

module _ {C W : Type 0} (api : ConnApi C W) where
  created_connection :
      ConnectionManager C
      → Option C × Option Error × W
      → ConnectionManager C × Option C × Option Error × W
  created_connection cm (conn, some e, w) = (cm, none, some e, w)
  created_connection cm (conn, none, w) =
      (record cm { connection_counter = increment cm.connection_counter }, conn, none, w)

  pub create : ConnectionManager C → W → Run (ConnectionManager C × Option C × Option Error × W)
  unfolding created_connection
  create cm w =
      if not (is_live cm)
      then ok (cm, none, none, w)
      else if leb cm.max_connections cm.connection_counter
      then ok (cm, none, some (client_error all_connections_in_use), w)
      else (api.create_connection (connection_options cm) w >>= λ r. ok (created_connection cm r))

  unfoldable pub remove : ConnectionManager C → C → W → ConnectionManager C × Option Error × W
  remove cm conn w =
      if is_live cm
      then (let (conn', e, w') = api.close conn w in
          (record cm { connection_counter = decrement cm.connection_counter }, e, w'))
      else (cm, none, w)

  pub put : ConnectionManager C → C → W → Run (ConnectionManager C × Option Error × W)
  put cm conn w =
      if is_live cm
      then (enqueue cm.q (some conn) >>= λ (q', e). ok (record cm { q = q' }, e, w))
      else (let (conn', e, w') = api.close conn w in
          ok (record cm { connection_counter = decrement cm.connection_counter }, none, w'))

  -- The closure of `get` captures the manager and `conn`. Its manager's queue is not read.
  get_visit : Visitor (ConnectionManager C × Option C × W) C
  unfolding remove
  get_visit s none = (s, true, false)
  get_visit (cm, conn, w) (some c) =
      if api.available c
      then ((cm, some c, w), true, false)
      else (let (cm', e, w') = remove cm c w in ((cm', none, w'), false, false))

  got :
      (ConnectionManager C × Option C × W) × Queue C × Option Error
      → Run (ConnectionManager C × Option C × Option Error × W)
  unfolding create
  got ((cm, conn, w), q', some e) = ok (record cm { q = q' }, none, some e, w)
  got ((cm, some c, w), q', none) = ok (record cm { q = q' }, some c, none, w)
  got ((cm, none, w), q', none) = create (record cm { q = q' }) w

  unfoldable pub get :
      ConnectionManager C → W → Run (ConnectionManager C × Option C × Option Error × W)
  unfolding get_visit got
  get cm w = iterate get_visit (cm, none, w) cm.q >>= got
