-- ===== src/Connection.antt =====
-- connection.go: one connection. `W` is the world that the sockets live in; the `net`, `tls`, `io`
-- and backoff packages are reached through `NetApi`. A socket is a number; the buffers hold no
-- state between calls but the capacity of `dataBuf`.
use Prim.Native.String.{String}
use riak_go_client.Prelude.{
  ℕ, zero, suc, ◌-◌, ◌≡◌, Bool, true, false, not, ◌&&◌, Option, none, some, ◌⊎◌, inl, inr, List, [],
  ◌∷◌, ltb, ◌==◌, if◌then◌else◌, length, Run, ok, panic, ◌>>=◌, nil_dereference,
}
use riak_go_client.Errors.{
  Error, client_error, address_required, options_required, short_header, short_message, short_write,
  cannot_read, cannot_write, is_temporary_net_error,
}
use riak_go_client.States.{StateData, init_state_data, is_state_less_than, set_state}
use riak_go_client.Config.{
  AuthOptions, ConnectionOptions, or_default, default_connect_timeout, default_request_timeout,
  default_temp_net_error_retries, default_init_buffer,
}
use riak_go_client.Command.{uint32}
pub mod Execute
pub mod Connect
pub mod Reading
pub mod Settling
pub mod Landing
pub mod Exchange
pub mod Streaming
pub mod Pooled
pub mod Examples

abbrev pub conn_created : ℕ
conn_created = 0

abbrev pub conn_tls_starting : ℕ
conn_tls_starting = 1

abbrev pub conn_active : ℕ
conn_active = 2

abbrev pub conn_inactive : ℕ
conn_inactive = 3

-- The calls of other packages, on sockets: `dial` takes a timeout and an address; `read_full` and
-- `write` say what was read, or how much was written; `backoff` is the delay before a retry.
pub record NetApi (W : Type 0) : Type 0 where
  pub dial : ℕ → ℕ → W → (Error ⊎ ℕ) × W
  pub close : ℕ → W → Option Error × W
  pub set_read_deadline : ℕ → ℕ → W → W
  pub set_write_deadline : ℕ → ℕ → W → W
  pub read_full : ℕ → ℕ → W → List ℕ × Option Error × W
  pub write : ℕ → List ℕ → W → ℕ × Option Error × W
  pub tls_client : ℕ → ℕ → Option ℕ
  pub handshake : ℕ → W → Option Error × W
  pub backoff : ℕ → ℕ → ℕ
  pub now : W → ℕ

pub record Connection : Type 0 where
  pub addr : Option ℕ
  pub conn : Option ℕ
  pub connect_timeout : ℕ
  pub request_timeout : ℕ
  pub temp_net_error_retries : ℕ
  pub auth_options : Option AuthOptions
  pub data_buf_cap : ℕ
  pub active : Bool
  pub in_flight : Bool
  pub last_used : ℕ
  pub state_data : StateData

abbrev pub conn_state_desc : List String
conn_state_desc = "connCreated" ∷ "connTlsStarting" ∷ "connActive" ∷ "connInactive" ∷ []

abbrev pub is_set : Option ℕ → Bool
is_set none = false
is_set (some sock) = true

abbrev pub available : Connection → Bool
available c = is_set c.conn && is_state_less_than c.state_data conn_inactive

abbrev pub set_conn_state : Connection → ℕ → Connection
set_conn_state c st = record c { state_data = set_state c.state_data st }

fresh_connection : ConnectionOptions → ℕ → ℕ → Connection
unfolding init_state_data
fresh_connection o a now = record {
  addr = some a;
  conn = none;
  connect_timeout = or_default o.connect_timeout default_connect_timeout;
  request_timeout = or_default o.request_timeout default_request_timeout;
  temp_net_error_retries = or_default o.temp_net_error_retries default_temp_net_error_retries;
  auth_options = o.auth_options;
  data_buf_cap = default_init_buffer;
  active = false;
  in_flight = false;
  last_used = now;
  state_data = set_state (init_state_data conn_state_desc) conn_created;
}

module _ {W : Type 0} (net : NetApi W) where
  pub opened : ConnectionOptions → Option ℕ → ℕ → Error ⊎ Connection
  opened o none now = inl (client_error address_required)
  opened o (some a) now = inr (fresh_connection o a now)

  pub new_connection : Option ConnectionOptions → W → Error ⊎ Connection
  unfolding opened
  new_connection none w = inl (client_error options_required)
  new_connection (some o) w = opened o o.remote_address (net.now w)

  close_socket : Connection → Option ℕ → W → Connection × Option Error × W
  close_socket c none w = (c, none, w)
  close_socket c (some sock) w = let (e, w') = net.close sock w in (record c { conn = none }, e, w')

  unfoldable pub close : Connection → W → Connection × Option Error × W
  unfolding close_socket
  close c w = close_socket c c.conn w

  -- `if err == nil && count != want`, of a read that failed with `e` or not.
  abbrev pub checked_count : Option Error → ℕ → ℕ → Option Error
  checked_count (some e) want count = some e
  checked_count none want count =
      if count == want then none else some (client_error (short_message want count))

  bytes_or : List ℕ → Option Error → Error ⊎ List ℕ
  bytes_or bytes none = inr bytes
  bytes_or bytes (some e) = inl e

  -- The body, once the header has been read.
  read_body : Connection → ℕ → ℕ → List ℕ → W → Connection × (Error ⊎ List ℕ) × W
  unfolding bytes_or
  read_body c sock rt header w =
      let n = uint32 header in
      let cap = if ltb c.data_buf_cap n then n else c.data_buf_cap in
      let (bytes, e, w') = net.read_full sock n (net.set_read_deadline sock rt w) in
      (record c { data_buf_cap = cap }, bytes_or bytes (checked_count e n (length bytes)), w')

  after_header : Connection → ℕ → ℕ → List ℕ × Option Error × W → Connection × (Error ⊎ List ℕ) × W
  unfolding read_body
  after_header c sock rt (header, some e, w) = (c, inl e, w)
  after_header c sock rt (header, none, w) =
      if length header == 4
      then read_body c sock rt header w
      else (c, inl (client_error (short_header (length header))), w)

  -- One round of the loop of `read`.
  read_once : Connection → ℕ → ℕ → W → Connection × (Error ⊎ List ℕ) × W
  unfolding after_header
  read_once c sock rt w =
      after_header c sock rt (net.read_full sock 4 (net.set_read_deadline sock rt w))

  -- After a round: the message, another round after a temporary error, or the end.
  after_read :
      (Connection → W → Connection × (Error ⊎ List ℕ) × W)
      → Bool
      → Connection × (Error ⊎ List ℕ) × W
      → Connection × (Error ⊎ List ℕ) × W
  unfolding is_temporary_net_error
  after_read again may_retry (c, inr bytes, w) = (c, inr bytes, w)
  after_read again may_retry (c, inl e, w) =
      let next = again c w in
      if may_retry && is_temporary_net_error e
      then next
      else (set_conn_state c conn_inactive, inl e, w)

  -- The loop, with the retries that are left, `c.tempNetErrorRetries - try`; `min` is the timeout
  -- that the backoff starts from, and `rt` the current one.
  read_loop : ℕ → ℕ → ℕ → ℕ → ℕ → Connection → W → Connection × (Error ⊎ List ℕ) × W
  unfolding read_once after_read
  read_loop zero tries sock min rt c w =
      after_read (λ c' w'. (c', inl cannot_read, w')) false (read_once c sock rt w)
  read_loop (suc left) tries sock min rt c w =
      after_read (read_loop left (suc tries) sock min (net.backoff min tries)) true
        (read_once c sock rt w)

  read_from : Option ℕ → ℕ → Connection → W → Connection × (Error ⊎ List ℕ) × W
  unfolding read_loop
  read_from none timeout c w = (c, inl cannot_read, w)
  read_from (some sock) timeout c w = read_loop c.temp_net_error_retries 0 sock timeout timeout c w

  pub read : Connection → ℕ → W → Connection × (Error ⊎ List ℕ) × W
  unfolding read_from
  read c timeout w = if available c then read_from c.conn timeout c w else (c, inl cannot_read, w)

  written : Connection → ℕ → ℕ × Option Error × W → Connection × Option Error × W
  written c want (count, some e, w) = (set_conn_state c conn_inactive, some e, w)
  written c want (count, none, w) =
      if count == want then (c, none, w) else (c, some (client_error (short_write want count)), w)

  write_to : Option ℕ → Connection → List ℕ → ℕ → W → Connection × Option Error × W
  unfolding written
  write_to none c bytes timeout w = (c, some cannot_write, w)
  write_to (some sock) c bytes timeout w =
      written c (length bytes) (net.write sock bytes (net.set_write_deadline sock timeout w))

  -- Reading and writing go on only on a connection that is available, which has a socket.
  pub write : Connection → List ℕ → ℕ → W → Connection × Option Error × W
  unfolding write_to
  write c bytes timeout w =
      if available c then write_to c.conn c bytes timeout w else (c, some cannot_write, w)
