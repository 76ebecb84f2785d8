-- ===== src/Connection/Connect.antt =====
-- connection.go: dialing, with the TLS upgrade; and the two commands of misc_commands.go that the
-- upgrade sends.
use Prim.Native.String.{String}
use riak_go_client.Prelude.{ℕ, true, false, Option, none, some, ◌⊎◌, inl, inr, Run, ok, ◌>>=◌}
use riak_go_client.Errors.{Error, client_error, auth_missing_config, auth_tls_upgrade_failed}
use riak_go_client.Config.{AuthOptions, ConnectionOptions}
use riak_go_client.Command.{CommandApi, CommandImpl, ProtoApi, on_error, on_retry}
use riak_go_client.Connection.{
  Connection, NetApi, new_connection, close, set_conn_state, conn_tls_starting, conn_active,
  conn_inactive,
}
use riak_go_client.Connection.Execute.{execute}

abbrev pub rpb_code_auth_req : ℕ
rpb_code_auth_req = 253

abbrev pub rpb_code_auth_resp : ℕ
rpb_code_auth_resp = 254

abbrev pub rpb_code_start_tls : ℕ
rpb_code_start_tls = 255

module _ {Msg : Type 0} where
  -- A command that only records its success, and is neither retried nor streamed.
  abbrev plain_command : ℕ → ℕ → Option Msg → CommandApi CommandImpl Msg
  plain_command request response body = record {
    get_request_code = λ k. request;
    get_response_code = λ k. response;
    construct_pb_request = λ k. ok (k, inr body);
    get_response_protobuf_message = λ k. none;
    success = λ k. k.success;
    error = λ k. k.error;
    handle_error = on_error;
    handle_retry = on_retry;
    handle_success = λ k msg. ok (record k { success = true }, none);
    allow_listing = λ k. none;
    get_timeout = λ k. none;
    is_done = λ k. none;
    is_retryable = λ k. false;
    get_last_node = λ k. none;
    record_last_node = λ k node. k;
  }

  abbrev pub start_tls_command : CommandApi CommandImpl Msg
  start_tls_command = plain_command rpb_code_start_tls rpb_code_start_tls none

  abbrev pub auth_command : Msg → CommandApi CommandImpl Msg
  auth_command request = plain_command rpb_code_auth_req rpb_code_auth_resp (some request)

abbrev pub new_command : CommandImpl
new_command = record { error = none; success = false }

-- `auth_req` makes the RpbAuthReq message of a user and a password.
module _ {W Msg : Type 0} (net : NetApi W) (proto : ProtoApi Msg)
    (auth_req : String → String → Msg) where
  -- What the two commands end with; their own state is dropped.
  abbrev without_command :
      Connection × CommandImpl × Option Error × W → Run (Connection × Option Error × W)
  without_command (c, k, e, w) = ok (c, e, w)

  authenticate :
      AuthOptions → ℕ → Connection → Option Error × W → Run (Connection × Option Error × W)
  authenticate a tls c (some e, w) = ok (c, some e, w)
  authenticate a tls c (none, w) =
      execute net proto (auth_command (auth_req a.user a.password)) 1 (record c { conn = some tls })
        new_command w
      >>= without_command

  upgraded : AuthOptions → Option ℕ → Connection → W → Run (Connection × Option Error × W)
  unfolding authenticate
  upgraded a none c w = ok (c, some (client_error auth_tls_upgrade_failed), w)
  upgraded a (some tls) c w = authenticate a tls c (net.handshake tls w)

  after_start_tls :
      AuthOptions
      → ℕ
      → ℕ
      → Connection × CommandImpl × Option Error × W
      → Run (Connection × Option Error × W)
  unfolding upgraded
  after_start_tls a config sock (c, k, some e, w) = ok (c, some e, w)
  after_start_tls a config sock (c, k, none, w) = upgraded a (net.tls_client sock config) c w

  configured : AuthOptions → Option ℕ → ℕ → Connection → W → Run (Connection × Option Error × W)
  unfolding after_start_tls
  configured a none sock c w = ok (c, some (client_error auth_missing_config), w)
  configured a (some config) sock c w =
      execute net proto start_tls_command 1 (set_conn_state c conn_tls_starting) new_command w
      >>= after_start_tls a config sock

  start_tls_with : Option AuthOptions → ℕ → Connection → W → Run (Connection × Option Error × W)
  unfolding configured
  start_tls_with none sock c w = ok (c, none, w)
  start_tls_with (some a) sock c w = configured a a.tls_config sock c w

  -- `startTls`, on a connection over the socket `sock`.
  unfoldable pub start_tls : ℕ → Connection → W → Run (Connection × Option Error × W)
  unfolding start_tls_with
  start_tls sock c w = start_tls_with c.auth_options sock c w

  unfoldable pub after_tls : Connection × Option Error × W → Run (Connection × Option Error × W)
  after_tls (c, some e, w) =
      let (c', _, w') = close net c w in ok (set_conn_state c' conn_inactive, some e, w')
  after_tls (c, none, w) = ok (set_conn_state c conn_active, none, w)

  -- `close` after a failed dial finds no socket.
  unfoldable pub after_dial : Connection → (Error ⊎ ℕ) × W → Run (Connection × Option Error × W)
  unfolding start_tls after_tls
  after_dial c (inl e, w) =
      let (c', _, w') = close net (record c { conn = none }) w in ok (c', some e, w')
  after_dial c (inr sock, w) = start_tls sock (record c { conn = some sock }) w >>= after_tls

  pub address_of : Option ℕ → ℕ
  address_of none = 0
  address_of (some a) = a

  unfoldable pub connect : Connection → W → Run (Connection × Option Error × W)
  unfolding after_dial address_of
  connect c w = after_dial c (net.dial c.connect_timeout (address_of c.addr) w)

  unfoldable pub connected :
      Connection × Option Error × W → Run (Option Connection × Option Error × W)
  connected (c, e, w) = ok (some c, e, w)

  unfoldable pub after_new : Error ⊎ Connection → W → Run (Option Connection × Option Error × W)
  unfolding connect connected
  after_new (inl e) w = ok (none, some e, w)
  after_new (inr c) w = connect c w >>= connected

  -- connectionManager's `createConnection`.
  unfoldable pub create_connection :
      ConnectionOptions → W → Run (Option Connection × Option Error × W)
  unfolding after_new
  create_connection o w = after_new (new_connection net (some o) w) w
