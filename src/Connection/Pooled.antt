-- ===== src/Connection/Pooled.antt =====
-- connection.go: connections are what the connection manager pools.
use Prim.Native.String.{String}
use riak_go_client.Prelude.{
  ℕ, ◌≡◌, refl, Bool, true, false, Option, none, some, ◌⊎◌, inl, inr, arith, ok, ◌>>=◌,
}
use riak_go_client.Errors.{Error}
use riak_go_client.Config.{AuthOptions, ConnectionOptions}
use riak_go_client.Command.{ProtoApi}
use riak_go_client.Connection.{
  Connection, NetApi, available, close, new_connection, fresh_connection, opened,
}
use riak_go_client.Connection.Connect.{
  create_connection, after_new, address_of, after_dial, after_tls, connected, connect, start_tls,
}
use riak_go_client.ConnectionManager.{ConnApi, Dials}

-- No TLS upgrade is asked for.
abbrev pub is_plain : Option AuthOptions → Bool
is_plain none = true
is_plain (some a) = false

module _ {W Msg : Type 0} (net : NetApi W) (proto : ProtoApi Msg)
    (auth_req : String → String → Msg) where
  start_tls_plain :
      (sock : ℕ) (c : Connection) (w : W)
      → is_plain c.auth_options ≡ true
      → start_tls net proto auth_req sock c w ≡ ok (c, none, w)
  unfolding start_tls
  start_tls_plain sock c w plain = ground arith

  dialled-Dials :
      (c : Connection) (d : (Error ⊎ ℕ) × W)
      → is_plain c.auth_options ≡ true
      → Dials available (after_dial net proto auth_req c d >>= connected net proto auth_req)
  unfolding after_dial connected
  dialled-Dials c (inl e, w) plain = tt
  dialled-Dials c (inr sock, w) plain =
      rw (start_tls_plain sock (record c { conn = some sock }) w plain, after_tls) refl

  connect-Dials :
      (c : Connection) (w : W)
      → is_plain c.auth_options ≡ true
      → Dials available (connect net proto auth_req c w >>= connected net proto auth_req)
  unfolding connect
  connect-Dials c w plain =
      dialled-Dials c (net.dial c.connect_timeout (address_of net proto auth_req c.addr) w) plain

  opened-Dials :
      (o : ConnectionOptions) (addr : Option ℕ) (w : W)
      → is_plain o.auth_options ≡ true
      → Dials available (after_new net proto auth_req (opened net o addr (net.now w)) w)
  unfolding after_new opened fresh_connection
  opened-Dials o none w plain = tt
  opened-Dials o (some a) w plain = connect-Dials (fresh_connection o a (net.now w)) w plain

  -- Dialing without TLS does not panic, and without an error it returns a connection that is
  -- available.
  pub create_connection-Dials :
      (o : ConnectionOptions) (w : W)
      → is_plain o.auth_options ≡ true
      → Dials available (create_connection net proto auth_req o w)
  unfolding create_connection new_connection
  create_connection-Dials o w plain = opened-Dials o o.remote_address w plain

  -- The pool's view of a connection. Dialing with TLS sends commands, and can panic on an empty
  -- response, so the law is for connections without.
  abbrev pub connection_api : ConnApi Connection W
  connection_api = record {
    available = available;
    last_used = λ c. c.last_used;
    close = close net;
    create_connection = create_connection net proto auth_req;
    dialable = λ o. is_plain o.auth_options;
    dials = create_connection-Dials;
  }
