-- ===== src/Connection/Examples.antt =====
-- connection.go: a socket that is a list of bytes to come, tests and examples.
use riak_go_client.Prelude.{
  ℕ, ◌+◌, ◌≡◌, refl, true, false, Option, none, some, inr, List, [], ◌∷◌, arith, ltb, if◌then◌else◌,
  length, take, drop, ok,
}
use riak_go_client.Errors.{Error, net_error, riak_error, connection_in_use}
use riak_go_client.Command.{
  CommandApi, CommandImpl, ProtoApi, on_error, on_retry, build_riak_message, get_riak_message,
  uint32, maybe_riak_error, decode_riak_message, rpb_validate_resp,
}
use riak_go_client.Connection.{Connection, NetApi, read, write, conn_active, conn_state_desc}
use riak_go_client.Connection.Execute.{execute}
use riak_go_client.Connection.Connect.{new_command}
use riak_go_client.Connection.Reading.{Delivers, grown}
use riak_go_client.Connection.Settling.{Settles, read-Settles}
use riak_go_client.Connection.Exchange.{Sends, execute_round_trip, execute_error_resp}

abbrev some_bytes : ℕ → List ℕ → List ℕ × Option Error × List ℕ
some_bytes n w =
    if ltb (length w) n then (w, some (net_error false), []) else (take n w, none, drop n w)

abbrev pub net : NetApi (List ℕ)
net = record {
  dial = λ t a w. (inr a, w);
  close = λ s w. (none, []);
  set_read_deadline = λ s t w. w;
  set_write_deadline = λ s t w. w;
  read_full = λ s n w. some_bytes n w;
  write = λ s bytes w. (length bytes, none, w);
  tls_client = λ s c. none;
  handshake = λ s w. (none, w);
  backoff = λ min n. min + n;
  now = λ w. 77;
}

-- Messages are their bytes.
abbrev pub proto : ProtoApi (List ℕ)
proto = record {
  marshal = λ msg. inr msg;
  unmarshal = λ bytes msg. inr bytes;
  unmarshal_error = λ bytes. inr (5, bytes);
}

-- A command with the codes of RpbGetReq and RpbGetResp.
abbrev pub fetch : CommandApi CommandImpl (List ℕ)
fetch = record {
  get_request_code = λ k. 9;
  get_response_code = λ k. 10;
  construct_pb_request = λ k. ok (k, inr (some (1 ∷ 2 ∷ [])));
  get_response_protobuf_message = λ k. some [];
  success = λ k. k.success;
  error = λ k. k.error;
  handle_error = on_error;
  handle_retry = on_retry;
  handle_success = λ k msg. ok (record k { success = true }, none);
  allow_listing = λ k. none;
  get_timeout = λ k. none;
  is_done = λ k. none;
  is_retryable = λ k. false;
  get_last_node = λ k. none;
  record_last_node = λ k node. k;
}

abbrev pub conn : Connection
conn = record {
  addr = some 1;
  conn = some 1;
  connect_timeout = 3;
  request_timeout = 5;
  temp_net_error_retries = 0;
  auth_options = none;
  data_buf_cap = 4;
  active = false;
  in_flight = false;
  last_used = 0;
  state_data = record { state_val = conn_active; state_desc = conn_state_desc };
}

abbrev pub waiting : Connection
waiting = record conn { in_flight = true; last_used = 77 }

abbrev done : CommandImpl
done = record { error = none; success = true }

-- The response RpbGetResp with the body 7 8 9 10.
abbrev response : List ℕ
response = 0 ∷ 0 ∷ 0 ∷ 5 ∷ 10 ∷ 7 ∷ 8 ∷ 9 ∷ 10 ∷ []

execute_test :
    execute net proto fetch 1 conn new_command response
    ≡ ok (record conn { last_used = 77; data_buf_cap = 5 }, done, none, [])
unfolding execute read write get_riak_message build_riak_message uint32 maybe_riak_error
    decode_riak_message rpb_validate_resp
execute_test = refl

execute_in_flight_test :
    execute net proto fetch 1 waiting new_command response
    ≡ ok (waiting, new_command, some connection_in_use, response)
unfolding execute
execute_in_flight_test = refl

abbrev request : List ℕ
request = 0 ∷ 0 ∷ 0 ∷ 3 ∷ 9 ∷ 1 ∷ 2 ∷ []

builds_test : get_riak_message proto fetch new_command ≡ ok (new_command, inr request)
unfolding get_riak_message build_riak_message
builds_test = refl

pub writes_lem : (message w : List ℕ) → write net waiting message 5 w ≡ (waiting, none, w)
unfolding write
writes_lem message w = ground arith

abbrev sends : (w : List ℕ) → Sends net proto fetch conn new_command w
sends w = record {
  idle = refl;
  allowed = refl;
  built = new_command;
  message = request;
  builds = builds_test;
  waiting = waiting;
  sent = w;
  writes = writes_lem request w;
}

response-Delivers : Delivers net 1 5 10 (7 ∷ 8 ∷ 9 ∷ 10 ∷ []) response []
unfolding build_riak_message
response-Delivers = record {
  fits = omega arith;
  between = 10 ∷ 7 ∷ 8 ∷ 9 ∷ 10 ∷ [];
  header = refl;
  body = refl;
}

-- An RpbErrorResp.
abbrev failure : List ℕ
failure = 0 ∷ 0 ∷ 0 ∷ 3 ∷ 0 ∷ 1 ∷ 2 ∷ []

failure-Delivers : Delivers net 1 5 0 (1 ∷ 2 ∷ []) failure []
unfolding build_riak_message
failure-Delivers = record {
  fits = omega arith;
  between = 0 ∷ 1 ∷ 2 ∷ [];
  header = refl;
  body = refl;
}

execute_round_trip_example :
    execute net proto fetch 1 conn new_command response
    ≡ ok (record (grown net waiting 5) { in_flight = false }, done, none, [])
execute_round_trip_example =
    execute_round_trip net proto fetch 0 conn new_command done response [] (sends response) 1 10 7
      (8 ∷ 9 ∷ 10 ∷ []) [] (7 ∷ 8 ∷ 9 ∷ 10 ∷ []) refl refl refl (λ e. absurd (omega arith))
      (omega arith) response-Delivers refl refl refl refl

execute_error_resp_example :
    execute net proto fetch 1 conn new_command failure
    ≡ ok (
      record (grown net waiting 3) { in_flight = false },
      on_error new_command (riak_error 5 (1 ∷ 2 ∷ [])),
      some (riak_error 5 (1 ∷ 2 ∷ [])),
      [],
    )
execute_error_resp_example =
    execute_error_resp net proto fetch 0 conn new_command failure [] (sends failure) 1 5
      (1 ∷ 2 ∷ []) (1 ∷ 2 ∷ []) refl refl failure-Delivers refl

empty_test : read net waiting 5 (0 ∷ 0 ∷ 0 ∷ 0 ∷ []) ≡ (waiting, inr [], [])
unfolding read uint32
empty_test = refl

-- The body is cut off.
read-Settles_example : Settles net conn (read net conn 5 (0 ∷ 0 ∷ 0 ∷ 5 ∷ 10 ∷ []))
read-Settles_example = read-Settles net conn 5 (0 ∷ 0 ∷ 0 ∷ 5 ∷ 10 ∷ [])
