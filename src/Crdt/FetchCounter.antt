-- ===== src/Crdt/FetchCounter.antt =====
-- crdt_commands.go: FetchCounter.
use riak_go_client.Prelude.{ℕ, Bool, true, false, Option, none, some, ◌⊎◌, inr, Run, ok}
use riak_go_client.Errors.{Error, ◌>>=◌, could_not_convert}
use riak_go_client.Command.{CommandImpl, CommandApi, on_error, on_retry}
use riak_go_client.Command.Building.{new_impl, succeeded, milliseconds}
use riak_go_client.Command.Codes.{rpb_code_dt_fetch_req, rpb_code_dt_fetch_resp}
use riak_go_client.Object.{Bytes}
use riak_go_client.Rpb.{Message, dt_fetch_req, dt_fetch_resp}
use riak_go_client.Rpb.Fields.{get_number, validate}
use riak_go_client.Rpb.Dt.{
  DtFetchReq, new_dt_fetch_req, dt_fetch_req_locatable, DtValue, new_dt_fetch_resp,
}

pub record FetchCounterResponse : Type 0 where
  pub is_not_found : Bool
  pub counter_value : ℕ

pub record FetchCounterCommand : Type 0 where
  pub impl : CommandImpl
  pub timeout : ℕ
  pub last_node : Option ℕ
  pub response : Option FetchCounterResponse
  pub protobuf : DtFetchReq

pub record FetchCounterCommandBuilder : Type 0 where
  pub timeout : ℕ
  pub protobuf : DtFetchReq

abbrev pub new_fetch_counter_command_builder : FetchCounterCommandBuilder
new_fetch_counter_command_builder = record { timeout = 0; protobuf = new_dt_fetch_req }

unfoldable with_bucket_type : Bytes → FetchCounterCommandBuilder → FetchCounterCommandBuilder
with_bucket_type bucket_type builder = record builder {
  protobuf = record builder.protobuf { type = some bucket_type };
}

unfoldable pub with_bucket : Bytes → FetchCounterCommandBuilder → FetchCounterCommandBuilder
with_bucket bucket builder = record builder {
  protobuf = record builder.protobuf { bucket = some bucket };
}

unfoldable pub with_key : Bytes → FetchCounterCommandBuilder → FetchCounterCommandBuilder
with_key key builder = record builder { protobuf = record builder.protobuf { key = some key } }

unfoldable with_r : ℕ → FetchCounterCommandBuilder → FetchCounterCommandBuilder
with_r r builder = record builder { protobuf = record builder.protobuf { r = some r } }

unfoldable with_pr : ℕ → FetchCounterCommandBuilder → FetchCounterCommandBuilder
with_pr pr builder = record builder { protobuf = record builder.protobuf { pr = some pr } }

unfoldable with_not_found_ok : Bool → FetchCounterCommandBuilder → FetchCounterCommandBuilder
with_not_found_ok not_found_ok builder = record builder {
  protobuf = record builder.protobuf { notfound_ok = some not_found_ok };
}

unfoldable with_basic_quorum : Bool → FetchCounterCommandBuilder → FetchCounterCommandBuilder
with_basic_quorum basic_quorum builder = record builder {
  protobuf = record builder.protobuf { basic_quorum = some basic_quorum };
}

unfoldable with_timeout : ℕ → FetchCounterCommandBuilder → FetchCounterCommandBuilder
unfolding milliseconds
with_timeout timeout builder = record builder {
  timeout = timeout;
  protobuf = record builder.protobuf { timeout = some (milliseconds timeout) };
}

unfoldable pub build : FetchCounterCommandBuilder → Error ⊎ FetchCounterCommand
unfolding validate
build builder = do
  protobuf ← validate builder.protobuf
  inr (record {
    impl = new_impl;
    timeout = builder.timeout;
    last_node = none;
    response = none;
    protobuf = protobuf;
  })

unfoldable pub construct_pb_request :
    FetchCounterCommand → Run (FetchCounterCommand × (Error ⊎ Option Message))
construct_pb_request cmd = ok (cmd, inr (some (dt_fetch_req cmd.protobuf)))

abbrev counter_of : Option DtValue → FetchCounterResponse
counter_of none = record { is_not_found = true; counter_value = 0 }
counter_of (some v) = record { is_not_found = false; counter_value = get_number v.counter_value }

unfoldable pub on_success :
    FetchCounterCommand → Option Message → Run (FetchCounterCommand × Option Error)
on_success cmd none = ok (record cmd { impl = succeeded cmd.impl }, none)
on_success cmd (some (dt_fetch_resp m)) =
    ok (record cmd { impl = succeeded cmd.impl; response = some (counter_of m.value) }, none)
on_success cmd (some other) =
    ok (record cmd { impl = succeeded cmd.impl }, some (could_not_convert "FetchCounterCommand"))

abbrev pub get_request_code : FetchCounterCommand → ℕ
get_request_code cmd = rpb_code_dt_fetch_req

abbrev pub get_response_code : FetchCounterCommand → ℕ
get_response_code cmd = rpb_code_dt_fetch_resp

abbrev pub get_response_protobuf_message : FetchCounterCommand → Option Message
get_response_protobuf_message cmd = some (dt_fetch_resp new_dt_fetch_resp)

abbrev pub api : CommandApi FetchCounterCommand Message
api = record {
  get_request_code = get_request_code;
  get_response_code = get_response_code;
  construct_pb_request = construct_pb_request;
  get_response_protobuf_message = get_response_protobuf_message;
  success = λ k. k.impl.success;
  error = λ k. k.impl.error;
  handle_error = λ k e. record k { impl = on_error k.impl e };
  handle_retry = λ k. record k { impl = on_retry k.impl };
  handle_success = on_success;
  allow_listing = λ k. none;
  get_timeout = λ k. some k.timeout;
  is_done = λ k. none;
  is_retryable = λ k. true;
  get_last_node = λ k. k.last_node;
  record_last_node = λ k node. record k { last_node = some node };
}
