-- ===== src/Crdt/FetchHll.antt =====
-- crdt_commands.go: FetchHll.
use riak_go_client.Prelude.{ℕ, Bool, true, false, Option, none, some, ◌⊎◌, inr, Run, ok}
use riak_go_client.Errors.{Error, ◌>>=◌, could_not_convert}
use riak_go_client.Command.{CommandImpl, CommandApi, on_error, on_retry}
use riak_go_client.Command.Building.{new_impl, succeeded, milliseconds}
use riak_go_client.Command.Codes.{rpb_code_dt_fetch_req, rpb_code_dt_fetch_resp}
use riak_go_client.Object.{Bytes}
use riak_go_client.Rpb.{Message, dt_fetch_req, dt_fetch_resp}
use riak_go_client.Rpb.Fields.{get_number, validate}
use riak_go_client.Rpb.Dt.{
  DtFetchReq, new_dt_fetch_req, dt_fetch_req_locatable, DtValue, new_dt_fetch_resp,
}

pub record FetchHllResponse : Type 0 where
  pub is_not_found : Bool
  pub cardinality : ℕ

pub record FetchHllCommand : Type 0 where
  pub impl : CommandImpl
  pub timeout : ℕ
  pub last_node : Option ℕ
  pub response : Option FetchHllResponse
  pub protobuf : DtFetchReq

pub record FetchHllCommandBuilder : Type 0 where
  pub timeout : ℕ
  pub protobuf : DtFetchReq

abbrev pub new_fetch_hll_command_builder : FetchHllCommandBuilder
new_fetch_hll_command_builder = record { timeout = 0; protobuf = new_dt_fetch_req }

unfoldable with_bucket_type : Bytes → FetchHllCommandBuilder → FetchHllCommandBuilder
with_bucket_type bucket_type builder = record builder {
  protobuf = record builder.protobuf { type = some bucket_type };
}

unfoldable pub with_bucket : Bytes → FetchHllCommandBuilder → FetchHllCommandBuilder
with_bucket bucket builder = record builder {
  protobuf = record builder.protobuf { bucket = some bucket };
}

unfoldable pub with_key : Bytes → FetchHllCommandBuilder → FetchHllCommandBuilder
with_key key builder = record builder { protobuf = record builder.protobuf { key = some key } }

unfoldable with_r : ℕ → FetchHllCommandBuilder → FetchHllCommandBuilder
with_r r builder = record builder { protobuf = record builder.protobuf { r = some r } }

unfoldable with_pr : ℕ → FetchHllCommandBuilder → FetchHllCommandBuilder
with_pr pr builder = record builder { protobuf = record builder.protobuf { pr = some pr } }

unfoldable with_not_found_ok : Bool → FetchHllCommandBuilder → FetchHllCommandBuilder
with_not_found_ok not_found_ok builder = record builder {
  protobuf = record builder.protobuf { notfound_ok = some not_found_ok };
}

unfoldable with_basic_quorum : Bool → FetchHllCommandBuilder → FetchHllCommandBuilder
with_basic_quorum basic_quorum builder = record builder {
  protobuf = record builder.protobuf { basic_quorum = some basic_quorum };
}

unfoldable with_timeout : ℕ → FetchHllCommandBuilder → FetchHllCommandBuilder
unfolding milliseconds
with_timeout timeout builder = record builder {
  timeout = timeout;
  protobuf = record builder.protobuf { timeout = some (milliseconds timeout) };
}

unfoldable pub build : FetchHllCommandBuilder → Error ⊎ FetchHllCommand
unfolding validate
build builder = do
  protobuf ← validate builder.protobuf
  inr (record {
    impl = new_impl;
    timeout = builder.timeout;
    last_node = none;
    response = none;
    protobuf = protobuf;
  })

unfoldable pub construct_pb_request :
    FetchHllCommand → Run (FetchHllCommand × (Error ⊎ Option Message))
construct_pb_request cmd = ok (cmd, inr (some (dt_fetch_req cmd.protobuf)))

abbrev cardinality_of : Option DtValue → FetchHllResponse
cardinality_of none = record { is_not_found = true; cardinality = 0 }
cardinality_of (some v) = record { is_not_found = false; cardinality = get_number v.hll_value }

unfoldable pub on_success : FetchHllCommand → Option Message → Run (FetchHllCommand × Option Error)
on_success cmd none = ok (record cmd { impl = succeeded cmd.impl }, none)
on_success cmd (some (dt_fetch_resp m)) =
    ok (record cmd { impl = succeeded cmd.impl; response = some (cardinality_of m.value) }, none)
on_success cmd (some other) =
    ok (record cmd { impl = succeeded cmd.impl }, some (could_not_convert "FetchHllCommand"))

abbrev pub get_request_code : FetchHllCommand → ℕ
get_request_code cmd = rpb_code_dt_fetch_req

abbrev pub get_response_code : FetchHllCommand → ℕ
get_response_code cmd = rpb_code_dt_fetch_resp

abbrev pub get_response_protobuf_message : FetchHllCommand → Option Message
get_response_protobuf_message cmd = some (dt_fetch_resp new_dt_fetch_resp)

abbrev pub api : CommandApi FetchHllCommand Message
api = record {
  get_request_code = get_request_code;
  get_response_code = get_response_code;
  construct_pb_request = construct_pb_request;
  get_response_protobuf_message = get_response_protobuf_message;
  success = λ k. k.impl.success;
  error = λ k. k.impl.error;
  handle_error = λ k e. record k { impl = on_error k.impl e };
  handle_retry = λ k. record k { impl = on_retry k.impl };
  handle_success = on_success;
  allow_listing = λ k. none;
  get_timeout = λ k. some k.timeout;
  is_done = λ k. none;
  is_retryable = λ k. true;
  get_last_node = λ k. k.last_node;
  record_last_node = λ k node. record k { last_node = some node };
}
