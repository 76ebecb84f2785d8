-- ===== src/Search/StoreIndex.antt =====
-- yz_commands.go: StoreIndex. The Index of the builder's protobuf, a struct that is always there, is the
-- field `index`: `build` puts it in.
use riak_go_client.Prelude.{ℕ, Bool, true, false, Option, none, some, ◌⊎◌, inr, Run, ok}
use riak_go_client.Errors.{Error}
use riak_go_client.Command.{CommandImpl, CommandApi, on_error, on_retry}
use riak_go_client.Command.Building.{new_impl, succeeded, milliseconds}
use riak_go_client.Command.Codes.{rpb_code_rpb_put_resp, rpb_code_rpb_yokozuna_index_put_req}
use riak_go_client.Object.{Bytes}
use riak_go_client.Rpb.{Message, rpb_yokozuna_index_put_req}
use riak_go_client.Rpb.Search.{
  RpbYokozunaIndex, new_rpb_yokozuna_index, RpbYokozunaIndexPutReq, new_rpb_yokozuna_index_put_req,
}

pub record StoreIndexCommand : Type 0 where
  pub impl : CommandImpl
  pub timeout : ℕ
  pub last_node : Option ℕ
  pub response : Bool
  pub protobuf : RpbYokozunaIndexPutReq

pub record StoreIndexCommandBuilder : Type 0 where
  pub timeout : ℕ
  pub protobuf : RpbYokozunaIndexPutReq
  pub index : RpbYokozunaIndex

abbrev pub new_store_index_command_builder : StoreIndexCommandBuilder
new_store_index_command_builder = record {
  timeout = 0;
  protobuf = new_rpb_yokozuna_index_put_req;
  index = new_rpb_yokozuna_index;
}

unfoldable with_index_name : Bytes → StoreIndexCommandBuilder → StoreIndexCommandBuilder
with_index_name index_name builder = record builder {
  index = record builder.index { name = some index_name };
}

unfoldable with_schema_name : Bytes → StoreIndexCommandBuilder → StoreIndexCommandBuilder
with_schema_name schema_name builder = record builder {
  index = record builder.index { schema = some schema_name };
}

unfoldable with_n_val : ℕ → StoreIndexCommandBuilder → StoreIndexCommandBuilder
with_n_val nval builder = record builder { index = record builder.index { n_val = some nval } }

unfoldable with_timeout : ℕ → StoreIndexCommandBuilder → StoreIndexCommandBuilder
unfolding milliseconds
with_timeout timeout builder = record builder {
  timeout = timeout;
  protobuf = record builder.protobuf { timeout = some (milliseconds timeout) };
}

unfoldable pub build : StoreIndexCommandBuilder → Error ⊎ StoreIndexCommand
build builder = inr (record {
  impl = new_impl;
  timeout = builder.timeout;
  last_node = none;
  response = false;
  protobuf = record builder.protobuf { index = some builder.index };
})

unfoldable pub construct_pb_request :
    StoreIndexCommand → Run (StoreIndexCommand × (Error ⊎ Option Message))
construct_pb_request cmd = ok (cmd, inr (some (rpb_yokozuna_index_put_req cmd.protobuf)))

unfoldable pub on_success :
    StoreIndexCommand → Option Message → Run (StoreIndexCommand × Option Error)
on_success cmd msg = ok (record cmd { impl = succeeded cmd.impl; response = true }, none)

abbrev pub get_request_code : StoreIndexCommand → ℕ
get_request_code cmd = rpb_code_rpb_yokozuna_index_put_req

abbrev pub get_response_code : StoreIndexCommand → ℕ
get_response_code cmd = rpb_code_rpb_put_resp

abbrev pub get_response_protobuf_message : StoreIndexCommand → Option Message
get_response_protobuf_message cmd = none

abbrev pub api : CommandApi StoreIndexCommand Message
api = record {
  get_request_code = get_request_code;
  get_response_code = get_response_code;
  construct_pb_request = construct_pb_request;
  get_response_protobuf_message = get_response_protobuf_message;
  success = λ k. k.impl.success;
  error = λ k. k.impl.error;
  handle_error = λ k e. record k { impl = on_error k.impl e };
  handle_retry = λ k. record k { impl = on_retry k.impl };
  handle_success = on_success;
  allow_listing = λ k. none;
  get_timeout = λ k. some k.timeout;
  is_done = λ k. none;
  is_retryable = λ k. true;
  get_last_node = λ k. k.last_node;
  record_last_node = λ k node. record k { last_node = some node };
}
