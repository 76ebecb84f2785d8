-- ===== src/Search/DeleteIndex.antt =====
-- yz_commands.go: DeleteIndex.
use riak_go_client.Prelude.{ℕ, Bool, true, false, Option, none, some, ◌⊎◌, inr, Run, ok}
use riak_go_client.Errors.{Error}
use riak_go_client.Command.{CommandImpl, CommandApi, on_error, on_retry}
use riak_go_client.Command.Building.{new_impl, succeeded}
use riak_go_client.Command.Codes.{rpb_code_rpb_del_resp, rpb_code_rpb_yokozuna_index_delete_req}
use riak_go_client.Object.{Bytes}
use riak_go_client.Rpb.{Message, rpb_yokozuna_index_delete_req}
use riak_go_client.Rpb.Search.{RpbYokozunaIndexDeleteReq, new_rpb_yokozuna_index_delete_req}

pub record DeleteIndexCommand : Type 0 where
  pub impl : CommandImpl
  pub last_node : Option ℕ
  pub response : Bool
  pub protobuf : RpbYokozunaIndexDeleteReq

pub record DeleteIndexCommandBuilder : Type 0 where
  pub protobuf : RpbYokozunaIndexDeleteReq

abbrev pub new_delete_index_command_builder : DeleteIndexCommandBuilder
new_delete_index_command_builder = record { protobuf = new_rpb_yokozuna_index_delete_req }

unfoldable with_index_name : Bytes → DeleteIndexCommandBuilder → DeleteIndexCommandBuilder
with_index_name index_name builder = record builder {
  protobuf = record builder.protobuf { name = some index_name };
}

unfoldable pub build : DeleteIndexCommandBuilder → Error ⊎ DeleteIndexCommand
build builder =
    inr
      (record { impl = new_impl; last_node = none; response = false; protobuf = builder.protobuf })

unfoldable pub construct_pb_request :
    DeleteIndexCommand → Run (DeleteIndexCommand × (Error ⊎ Option Message))
construct_pb_request cmd = ok (cmd, inr (some (rpb_yokozuna_index_delete_req cmd.protobuf)))

unfoldable pub on_success :
    DeleteIndexCommand → Option Message → Run (DeleteIndexCommand × Option Error)
on_success cmd msg = ok (record cmd { impl = succeeded cmd.impl; response = true }, none)

abbrev pub get_request_code : DeleteIndexCommand → ℕ
get_request_code cmd = rpb_code_rpb_yokozuna_index_delete_req

abbrev pub get_response_code : DeleteIndexCommand → ℕ
get_response_code cmd = rpb_code_rpb_del_resp

abbrev pub get_response_protobuf_message : DeleteIndexCommand → Option Message
get_response_protobuf_message cmd = none

abbrev pub api : CommandApi DeleteIndexCommand Message
api = record {
  get_request_code = get_request_code;
  get_response_code = get_response_code;
  construct_pb_request = construct_pb_request;
  get_response_protobuf_message = get_response_protobuf_message;
  success = λ k. k.impl.success;
  error = λ k. k.impl.error;
  handle_error = λ k e. record k { impl = on_error k.impl e };
  handle_retry = λ k. record k { impl = on_retry k.impl };
  handle_success = on_success;
  allow_listing = λ k. none;
  get_timeout = λ k. none;
  is_done = λ k. none;
  is_retryable = λ k. true;
  get_last_node = λ k. k.last_node;
  record_last_node = λ k node. record k { last_node = some node };
}
