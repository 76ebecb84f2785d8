-- ===== src/Ts/StoreRows.antt =====
-- ts_commands.go: TsStoreRows.
use riak_go_client.Prelude.{ℕ, Bool, true, false, Option, none, some, ◌⊎◌, inr, List, Run, ok}
use riak_go_client.Errors.{Error, ◌>>◌, refuse, client_error, table_required}
use riak_go_client.Command.{CommandImpl, CommandApi, on_error, on_retry}
use riak_go_client.Command.Building.{new_impl, succeeded}
use riak_go_client.Command.Codes.{rpb_code_ts_put_req, rpb_code_ts_put_resp}
use riak_go_client.Object.{Bytes, is_empty}
use riak_go_client.Rpb.{Message, ts_put_req}
use riak_go_client.Rpb.Fields.{get_bytes}
use riak_go_client.Rpb.Ts.{TsPutReq, new_ts_put_req}
use riak_go_client.Ts.Cells.{TsCell, convert_from_ts_rows}

pub record TsStoreRowsCommand : Type 0 where
  pub impl : CommandImpl
  pub last_node : Option ℕ
  pub response : Bool
  pub protobuf : TsPutReq

pub record TsStoreRowsCommandBuilder : Type 0 where
  pub protobuf : TsPutReq

abbrev pub new_ts_store_rows_command_builder : TsStoreRowsCommandBuilder
new_ts_store_rows_command_builder = record { protobuf = new_ts_put_req }

unfoldable with_table : Bytes → TsStoreRowsCommandBuilder → TsStoreRowsCommandBuilder
with_table table builder = record builder {
  protobuf = record builder.protobuf { table = some table };
}

unfoldable pub with_rows :
    List (List TsCell) → TsStoreRowsCommandBuilder → TsStoreRowsCommandBuilder
unfolding convert_from_ts_rows
with_rows rows builder = record builder {
  protobuf = record builder.protobuf { rows = convert_from_ts_rows rows };
}

unfoldable pub build : TsStoreRowsCommandBuilder → Error ⊎ TsStoreRowsCommand
build builder = do
  refuse (is_empty (get_bytes builder.protobuf.table)) (client_error table_required)
  inr (record { impl = new_impl; last_node = none; response = false; protobuf = builder.protobuf })

unfoldable pub construct_pb_request :
    TsStoreRowsCommand → Run (TsStoreRowsCommand × (Error ⊎ Option Message))
construct_pb_request cmd = ok (cmd, inr (some (ts_put_req cmd.protobuf)))

unfoldable pub on_success :
    TsStoreRowsCommand → Option Message → Run (TsStoreRowsCommand × Option Error)
on_success cmd msg = ok (record cmd { impl = succeeded cmd.impl; response = true }, none)

abbrev pub get_request_code : TsStoreRowsCommand → ℕ
get_request_code cmd = rpb_code_ts_put_req

abbrev pub get_response_code : TsStoreRowsCommand → ℕ
get_response_code cmd = rpb_code_ts_put_resp

abbrev pub get_response_protobuf_message : TsStoreRowsCommand → Option Message
get_response_protobuf_message cmd = none

abbrev pub api : CommandApi TsStoreRowsCommand Message
api = record {
  get_request_code = get_request_code;
  get_response_code = get_response_code;
  construct_pb_request = construct_pb_request;
  get_response_protobuf_message = get_response_protobuf_message;
  success = λ k. k.impl.success;
  error = λ k. k.impl.error;
  handle_error = λ k e. record k { impl = on_error k.impl e };
  handle_retry = λ k. record k { impl = on_retry k.impl };
  handle_success = on_success;
  allow_listing = λ k. none;
  get_timeout = λ k. none;
  is_done = λ k. none;
  is_retryable = λ k. true;
  get_last_node = λ k. k.last_node;
  record_last_node = λ k node. record k { last_node = some node };
}
