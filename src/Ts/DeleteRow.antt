-- ===== src/Ts/DeleteRow.antt =====
-- ts_commands.go: TsDeleteRow.
use riak_go_client.Prelude.{
  ℕ, Bool, true, false, Option, none, some, ◌⊎◌, inr, List, [], ◌∷◌, Run, ok,
}
use riak_go_client.Errors.{Error, ◌>>◌, refuse, client_error, table_required, key_required}
use riak_go_client.Command.{CommandImpl, CommandApi, on_error, on_retry}
use riak_go_client.Command.Building.{new_impl, succeeded, milliseconds}
use riak_go_client.Command.Codes.{rpb_code_ts_del_req, rpb_code_ts_del_resp}
use riak_go_client.Object.{Bytes, is_empty}
use riak_go_client.Rpb.{Message, ts_del_req, ts_del_resp}
use riak_go_client.Rpb.Fields.{get_bytes}
use riak_go_client.Rpb.Ts.{RpbTsCell, TsDelReq, new_ts_del_req}
use riak_go_client.Ts.Cells.{TsCell, cells_of}

abbrev no_cells : List RpbTsCell → Bool
no_cells [] = true
no_cells (c ∷ cs) = false

pub record TsDeleteRowCommand : Type 0 where
  pub impl : CommandImpl
  pub timeout : ℕ
  pub last_node : Option ℕ
  pub response : Bool
  pub protobuf : TsDelReq

pub record TsDeleteRowCommandBuilder : Type 0 where
  pub timeout : ℕ
  pub protobuf : TsDelReq

abbrev pub new_ts_delete_row_command_builder : TsDeleteRowCommandBuilder
new_ts_delete_row_command_builder = record { timeout = 0; protobuf = new_ts_del_req }

unfoldable with_table : Bytes → TsDeleteRowCommandBuilder → TsDeleteRowCommandBuilder
with_table table builder = record builder {
  protobuf = record builder.protobuf { table = some table };
}

unfoldable with_key : List TsCell → TsDeleteRowCommandBuilder → TsDeleteRowCommandBuilder
with_key key builder = record builder { protobuf = record builder.protobuf { key = cells_of key } }

unfoldable with_timeout : ℕ → TsDeleteRowCommandBuilder → TsDeleteRowCommandBuilder
unfolding milliseconds
with_timeout timeout builder = record builder {
  timeout = timeout;
  protobuf = record builder.protobuf { timeout = some (milliseconds timeout) };
}

unfoldable pub build : TsDeleteRowCommandBuilder → Error ⊎ TsDeleteRowCommand
build builder = do
  refuse (is_empty (get_bytes builder.protobuf.table)) (client_error table_required)
  refuse (no_cells builder.protobuf.key) (client_error key_required)
  inr (record {
    impl = new_impl;
    timeout = builder.timeout;
    last_node = none;
    response = false;
    protobuf = builder.protobuf;
  })

unfoldable pub construct_pb_request :
    TsDeleteRowCommand → Run (TsDeleteRowCommand × (Error ⊎ Option Message))
construct_pb_request cmd = ok (cmd, inr (some (ts_del_req cmd.protobuf)))

unfoldable pub on_success :
    TsDeleteRowCommand → Option Message → Run (TsDeleteRowCommand × Option Error)
on_success cmd msg = ok (record cmd { impl = succeeded cmd.impl; response = true }, none)

abbrev pub get_request_code : TsDeleteRowCommand → ℕ
get_request_code cmd = rpb_code_ts_del_req

abbrev pub get_response_code : TsDeleteRowCommand → ℕ
get_response_code cmd = rpb_code_ts_del_resp

abbrev pub get_response_protobuf_message : TsDeleteRowCommand → Option Message
get_response_protobuf_message cmd = some ts_del_resp

abbrev pub api : CommandApi TsDeleteRowCommand Message
api = record {
  get_request_code = get_request_code;
  get_response_code = get_response_code;
  construct_pb_request = construct_pb_request;
  get_response_protobuf_message = get_response_protobuf_message;
  success = λ k. k.impl.success;
  error = λ k. k.impl.error;
  handle_error = λ k e. record k { impl = on_error k.impl e };
  handle_retry = λ k. record k { impl = on_retry k.impl };
  handle_success = on_success;
  allow_listing = λ k. none;
  get_timeout = λ k. some k.timeout;
  is_done = λ k. none;
  is_retryable = λ k. true;
  get_last_node = λ k. k.last_node;
  record_last_node = λ k node. record k { last_node = some node };
}
