-- ===== src/Ts/FetchRow.antt =====
-- ts_commands.go: TsFetchRow.
use riak_go_client.Prelude.{
  ℕ, Bool, true, false, Option, none, some, ◌⊎◌, inr, List, [], ◌∷◌, map, Run, ok, panic, spins,
}
use riak_go_client.Errors.{
  Error, ◌>>◌, refuse, client_error, could_not_convert, could_not_retrieve_row, table_required,
  key_required,
}
use riak_go_client.Command.{CommandImpl, CommandApi, on_error, on_retry}
use riak_go_client.Command.Building.{new_impl, succeeded, milliseconds}
use riak_go_client.Command.Codes.{rpb_code_ts_get_req, rpb_code_ts_get_resp}
use riak_go_client.Object.{Bytes, is_empty}
use riak_go_client.Rpb.{Message, ts_get_req, ts_get_resp}
use riak_go_client.Rpb.Fields.{get_bytes}
use riak_go_client.Rpb.Ts.{
  RpbTsCell, TsRow, RpbTsColumnDescription, TsGetReq, new_ts_get_req, new_ts_get_resp,
}
use riak_go_client.Ts.Cells.{TsCell, TsColumnDescription, convert_from_pb_ts_rows, cells_of}

pub record TsFetchRowResponse : Type 0 where
  pub is_not_found : Bool
  pub columns : List TsColumnDescription
  pub row : List TsCell

abbrev no_cells : List RpbTsCell → Bool
no_cells [] = true
no_cells (c ∷ cs) = false

pub record TsFetchRowCommand : Type 0 where
  pub impl : CommandImpl
  pub timeout : ℕ
  pub last_node : Option ℕ
  pub response : Option TsFetchRowResponse
  pub protobuf : TsGetReq

pub record TsFetchRowCommandBuilder : Type 0 where
  pub timeout : ℕ
  pub protobuf : TsGetReq

abbrev pub new_ts_fetch_row_command_builder : TsFetchRowCommandBuilder
new_ts_fetch_row_command_builder = record { timeout = 0; protobuf = new_ts_get_req }

unfoldable with_table : Bytes → TsFetchRowCommandBuilder → TsFetchRowCommandBuilder
with_table table builder = record builder {
  protobuf = record builder.protobuf { table = some table };
}

unfoldable with_key : List TsCell → TsFetchRowCommandBuilder → TsFetchRowCommandBuilder
with_key key builder = record builder { protobuf = record builder.protobuf { key = cells_of key } }

unfoldable with_timeout : ℕ → TsFetchRowCommandBuilder → TsFetchRowCommandBuilder
unfolding milliseconds
with_timeout timeout builder = record builder {
  timeout = timeout;
  protobuf = record builder.protobuf { timeout = some (milliseconds timeout) };
}

unfoldable pub build : TsFetchRowCommandBuilder → Error ⊎ TsFetchRowCommand
build builder = do
  refuse (is_empty (get_bytes builder.protobuf.table)) (client_error table_required)
  refuse (no_cells builder.protobuf.key) (client_error key_required)
  inr (record {
    impl = new_impl;
    timeout = builder.timeout;
    last_node = none;
    response = none;
    protobuf = builder.protobuf;
  })

unfoldable pub construct_pb_request :
    TsFetchRowCommand → Run (TsFetchRowCommand × (Error ⊎ Option Message))
construct_pb_request cmd = ok (cmd, inr (some (ts_get_req cmd.protobuf)))

abbrev wrap : RpbTsColumnDescription → TsColumnDescription
wrap c = record { column = c }

abbrev fetched : List TsColumnDescription → List TsCell → TsFetchRowResponse
fetched columns row = record { is_not_found = false; columns = columns; row = row }

-- The first of the rows is the response's.
unfoldable pub first_row :
    TsFetchRowCommand
    → List TsColumnDescription
    → Run (List (List TsCell))
    → Run (TsFetchRowCommand × Option Error)
first_row cmd columns (ok []) = ok (
  record cmd { response = some (fetched columns []) },
  some (could_not_retrieve_row "TsFetchRowCommand"),
)
first_row cmd columns (ok (row ∷ rows)) =
    ok (record cmd { response = some (fetched columns row) }, none)
first_row cmd columns (panic p) = panic p
first_row cmd columns spins = spins

-- A response without columns or without rows leaves the command's response as it is.
unfoldable pub fetch_rows :
    TsFetchRowCommand
    → List RpbTsColumnDescription
    → List TsRow
    → Run (TsFetchRowCommand × Option Error)
unfolding first_row
fetch_rows cmd [] rows = ok (cmd, none)
fetch_rows cmd (c ∷ cs) [] = ok (cmd, none)
fetch_rows cmd (c ∷ cs) (r ∷ rs) =
    first_row cmd (map wrap (c ∷ cs)) (convert_from_pb_ts_rows (r ∷ rs) (some (c ∷ cs)))

unfoldable pub on_success :
    TsFetchRowCommand → Option Message → Run (TsFetchRowCommand × Option Error)
unfolding fetch_rows
on_success cmd none = ok (
  record cmd {
    impl = succeeded cmd.impl;
    response = some (record { is_not_found = true; columns = []; row = [] });
  },
  none,
)
on_success cmd (some (ts_get_resp m)) =
    fetch_rows (record cmd { impl = succeeded cmd.impl }) m.columns m.rows
on_success cmd (some other) =
    ok (record cmd { impl = succeeded cmd.impl }, some (could_not_convert "TsFetchRowCommand"))

abbrev pub get_request_code : TsFetchRowCommand → ℕ
get_request_code cmd = rpb_code_ts_get_req

abbrev pub get_response_code : TsFetchRowCommand → ℕ
get_response_code cmd = rpb_code_ts_get_resp

abbrev pub get_response_protobuf_message : TsFetchRowCommand → Option Message
get_response_protobuf_message cmd = some (ts_get_resp new_ts_get_resp)

abbrev pub api : CommandApi TsFetchRowCommand Message
api = record {
  get_request_code = get_request_code;
  get_response_code = get_response_code;
  construct_pb_request = construct_pb_request;
  get_response_protobuf_message = get_response_protobuf_message;
  success = λ k. k.impl.success;
  error = λ k. k.impl.error;
  handle_error = λ k e. record k { impl = on_error k.impl e };
  handle_retry = λ k. record k { impl = on_retry k.impl };
  handle_success = on_success;
  allow_listing = λ k. none;
  get_timeout = λ k. some k.timeout;
  is_done = λ k. none;
  is_retryable = λ k. true;
  get_last_node = λ k. k.last_node;
  record_last_node = λ k node. record k { last_node = some node };
}
