-- ===== src/Ts/Query.antt =====
-- ts_commands.go: TsQuery, which has no `isDone`.
use riak_go_client.Prelude.{
  ℕ, Bool, true, false, ◌&&◌, Option, none, some, ◌⊎◌, inr, List, [], ◌∷◌, ◌++◌, map, if◌then◌else◌,
  Run, ok, panic, spins,
}
use riak_go_client.Errors.{
  Error, ◌>>◌, refuse, client_error, could_not_convert, requires_callback, query_required,
}
use riak_go_client.Command.{CommandImpl, CommandApi, on_error, on_retry}
use riak_go_client.Command.Building.{new_impl, succeeded, is_none, Callback, call, answered}
use riak_go_client.Command.Codes.{rpb_code_ts_query_req, rpb_code_ts_query_resp}
use riak_go_client.Object.{Bytes, is_empty}
use riak_go_client.Rpb.{Message, ts_query_req, ts_query_resp}
use riak_go_client.Rpb.Fields.{get_bytes, get_bool}
use riak_go_client.Rpb.Ts.{
  TsRow, RpbTsColumnDescription, TsInterpolation, TsQueryReq, new_ts_query_req, new_ts_query_resp,
}
use riak_go_client.Ts.Cells.{TsCell, TsColumnDescription, convert_from_pb_ts_rows}

pub record TsQueryResponse : Type 0 where
  pub columns : List TsColumnDescription
  pub rows : List (List TsCell)

-- `GetQuery().GetBase()`.
abbrev pub query_base : Option TsInterpolation → Bytes
query_base none = []
query_base (some i) = get_bytes i.base

pub record TsQueryCommand : Type 0 where
  pub impl : CommandImpl
  pub response : Option TsQueryResponse
  pub protobuf : TsQueryReq
  pub callback : Option (Callback (List (List TsCell)))
  pub calls : List (List (List TsCell))
  pub done : Bool

pub record TsQueryCommandBuilder : Type 0 where
  pub protobuf : TsQueryReq
  pub callback : Option (Callback (List (List TsCell)))

abbrev pub new_ts_query_command_builder : TsQueryCommandBuilder
new_ts_query_command_builder = record { protobuf = new_ts_query_req; callback = none }

unfoldable pub with_query : Bytes → TsQueryCommandBuilder → TsQueryCommandBuilder
with_query query builder = record builder {
  protobuf = record builder.protobuf {
    query = some (record { base = some query; interpolations = [] });
  };
}

unfoldable pub with_streaming : Bool → TsQueryCommandBuilder → TsQueryCommandBuilder
with_streaming streaming builder = record builder {
  protobuf = record builder.protobuf { stream = some streaming };
}

unfoldable pub with_callback :
    Option (Callback (List (List TsCell))) → TsQueryCommandBuilder → TsQueryCommandBuilder
with_callback callback builder = record builder { callback = callback }

unfoldable pub build : TsQueryCommandBuilder → Error ⊎ TsQueryCommand
build builder = do
  refuse (is_empty (query_base builder.protobuf.query)) (client_error query_required)
  refuse (get_bool builder.protobuf.stream && is_none builder.callback)
      (client_error (requires_callback "TsQueryCommand"))
  inr (record {
    impl = new_impl;
    response = none;
    protobuf = builder.protobuf;
    callback = builder.callback;
    calls = [];
    done = false;
  })

unfoldable pub construct_pb_request :
    TsQueryCommand → Run (TsQueryCommand × (Error ⊎ Option Message))
construct_pb_request cmd = ok (cmd, inr (some (ts_query_req cmd.protobuf)))

abbrev pub wrap : RpbTsColumnDescription → TsColumnDescription
wrap c = record { column = c }

abbrev pub response_of : TsQueryCommand → TsQueryResponse
response_of cmd = elim cmd.response [ none ↦ record { columns = []; rows = [] } | some r ↦ r ]

-- The rows of one response go to the callback, or behind those of the responses before.
unfoldable pub collect : TsQueryCommand → List (List TsCell) → Run (TsQueryCommand × Option Error)
collect cmd rows =
    if get_bool cmd.protobuf.stream
    then answered (λ calls. record cmd { calls = calls })
        (λ calls. record cmd { calls = calls; response = none }) (call cmd.callback cmd.calls rows)
    else ok (
      record cmd {
        response = some (record (response_of cmd) { rows = (response_of cmd).rows ++ rows });
      },
      none,
    )

collected : TsQueryCommand → Run (List (List TsCell)) → Run (TsQueryCommand × Option Error)
unfolding collect
collected cmd (ok rows) = collect cmd rows
collected cmd (panic p) = panic p
collected cmd spins = spins

-- A response without columns or without rows adds nothing.
unfoldable pub query_rows :
    TsQueryCommand → List RpbTsColumnDescription → List TsRow → Run (TsQueryCommand × Option Error)
unfolding collected
query_rows cmd [] rows = ok (cmd, none)
query_rows cmd (c ∷ cs) [] = ok (cmd, none)
query_rows cmd (c ∷ cs) (r ∷ rs) =
    collected
      (record cmd {
        response =
            some (record (response_of cmd) {
              columns = (response_of cmd).columns ++ map wrap (c ∷ cs);
            });
      })
      (convert_from_pb_ts_rows (r ∷ rs) (some (c ∷ cs)))

unfoldable pub on_success : TsQueryCommand → Option Message → Run (TsQueryCommand × Option Error)
unfolding query_rows
on_success cmd none = ok (
  record cmd {
    impl = succeeded cmd.impl;
    done = true;
    response = some (record { columns = []; rows = [] });
  },
  none,
)
on_success cmd (some (ts_query_resp m)) =
    query_rows
      (record cmd {
        impl = succeeded cmd.impl;
        done = get_bool m.done;
        response = some (response_of cmd);
      })
      m.columns m.rows
on_success cmd (some other) = ok (
  record cmd { impl = succeeded cmd.impl; done = true },
  some (could_not_convert "TsQueryCommand"),
)

abbrev pub get_request_code : TsQueryCommand → ℕ
get_request_code cmd = rpb_code_ts_query_req

abbrev pub get_response_code : TsQueryCommand → ℕ
get_response_code cmd = rpb_code_ts_query_resp

abbrev pub get_response_protobuf_message : TsQueryCommand → Option Message
get_response_protobuf_message cmd = some (ts_query_resp new_ts_query_resp)

abbrev pub api : CommandApi TsQueryCommand Message
api = record {
  get_request_code = get_request_code;
  get_response_code = get_response_code;
  construct_pb_request = construct_pb_request;
  get_response_protobuf_message = get_response_protobuf_message;
  success = λ k. k.impl.success;
  error = λ k. k.impl.error;
  handle_error = λ k e. record k { impl = on_error k.impl e };
  handle_retry = λ k. record k { impl = on_retry k.impl };
  handle_success = on_success;
  allow_listing = λ k. none;
  get_timeout = λ k. none;
  is_done = λ k. none;
  is_retryable = λ k. false;
  get_last_node = λ k. none;
  record_last_node = λ k node. k;
}
