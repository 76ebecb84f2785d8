-- ===== src/Ts/ListKeys.antt =====
-- ts_commands.go: TsListKeys.
use riak_go_client.Prelude.{
  ℕ, Bool, true, false, not, ◌&&◌, Option, none, some, ◌⊎◌, inr, List, [], ◌∷◌, ◌++◌, if◌then◌else◌,
  Run, ok, panic, spins,
}
use riak_go_client.Errors.{
  Error, ◌>>◌, refuse, client_error, could_not_convert, requires_callback, listing_disabled,
  table_required,
}
use riak_go_client.Command.{CommandImpl, CommandApi, on_error, on_retry}
use riak_go_client.Command.Building.{
  new_impl, succeeded, milliseconds, is_none, Callback, call, answered,
}
use riak_go_client.Command.Codes.{rpb_code_ts_list_keys_req, rpb_code_ts_list_keys_resp}
use riak_go_client.Object.{Bytes, is_empty}
use riak_go_client.Rpb.{Message, ts_list_keys_req, ts_list_keys_resp}
use riak_go_client.Rpb.Fields.{get_bytes, get_bool}
use riak_go_client.Rpb.Ts.{TsRow, TsListKeysReq, new_ts_list_keys_req, new_ts_list_keys_resp}
use riak_go_client.Ts.Cells.{TsCell, convert_from_pb_ts_rows}

pub record TsListKeysResponse : Type 0 where
  pub keys : List (List TsCell)

pub record TsListKeysCommand : Type 0 where
  pub impl : CommandImpl
  pub timeout : ℕ
  pub allow_listing : Bool
  pub response : Option TsListKeysResponse
  pub protobuf : TsListKeysReq
  pub streaming : Bool
  pub callback : Option (Callback (List (List TsCell)))
  pub calls : List (List (List TsCell))
  pub done : Bool

pub record TsListKeysCommandBuilder : Type 0 where
  pub allow_listing : Bool
  pub timeout : ℕ
  pub protobuf : TsListKeysReq
  pub streaming : Bool
  pub callback : Option (Callback (List (List TsCell)))

abbrev pub new_ts_list_keys_command_builder : TsListKeysCommandBuilder
new_ts_list_keys_command_builder = record {
  allow_listing = false;
  timeout = 0;
  protobuf = new_ts_list_keys_req;
  streaming = false;
  callback = none;
}

unfoldable pub with_allow_listing : TsListKeysCommandBuilder → TsListKeysCommandBuilder
with_allow_listing builder = record builder { allow_listing = true }

unfoldable pub with_table : Bytes → TsListKeysCommandBuilder → TsListKeysCommandBuilder
with_table table builder = record builder {
  protobuf = record builder.protobuf { table = some table };
}

unfoldable with_streaming : Bool → TsListKeysCommandBuilder → TsListKeysCommandBuilder
with_streaming streaming builder = record builder { streaming = streaming }

unfoldable with_callback :
    Option (Callback (List (List TsCell))) → TsListKeysCommandBuilder → TsListKeysCommandBuilder
with_callback callback builder = record builder { callback = callback }

unfoldable with_timeout : ℕ → TsListKeysCommandBuilder → TsListKeysCommandBuilder
unfolding milliseconds
with_timeout timeout builder = record builder {
  timeout = timeout;
  protobuf = record builder.protobuf { timeout = some (milliseconds timeout) };
}

unfoldable pub build : TsListKeysCommandBuilder → Error ⊎ TsListKeysCommand
build builder = do
  refuse (is_empty (get_bytes builder.protobuf.table)) (client_error table_required)
  refuse (builder.streaming && is_none builder.callback)
      (client_error (requires_callback "ListKeysCommand"))
  refuse (not builder.allow_listing) (client_error listing_disabled)
  inr (record {
    impl = new_impl;
    timeout = builder.timeout;
    allow_listing = false;
    response = none;
    protobuf = builder.protobuf;
    streaming = builder.streaming;
    callback = builder.callback;
    calls = [];
    done = false;
  })

unfoldable pub construct_pb_request :
    TsListKeysCommand → Run (TsListKeysCommand × (Error ⊎ Option Message))
construct_pb_request cmd = ok (cmd, inr (some (ts_list_keys_req cmd.protobuf)))

abbrev pub response_of : TsListKeysCommand → List (List TsCell)
response_of cmd = elim cmd.response [ none ↦ [] | some r ↦ r.keys ]

-- The keys of one response go to the callback, or behind those of the responses before.
unfoldable pub collect :
    TsListKeysCommand → Run (List (List TsCell)) → Run (TsListKeysCommand × Option Error)
collect cmd (ok rows) =
    if cmd.streaming
    then answered (λ calls. record cmd { calls = calls })
        (λ calls. record cmd { calls = calls; response = none }) (call cmd.callback cmd.calls rows)
    else ok (record cmd { response = some (record { keys = response_of cmd ++ rows }) }, none)
collect cmd (panic p) = panic p
collect cmd spins = spins

-- Nothing is done with a response that has no keys.
unfoldable pub list_rows : TsListKeysCommand → List TsRow → Run (TsListKeysCommand × Option Error)
unfolding collect
list_rows cmd [] = ok (cmd, none)
list_rows cmd (r ∷ rs) = collect cmd (convert_from_pb_ts_rows (r ∷ rs) none)

unfoldable pub on_success :
    TsListKeysCommand → Option Message → Run (TsListKeysCommand × Option Error)
unfolding list_rows
on_success cmd none = ok (
  record cmd { impl = succeeded cmd.impl; done = true; response = some (record { keys = [] }) },
  none,
)
on_success cmd (some (ts_list_keys_resp m)) =
    list_rows
      (record cmd {
        impl = succeeded cmd.impl;
        done = get_bool m.done;
        response = some (record { keys = response_of cmd });
      })
      m.keys
on_success cmd (some other) = ok (
  record cmd { impl = succeeded cmd.impl; done = true },
  some (could_not_convert "TsListKeysCommand"),
)

abbrev pub get_request_code : TsListKeysCommand → ℕ
get_request_code cmd = rpb_code_ts_list_keys_req

abbrev pub get_response_code : TsListKeysCommand → ℕ
get_response_code cmd = rpb_code_ts_list_keys_resp

abbrev pub get_response_protobuf_message : TsListKeysCommand → Option Message
get_response_protobuf_message cmd = some (ts_list_keys_resp new_ts_list_keys_resp)

abbrev pub is_done : TsListKeysCommand → Bool
is_done cmd = cmd.done

abbrev pub api : CommandApi TsListKeysCommand Message
api = record {
  get_request_code = get_request_code;
  get_response_code = get_response_code;
  construct_pb_request = construct_pb_request;
  get_response_protobuf_message = get_response_protobuf_message;
  success = λ k. k.impl.success;
  error = λ k. k.impl.error;
  handle_error = λ k e. record k { impl = on_error k.impl e };
  handle_retry = λ k. record k { impl = on_retry k.impl };
  handle_success = on_success;
  allow_listing = λ k. some k.allow_listing;
  get_timeout = λ k. some k.timeout;
  is_done = λ k. some (is_done k);
  is_retryable = λ k. false;
  get_last_node = λ k. none;
  record_last_node = λ k node. k;
}
