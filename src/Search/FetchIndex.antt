-- ===== src/Search/FetchIndex.antt =====
-- yz_commands.go: FetchIndex.
use riak_go_client.Prelude.{ℕ, true, Option, none, some, ◌⊎◌, inr, List, [], ◌∷◌, map, Run, ok}
use riak_go_client.Errors.{Error, could_not_convert}
use riak_go_client.Command.{CommandImpl, CommandApi, on_error, on_retry}
use riak_go_client.Command.Building.{new_impl, succeeded}
use riak_go_client.Command.Codes.{
  rpb_code_rpb_yokozuna_index_get_req, rpb_code_rpb_yokozuna_index_get_resp,
}
use riak_go_client.Object.{Bytes}
use riak_go_client.Rpb.{Message, rpb_yokozuna_index_get_req, rpb_yokozuna_index_get_resp}
use riak_go_client.Rpb.Fields.{get_bytes, get_number}
use riak_go_client.Rpb.Search.{
  RpbYokozunaIndex, RpbYokozunaIndexGetReq, new_rpb_yokozuna_index_get_req,
  new_rpb_yokozuna_index_get_resp,
}

pub record SearchIndex : Type 0 where
  pub name : Bytes
  pub schema : Bytes
  pub n_val : ℕ

pub record FetchIndexCommand : Type 0 where
  pub impl : CommandImpl
  pub last_node : Option ℕ
  pub response : List SearchIndex
  pub protobuf : RpbYokozunaIndexGetReq

pub record FetchIndexCommandBuilder : Type 0 where
  pub protobuf : RpbYokozunaIndexGetReq

abbrev pub new_fetch_index_command_builder : FetchIndexCommandBuilder
new_fetch_index_command_builder = record { protobuf = new_rpb_yokozuna_index_get_req }

unfoldable with_index_name : Bytes → FetchIndexCommandBuilder → FetchIndexCommandBuilder
with_index_name index_name builder = record builder {
  protobuf = record builder.protobuf { name = some index_name };
}

unfoldable pub build : FetchIndexCommandBuilder → Error ⊎ FetchIndexCommand
build builder =
    inr (record { impl = new_impl; last_node = none; response = []; protobuf = builder.protobuf })

unfoldable pub construct_pb_request :
    FetchIndexCommand → Run (FetchIndexCommand × (Error ⊎ Option Message))
construct_pb_request cmd = ok (cmd, inr (some (rpb_yokozuna_index_get_req cmd.protobuf)))

abbrev to_index : RpbYokozunaIndex → SearchIndex
to_index i = record {
  name = get_bytes i.name;
  schema = get_bytes i.schema;
  n_val = get_number i.n_val;
}

-- A response without indexes leaves those that there are.
abbrev pub indexes_of : List SearchIndex → List RpbYokozunaIndex → List SearchIndex
indexes_of old [] = old
indexes_of old (i ∷ is) = map to_index (i ∷ is)

unfoldable pub on_success :
    FetchIndexCommand → Option Message → Run (FetchIndexCommand × Option Error)
on_success cmd none = ok (record cmd { impl = succeeded cmd.impl }, none)
on_success cmd (some (rpb_yokozuna_index_get_resp m)) =
    ok (record cmd { impl = succeeded cmd.impl; response = indexes_of cmd.response m.index }, none)
on_success cmd (some other) =
    ok (record cmd { impl = succeeded cmd.impl }, some (could_not_convert "FetchIndexCommand"))

abbrev pub get_request_code : FetchIndexCommand → ℕ
get_request_code cmd = rpb_code_rpb_yokozuna_index_get_req

abbrev pub get_response_code : FetchIndexCommand → ℕ
get_response_code cmd = rpb_code_rpb_yokozuna_index_get_resp

abbrev pub get_response_protobuf_message : FetchIndexCommand → Option Message
get_response_protobuf_message cmd =
    some (rpb_yokozuna_index_get_resp new_rpb_yokozuna_index_get_resp)

abbrev pub api : CommandApi FetchIndexCommand Message
api = record {
  get_request_code = get_request_code;
  get_response_code = get_response_code;
  construct_pb_request = construct_pb_request;
  get_response_protobuf_message = get_response_protobuf_message;
  success = λ k. k.impl.success;
  error = λ k. k.impl.error;
  handle_error = λ k e. record k { impl = on_error k.impl e };
  handle_retry = λ k. record k { impl = on_retry k.impl };
  handle_success = on_success;
  allow_listing = λ k. none;
  get_timeout = λ k. none;
  is_done = λ k. none;
  is_retryable = λ k. true;
  get_last_node = λ k. k.last_node;
  record_last_node = λ k node. record k { last_node = some node };
}
