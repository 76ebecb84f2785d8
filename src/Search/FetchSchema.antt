-- ===== src/Search/FetchSchema.antt =====
-- yz_commands.go: FetchSchema.
use riak_go_client.Prelude.{ℕ, true, Option, none, some, ◌⊎◌, inr, Run, ok}
use riak_go_client.Errors.{Error, could_not_convert}
use riak_go_client.Command.{CommandImpl, CommandApi, on_error, on_retry}
use riak_go_client.Command.Building.{new_impl, succeeded}
use riak_go_client.Command.Codes.{
  rpb_code_rpb_yokozuna_schema_get_req, rpb_code_rpb_yokozuna_schema_get_resp,
}
use riak_go_client.Object.{Bytes}
use riak_go_client.Rpb.{Message, rpb_yokozuna_schema_get_req, rpb_yokozuna_schema_get_resp}
use riak_go_client.Rpb.Fields.{get_bytes}
use riak_go_client.Rpb.Search.{
  RpbYokozunaSchema, RpbYokozunaSchemaGetReq, new_rpb_yokozuna_schema_get_req,
  new_rpb_yokozuna_schema_get_resp,
}

pub record Schema : Type 0 where
  pub name : Bytes
  pub content : Bytes

pub record FetchSchemaCommand : Type 0 where
  pub impl : CommandImpl
  pub last_node : Option ℕ
  pub response : Option Schema
  pub protobuf : RpbYokozunaSchemaGetReq

pub record FetchSchemaCommandBuilder : Type 0 where
  pub protobuf : RpbYokozunaSchemaGetReq

abbrev pub new_fetch_schema_command_builder : FetchSchemaCommandBuilder
new_fetch_schema_command_builder = record { protobuf = new_rpb_yokozuna_schema_get_req }

unfoldable with_schema_name : Bytes → FetchSchemaCommandBuilder → FetchSchemaCommandBuilder
with_schema_name schema_name builder = record builder {
  protobuf = record builder.protobuf { name = some schema_name };
}

unfoldable pub build : FetchSchemaCommandBuilder → Error ⊎ FetchSchemaCommand
build builder =
    inr (record { impl = new_impl; last_node = none; response = none; protobuf = builder.protobuf })

unfoldable pub construct_pb_request :
    FetchSchemaCommand → Run (FetchSchemaCommand × (Error ⊎ Option Message))
construct_pb_request cmd = ok (cmd, inr (some (rpb_yokozuna_schema_get_req cmd.protobuf)))

-- A response without a schema leaves the one that there is.
abbrev pub schema_of : Option Schema → Option RpbYokozunaSchema → Option Schema
schema_of old none = old
schema_of old (some s) = some (record { name = get_bytes s.name; content = get_bytes s.content })

unfoldable pub on_success :
    FetchSchemaCommand → Option Message → Run (FetchSchemaCommand × Option Error)
on_success cmd none = ok (record cmd { impl = succeeded cmd.impl }, none)
on_success cmd (some (rpb_yokozuna_schema_get_resp m)) =
    ok (record cmd { impl = succeeded cmd.impl; response = schema_of cmd.response m.schema }, none)
on_success cmd (some other) =
    ok (record cmd { impl = succeeded cmd.impl }, some (could_not_convert "FetchSchemaCommand"))

abbrev pub get_request_code : FetchSchemaCommand → ℕ
get_request_code cmd = rpb_code_rpb_yokozuna_schema_get_req

abbrev pub get_response_code : FetchSchemaCommand → ℕ
get_response_code cmd = rpb_code_rpb_yokozuna_schema_get_resp

abbrev pub get_response_protobuf_message : FetchSchemaCommand → Option Message
get_response_protobuf_message cmd =
    some (rpb_yokozuna_schema_get_resp new_rpb_yokozuna_schema_get_resp)

abbrev pub api : CommandApi FetchSchemaCommand Message
api = record {
  get_request_code = get_request_code;
  get_response_code = get_response_code;
  construct_pb_request = construct_pb_request;
  get_response_protobuf_message = get_response_protobuf_message;
  success = λ k. k.impl.success;
  error = λ k. k.impl.error;
  handle_error = λ k e. record k { impl = on_error k.impl e };
  handle_retry = λ k. record k { impl = on_retry k.impl };
  handle_success = on_success;
  allow_listing = λ k. none;
  get_timeout = λ k. none;
  is_done = λ k. none;
  is_retryable = λ k. true;
  get_last_node = λ k. k.last_node;
  record_last_node = λ k node. record k { last_node = some node };
}
