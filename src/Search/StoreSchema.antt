-- ===== src/Search/StoreSchema.antt =====
-- yz_commands.go: StoreSchema. The Schema of the builder's protobuf, a struct that is always there, is the
-- field `schema`: `build` puts it in.
use riak_go_client.Prelude.{ℕ, Bool, true, false, Option, none, some, ◌⊎◌, inr, Run, ok}
use riak_go_client.Errors.{Error}
use riak_go_client.Command.{CommandImpl, CommandApi, on_error, on_retry}
use riak_go_client.Command.Building.{new_impl, succeeded}
use riak_go_client.Command.Codes.{rpb_code_rpb_put_resp, rpb_code_rpb_yokozuna_schema_put_req}
use riak_go_client.Object.{Bytes}
use riak_go_client.Rpb.{Message, rpb_yokozuna_schema_put_req}
use riak_go_client.Rpb.Search.{
  RpbYokozunaSchema, new_rpb_yokozuna_schema, RpbYokozunaSchemaPutReq,
  new_rpb_yokozuna_schema_put_req,
}

pub record StoreSchemaCommand : Type 0 where
  pub impl : CommandImpl
  pub last_node : Option ℕ
  pub response : Bool
  pub protobuf : RpbYokozunaSchemaPutReq

pub record StoreSchemaCommandBuilder : Type 0 where
  pub protobuf : RpbYokozunaSchemaPutReq
  pub schema : RpbYokozunaSchema

abbrev pub new_store_schema_command_builder : StoreSchemaCommandBuilder
new_store_schema_command_builder = record {
  protobuf = new_rpb_yokozuna_schema_put_req;
  schema = new_rpb_yokozuna_schema;
}

unfoldable pub with_schema_name : Bytes → StoreSchemaCommandBuilder → StoreSchemaCommandBuilder
with_schema_name schema_name builder = record builder {
  schema = record builder.schema { name = some schema_name };
}

unfoldable pub with_schema : Bytes → StoreSchemaCommandBuilder → StoreSchemaCommandBuilder
with_schema schema builder = record builder {
  schema = record builder.schema { content = some schema };
}

unfoldable pub build : StoreSchemaCommandBuilder → Error ⊎ StoreSchemaCommand
build builder = inr (record {
  impl = new_impl;
  last_node = none;
  response = false;
  protobuf = record builder.protobuf { schema = some builder.schema };
})

unfoldable pub construct_pb_request :
    StoreSchemaCommand → Run (StoreSchemaCommand × (Error ⊎ Option Message))
construct_pb_request cmd = ok (cmd, inr (some (rpb_yokozuna_schema_put_req cmd.protobuf)))

unfoldable pub on_success :
    StoreSchemaCommand → Option Message → Run (StoreSchemaCommand × Option Error)
on_success cmd msg = ok (record cmd { impl = succeeded cmd.impl; response = true }, none)

abbrev pub get_request_code : StoreSchemaCommand → ℕ
get_request_code cmd = rpb_code_rpb_yokozuna_schema_put_req

abbrev pub get_response_code : StoreSchemaCommand → ℕ
get_response_code cmd = rpb_code_rpb_put_resp

abbrev pub get_response_protobuf_message : StoreSchemaCommand → Option Message
get_response_protobuf_message cmd = none

abbrev pub api : CommandApi StoreSchemaCommand Message
api = record {
  get_request_code = get_request_code;
  get_response_code = get_response_code;
  construct_pb_request = construct_pb_request;
  get_response_protobuf_message = get_response_protobuf_message;
  success = λ k. k.impl.success;
  error = λ k. k.impl.error;
  handle_error = λ k e. record k { impl = on_error k.impl e };
  handle_retry = λ k. record k { impl = on_retry k.impl };
  handle_success = on_success;
  allow_listing = λ k. none;
  get_timeout = λ k. none;
  is_done = λ k. none;
  is_retryable = λ k. true;
  get_last_node = λ k. k.last_node;
  record_last_node = λ k node. record k { last_node = some node };
}
