-- ===== src/Crdt/UpdateMap.antt =====
-- crdt_commands.go: UpdateMap.
use riak_go_client.Prelude.{
  ℕ, Bool, true, ◌&&◌, Option, none, some, ◌⊎◌, inl, inr, Run, ok, panic, nil_dereference,
}
use riak_go_client.Errors.{
  Error, ◌>>=◌, ◌>>◌, refuse, client_error, could_not_convert, map_operation_required,
  context_required,
}
use riak_go_client.Command.{CommandImpl, CommandApi, on_error, on_retry}
use riak_go_client.Command.Building.{new_impl, succeeded, milliseconds, is_none}
use riak_go_client.Command.Codes.{rpb_code_dt_update_req, rpb_code_dt_update_resp}
use riak_go_client.Object.{Bytes}
use riak_go_client.Rpb.{Message, dt_update_req, dt_update_resp}
use riak_go_client.Rpb.Fields.{get_bytes, validate}
use riak_go_client.Rpb.Dt.{
  new_dt_op, DtUpdateReq, new_dt_update_req, dt_update_req_locatable, new_dt_update_resp,
}
use riak_go_client.Crdt.MapOperation.{MapOperation, has_removes}
use riak_go_client.Crdt.Populate.{populate}
use riak_go_client.Crdt.Map.{Map, parse_pb_response}

pub record UpdateMapResponse : Type 0 where
  pub generated_key : Bytes
  pub context : Option Bytes
  pub map : Map

pub record UpdateMapCommand : Type 0 where
  pub impl : CommandImpl
  pub timeout : ℕ
  pub last_node : Option ℕ
  pub response : Option UpdateMapResponse
  pub op : Option MapOperation
  pub protobuf : DtUpdateReq

pub record UpdateMapCommandBuilder : Type 0 where
  pub map_operation : Option MapOperation
  pub timeout : ℕ
  pub protobuf : DtUpdateReq

abbrev pub new_update_map_command_builder : UpdateMapCommandBuilder
new_update_map_command_builder = record {
  map_operation = none;
  timeout = 0;
  protobuf = new_dt_update_req;
}

unfoldable with_bucket_type : Bytes → UpdateMapCommandBuilder → UpdateMapCommandBuilder
with_bucket_type bucket_type builder = record builder {
  protobuf = record builder.protobuf { type = some bucket_type };
}

unfoldable pub with_bucket : Bytes → UpdateMapCommandBuilder → UpdateMapCommandBuilder
with_bucket bucket builder = record builder {
  protobuf = record builder.protobuf { bucket = some bucket };
}

unfoldable with_key : Bytes → UpdateMapCommandBuilder → UpdateMapCommandBuilder
with_key key builder = record builder { protobuf = record builder.protobuf { key = some key } }

unfoldable pub with_context : Option Bytes → UpdateMapCommandBuilder → UpdateMapCommandBuilder
with_context context builder = record builder {
  protobuf = record builder.protobuf { context = context };
}

unfoldable pub with_map_operation :
    Option MapOperation → UpdateMapCommandBuilder → UpdateMapCommandBuilder
with_map_operation map_operation builder = record builder { map_operation = map_operation }

unfoldable with_w : ℕ → UpdateMapCommandBuilder → UpdateMapCommandBuilder
with_w w builder = record builder { protobuf = record builder.protobuf { w = some w } }

unfoldable with_pw : ℕ → UpdateMapCommandBuilder → UpdateMapCommandBuilder
with_pw pw builder = record builder { protobuf = record builder.protobuf { pw = some pw } }

unfoldable with_dw : ℕ → UpdateMapCommandBuilder → UpdateMapCommandBuilder
with_dw dw builder = record builder { protobuf = record builder.protobuf { dw = some dw } }

unfoldable with_return_body : Bool → UpdateMapCommandBuilder → UpdateMapCommandBuilder
with_return_body return_body builder = record builder {
  protobuf = record builder.protobuf { return_body = some return_body };
}

unfoldable with_timeout : ℕ → UpdateMapCommandBuilder → UpdateMapCommandBuilder
unfolding milliseconds
with_timeout timeout builder = record builder {
  timeout = timeout;
  protobuf = record builder.protobuf { timeout = some (milliseconds timeout) };
}

abbrev pub command_of : UpdateMapCommandBuilder → DtUpdateReq → MapOperation → UpdateMapCommand
command_of builder protobuf op = record {
  impl = new_impl;
  timeout = builder.timeout;
  last_node = none;
  response = none;
  op = some op;
  protobuf = protobuf;
}

unfoldable pub with_operation :
    UpdateMapCommandBuilder → Option MapOperation → DtUpdateReq → Error ⊎ UpdateMapCommand
with_operation builder none protobuf = inl (client_error map_operation_required)
with_operation builder (some op) protobuf = do
  refuse (has_removes true op && is_none protobuf.context) (client_error context_required)
  inr (command_of builder protobuf op)

unfoldable pub build : UpdateMapCommandBuilder → Error ⊎ UpdateMapCommand
unfolding validate with_operation
build builder = validate builder.protobuf >>= with_operation builder builder.map_operation

-- A nil operation panics.
construct_from :
    UpdateMapCommand → Option MapOperation → Run (UpdateMapCommand × (Error ⊎ Option Message))
construct_from cmd none = panic nil_dereference
construct_from cmd (some op) =
    let protobuf = record cmd.protobuf {
      op = some (record new_dt_op { map_op = some (populate op) });
    } in
    ok (record cmd { protobuf = protobuf }, inr (some (dt_update_req protobuf)))

unfoldable pub construct_pb_request :
    UpdateMapCommand → Run (UpdateMapCommand × (Error ⊎ Option Message))
unfolding construct_from
construct_pb_request cmd = construct_from cmd cmd.op

unfoldable pub on_success :
    UpdateMapCommand → Option Message → Run (UpdateMapCommand × Option Error)
on_success cmd none = ok (record cmd { impl = succeeded cmd.impl }, none)
on_success cmd (some (dt_update_resp m)) = ok (
  record cmd {
    impl = succeeded cmd.impl;
    response = some (record {
      generated_key = get_bytes m.key;
      context = m.context;
      map = parse_pb_response m.map_value;
    });
  },
  none,
)
on_success cmd (some other) =
    ok (record cmd { impl = succeeded cmd.impl }, some (could_not_convert "UpdateMapCommand"))

abbrev pub get_request_code : UpdateMapCommand → ℕ
get_request_code cmd = rpb_code_dt_update_req

abbrev pub get_response_code : UpdateMapCommand → ℕ
get_response_code cmd = rpb_code_dt_update_resp

abbrev pub get_response_protobuf_message : UpdateMapCommand → Option Message
get_response_protobuf_message cmd = some (dt_update_resp new_dt_update_resp)

abbrev pub api : CommandApi UpdateMapCommand Message
api = record {
  get_request_code = get_request_code;
  get_response_code = get_response_code;
  construct_pb_request = construct_pb_request;
  get_response_protobuf_message = get_response_protobuf_message;
  success = λ k. k.impl.success;
  error = λ k. k.impl.error;
  handle_error = λ k e. record k { impl = on_error k.impl e };
  handle_retry = λ k. record k { impl = on_retry k.impl };
  handle_success = on_success;
  allow_listing = λ k. none;
  get_timeout = λ k. some k.timeout;
  is_done = λ k. none;
  is_retryable = λ k. true;
  get_last_node = λ k. k.last_node;
  record_last_node = λ k node. record k { last_node = some node };
}
