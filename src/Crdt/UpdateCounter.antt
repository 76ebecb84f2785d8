-- ===== src/Crdt/UpdateCounter.antt =====
-- crdt_commands.go: UpdateCounter. An int64 is the number of its bits.
use riak_go_client.Prelude.{
  ℕ, Bool, true, false, ◌&&◌, Option, none, some, ◌⊎◌, inr, [], ◌∷◌, if◌then◌else◌, Run, ok,
}
use riak_go_client.Errors.{Error, ◌>>=◌, could_not_convert}
use riak_go_client.Command.{CommandImpl, CommandApi, on_error, on_retry}
use riak_go_client.Command.Building.{new_impl, succeeded, milliseconds}
use riak_go_client.Command.Codes.{
  rpb_code_rpb_counter_update_req, rpb_code_rpb_counter_update_resp, rpb_code_dt_update_req,
  rpb_code_dt_update_resp,
}
use riak_go_client.Object.{Bytes, default_type, same}
use riak_go_client.Rpb.{
  Message, rpb_counter_update_req, rpb_counter_update_resp, dt_update_req, dt_update_resp,
}
use riak_go_client.Rpb.Fields.{get_bytes, get_number, validate}
use riak_go_client.Rpb.Query.{
  RpbCounterUpdateReq, rpb_counter_update_req_locatable, new_rpb_counter_update_resp,
}
use riak_go_client.Rpb.Dt.{
  new_dt_op, DtUpdateReq, new_dt_update_req, dt_update_req_locatable, new_dt_update_resp,
}

pub record UpdateCounterResponse : Type 0 where
  pub generated_key : Bytes
  pub counter_value : ℕ

pub record UpdateCounterCommand : Type 0 where
  pub impl : CommandImpl
  pub timeout : ℕ
  pub last_node : Option ℕ
  pub response : Option UpdateCounterResponse
  pub protobuf : Message
  pub is_legacy : Bool

pub record UpdateCounterCommandBuilder : Type 0 where
  pub bucket_type : Bytes
  pub bucket : Bytes
  pub key : Bytes
  pub increment : ℕ
  pub w : ℕ
  pub dw : ℕ
  pub pw : ℕ
  pub return_body : Bool
  pub timeout : ℕ

abbrev pub new_update_counter_command_builder : UpdateCounterCommandBuilder
new_update_counter_command_builder = record {
  bucket_type = [];
  bucket = [];
  key = [];
  increment = 0;
  w = 0;
  dw = 0;
  pw = 0;
  return_body = false;
  timeout = 0;
}

unfoldable pub with_bucket_type : Bytes → UpdateCounterCommandBuilder → UpdateCounterCommandBuilder
with_bucket_type bucket_type builder = record builder { bucket_type = bucket_type }

unfoldable pub with_bucket : Bytes → UpdateCounterCommandBuilder → UpdateCounterCommandBuilder
with_bucket bucket builder = record builder { bucket = bucket }

unfoldable pub with_key : Bytes → UpdateCounterCommandBuilder → UpdateCounterCommandBuilder
with_key key builder = record builder { key = key }

unfoldable pub with_increment : ℕ → UpdateCounterCommandBuilder → UpdateCounterCommandBuilder
with_increment increment builder = record builder { increment = increment }

unfoldable with_w : ℕ → UpdateCounterCommandBuilder → UpdateCounterCommandBuilder
with_w w builder = record builder { w = w }

unfoldable with_pw : ℕ → UpdateCounterCommandBuilder → UpdateCounterCommandBuilder
with_pw pw builder = record builder { pw = pw }

unfoldable with_dw : ℕ → UpdateCounterCommandBuilder → UpdateCounterCommandBuilder
with_dw dw builder = record builder { dw = dw }

unfoldable pub with_return_body : Bool → UpdateCounterCommandBuilder → UpdateCounterCommandBuilder
with_return_body return_body builder = record builder { return_body = return_body }

unfoldable with_timeout : ℕ → UpdateCounterCommandBuilder → UpdateCounterCommandBuilder
with_timeout timeout builder = record builder { timeout = timeout }

-- `if from != "" { field = []byte(from) }`, of a field that is nil.
abbrev given : Bytes → Option Bytes
given [] = none
given (b ∷ bs) = some (b ∷ bs)

unfoldable pub legacy_request : UpdateCounterCommandBuilder → RpbCounterUpdateReq
legacy_request builder = record {
  bucket = given builder.bucket;
  key = given builder.key;
  amount = some builder.increment;
  w = some builder.w;
  dw = some builder.dw;
  pw = some builder.pw;
  returnvalue = some builder.return_body;
}

unfoldable pub update_request : UpdateCounterCommandBuilder → DtUpdateReq
unfolding milliseconds
update_request builder = record new_dt_update_req {
  w = some builder.w;
  dw = some builder.dw;
  pw = some builder.pw;
  return_body = some builder.return_body;
  timeout = some (milliseconds builder.timeout);
  op =
      some (record new_dt_op { counter_op = some (record { increment = some builder.increment }) });
  type = given builder.bucket_type;
  bucket = given builder.bucket;
  key = given builder.key;
}

abbrev command_of : Message → ℕ → Bool → UpdateCounterCommand
command_of protobuf timeout is_legacy = record {
  impl = new_impl;
  timeout = timeout;
  last_node = none;
  response = none;
  protobuf = protobuf;
  is_legacy = is_legacy;
}

-- The request of the old counters goes to the type "default", where the value is to be returned.
abbrev pub is_legacy_request : UpdateCounterCommandBuilder → Bool
is_legacy_request builder = same builder.bucket_type default_type && builder.return_body

build_legacy : UpdateCounterCommandBuilder → Error ⊎ UpdateCounterCommand
unfolding validate legacy_request
build_legacy builder = do
  protobuf ← validate (legacy_request builder)
  inr (command_of (rpb_counter_update_req protobuf) 0 true)

build_update : UpdateCounterCommandBuilder → Error ⊎ UpdateCounterCommand
unfolding validate update_request
build_update builder = do
  protobuf ← validate (update_request builder)
  inr (command_of (dt_update_req protobuf) builder.timeout false)

unfoldable pub build : UpdateCounterCommandBuilder → Error ⊎ UpdateCounterCommand
unfolding build_legacy build_update
build builder = if is_legacy_request builder then build_legacy builder else build_update builder

unfoldable pub construct_pb_request :
    UpdateCounterCommand → Run (UpdateCounterCommand × (Error ⊎ Option Message))
construct_pb_request cmd = ok (cmd, inr (some cmd.protobuf))

-- The type of the message is to fit the request.
unfoldable pub counter_response : Bool → Message → Option UpdateCounterResponse
counter_response false (dt_update_resp m) =
    some (record { generated_key = get_bytes m.key; counter_value = get_number m.counter_value })
counter_response true (rpb_counter_update_resp m) =
    some (record { generated_key = []; counter_value = get_number m.value })
counter_response is_legacy other = none

abbrev answered_by :
    UpdateCounterCommand → Option UpdateCounterResponse → Run (UpdateCounterCommand × Option Error)
answered_by cmd none = ok (cmd, some (could_not_convert "UpdateCounterCommand"))
answered_by cmd (some r) = ok (record cmd { response = some r }, none)

unfoldable pub on_success :
    UpdateCounterCommand → Option Message → Run (UpdateCounterCommand × Option Error)
unfolding counter_response
on_success cmd none = ok (record cmd { impl = succeeded cmd.impl }, none)
on_success cmd (some msg) =
    answered_by (record cmd { impl = succeeded cmd.impl }) (counter_response cmd.is_legacy msg)

abbrev pub get_request_code : UpdateCounterCommand → ℕ
get_request_code cmd =
    if cmd.is_legacy then rpb_code_rpb_counter_update_req else rpb_code_dt_update_req

abbrev pub get_response_code : UpdateCounterCommand → ℕ
get_response_code cmd =
    if cmd.is_legacy then rpb_code_rpb_counter_update_resp else rpb_code_dt_update_resp

abbrev pub get_response_protobuf_message : UpdateCounterCommand → Option Message
get_response_protobuf_message cmd =
    if cmd.is_legacy
    then some (rpb_counter_update_resp new_rpb_counter_update_resp)
    else some (dt_update_resp new_dt_update_resp)

abbrev pub api : CommandApi UpdateCounterCommand Message
api = record {
  get_request_code = get_request_code;
  get_response_code = get_response_code;
  construct_pb_request = construct_pb_request;
  get_response_protobuf_message = get_response_protobuf_message;
  success = λ k. k.impl.success;
  error = λ k. k.impl.error;
  handle_error = λ k e. record k { impl = on_error k.impl e };
  handle_retry = λ k. record k { impl = on_retry k.impl };
  handle_success = on_success;
  allow_listing = λ k. none;
  get_timeout = λ k. some k.timeout;
  is_done = λ k. none;
  is_retryable = λ k. true;
  get_last_node = λ k. k.last_node;
  record_last_node = λ k node. record k { last_node = some node };
}
