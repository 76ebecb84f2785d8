-- ===== src/Kv/DeleteValue.antt =====
-- kv_commands.go: DeleteValue.
use riak_go_client.Prelude.{ℕ, Bool, true, false, Option, none, some, ◌⊎◌, inr, Run, ok}
use riak_go_client.Errors.{Error, ◌>>=◌}
use riak_go_client.Command.{CommandImpl, CommandApi, on_error, on_retry}
use riak_go_client.Command.Building.{new_impl, succeeded, milliseconds}
use riak_go_client.Command.Codes.{rpb_code_rpb_del_req, rpb_code_rpb_del_resp}
use riak_go_client.Object.{Bytes}
use riak_go_client.Rpb.{Message, rpb_del_req}
use riak_go_client.Rpb.Fields.{validate}
use riak_go_client.Rpb.Kv.{RpbDelReq, new_rpb_del_req, rpb_del_req_locatable}

pub record DeleteValueCommand : Type 0 where
  pub impl : CommandImpl
  pub timeout : ℕ
  pub last_node : Option ℕ
  pub response : Bool
  pub protobuf : RpbDelReq

pub record DeleteValueCommandBuilder : Type 0 where
  pub timeout : ℕ
  pub protobuf : RpbDelReq

abbrev pub new_delete_value_command_builder : DeleteValueCommandBuilder
new_delete_value_command_builder = record { timeout = 0; protobuf = new_rpb_del_req }

unfoldable with_bucket_type : Bytes → DeleteValueCommandBuilder → DeleteValueCommandBuilder
with_bucket_type bucket_type builder = record builder {
  protobuf = record builder.protobuf { type = some bucket_type };
}

unfoldable with_bucket : Bytes → DeleteValueCommandBuilder → DeleteValueCommandBuilder
with_bucket bucket builder = record builder {
  protobuf = record builder.protobuf { bucket = some bucket };
}

unfoldable with_key : Bytes → DeleteValueCommandBuilder → DeleteValueCommandBuilder
with_key key builder = record builder { protobuf = record builder.protobuf { key = some key } }

unfoldable with_v_clock : Option Bytes → DeleteValueCommandBuilder → DeleteValueCommandBuilder
with_v_clock vclock builder = record builder {
  protobuf = record builder.protobuf { vclock = vclock };
}

unfoldable with_r : ℕ → DeleteValueCommandBuilder → DeleteValueCommandBuilder
with_r r builder = record builder { protobuf = record builder.protobuf { r = some r } }

unfoldable with_w : ℕ → DeleteValueCommandBuilder → DeleteValueCommandBuilder
with_w w builder = record builder { protobuf = record builder.protobuf { w = some w } }

unfoldable with_pr : ℕ → DeleteValueCommandBuilder → DeleteValueCommandBuilder
with_pr pr builder = record builder { protobuf = record builder.protobuf { pr = some pr } }

unfoldable with_pw : ℕ → DeleteValueCommandBuilder → DeleteValueCommandBuilder
with_pw pw builder = record builder { protobuf = record builder.protobuf { pw = some pw } }

unfoldable with_dw : ℕ → DeleteValueCommandBuilder → DeleteValueCommandBuilder
with_dw dw builder = record builder { protobuf = record builder.protobuf { dw = some dw } }

unfoldable with_rw : ℕ → DeleteValueCommandBuilder → DeleteValueCommandBuilder
with_rw rw builder = record builder { protobuf = record builder.protobuf { rw = some rw } }

unfoldable pub with_timeout : ℕ → DeleteValueCommandBuilder → DeleteValueCommandBuilder
unfolding milliseconds
with_timeout timeout builder = record builder {
  timeout = timeout;
  protobuf = record builder.protobuf { timeout = some (milliseconds timeout) };
}

unfoldable pub build : DeleteValueCommandBuilder → Error ⊎ DeleteValueCommand
unfolding validate
build builder = do
  protobuf ← validate builder.protobuf
  inr (record {
    impl = new_impl;
    timeout = builder.timeout;
    last_node = none;
    response = false;
    protobuf = protobuf;
  })

unfoldable pub construct_pb_request :
    DeleteValueCommand → Run (DeleteValueCommand × (Error ⊎ Option Message))
construct_pb_request cmd = ok (cmd, inr (some (rpb_del_req cmd.protobuf)))

unfoldable pub on_success :
    DeleteValueCommand → Option Message → Run (DeleteValueCommand × Option Error)
on_success cmd msg = ok (record cmd { impl = succeeded cmd.impl; response = true }, none)

abbrev pub get_request_code : DeleteValueCommand → ℕ
get_request_code cmd = rpb_code_rpb_del_req

abbrev pub get_response_code : DeleteValueCommand → ℕ
get_response_code cmd = rpb_code_rpb_del_resp

abbrev pub get_response_protobuf_message : DeleteValueCommand → Option Message
get_response_protobuf_message cmd = none

abbrev pub api : CommandApi DeleteValueCommand Message
api = record {
  get_request_code = get_request_code;
  get_response_code = get_response_code;
  construct_pb_request = construct_pb_request;
  get_response_protobuf_message = get_response_protobuf_message;
  success = λ k. k.impl.success;
  error = λ k. k.impl.error;
  handle_error = λ k e. record k { impl = on_error k.impl e };
  handle_retry = λ k. record k { impl = on_retry k.impl };
  handle_success = on_success;
  allow_listing = λ k. none;
  get_timeout = λ k. some k.timeout;
  is_done = λ k. none;
  is_retryable = λ k. true;
  get_last_node = λ k. k.last_node;
  record_last_node = λ k node. record k { last_node = some node };
}
