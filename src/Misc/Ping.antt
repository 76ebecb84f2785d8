-- ===== src/Misc/Ping.antt =====
-- misc_commands.go: Ping.
use riak_go_client.Prelude.{ℕ, true, Option, none, some, ◌⊎◌, inr, Run, ok}
use riak_go_client.Errors.{Error}
use riak_go_client.Command.{CommandImpl, CommandApi, on_error, on_retry}
use riak_go_client.Command.Building.{new_impl, succeeded}
use riak_go_client.Command.Codes.{rpb_code_rpb_ping_req, rpb_code_rpb_ping_resp}
use riak_go_client.Rpb.{Message}

pub record PingCommand : Type 0 where
  pub impl : CommandImpl
  pub last_node : Option ℕ

unfoldable pub construct_pb_request : PingCommand → Run (PingCommand × (Error ⊎ Option Message))
construct_pb_request cmd = ok (cmd, inr none)

-- `Build` of the builder, which has no fields.
abbrev pub build : PingCommand
build = record { impl = new_impl; last_node = none }

unfoldable pub on_success : PingCommand → Option Message → Run (PingCommand × Option Error)
on_success cmd msg = ok (record cmd { impl = succeeded cmd.impl }, none)

abbrev pub get_request_code : PingCommand → ℕ
get_request_code cmd = rpb_code_rpb_ping_req

abbrev pub get_response_code : PingCommand → ℕ
get_response_code cmd = rpb_code_rpb_ping_resp

abbrev pub get_response_protobuf_message : PingCommand → Option Message
get_response_protobuf_message cmd = none

abbrev pub api : CommandApi PingCommand Message
api = record {
  get_request_code = get_request_code;
  get_response_code = get_response_code;
  construct_pb_request = construct_pb_request;
  get_response_protobuf_message = get_response_protobuf_message;
  success = λ k. k.impl.success;
  error = λ k. k.impl.error;
  handle_error = λ k e. record k { impl = on_error k.impl e };
  handle_retry = λ k. record k { impl = on_retry k.impl };
  handle_success = on_success;
  allow_listing = λ k. none;
  get_timeout = λ k. none;
  is_done = λ k. none;
  is_retryable = λ k. true;
  get_last_node = λ k. k.last_node;
  record_last_node = λ k node. record k { last_node = some node };
}
