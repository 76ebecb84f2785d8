-- ===== src/Misc/GetServerInfo.antt =====
-- misc_commands.go: GetServerInfo.
use riak_go_client.Prelude.{ℕ, false, Option, none, some, ◌⊎◌, inr, Run, ok}
use riak_go_client.Errors.{Error, could_not_convert}
use riak_go_client.Command.{CommandImpl, CommandApi, on_error, on_retry}
use riak_go_client.Command.Building.{succeeded, not_succeeded}
use riak_go_client.Command.Codes.{
  rpb_code_rpb_get_server_info_req, rpb_code_rpb_get_server_info_resp,
}
use riak_go_client.Object.{Bytes}
use riak_go_client.Rpb.{Message, rpb_get_server_info_resp}
use riak_go_client.Rpb.Fields.{get_bytes}
use riak_go_client.Rpb.Riak.{new_rpb_get_server_info_resp}

pub record GetServerInfoResponse : Type 0 where
  pub node : Bytes
  pub server_version : Bytes

pub record GetServerInfoCommand : Type 0 where
  pub impl : CommandImpl
  pub response : Option GetServerInfoResponse

unfoldable pub construct_pb_request :
    GetServerInfoCommand → Run (GetServerInfoCommand × (Error ⊎ Option Message))
construct_pb_request cmd = ok (cmd, inr none)

unfoldable pub on_success :
    GetServerInfoCommand → Option Message → Run (GetServerInfoCommand × Option Error)
on_success cmd none = ok (record cmd { impl = not_succeeded cmd.impl }, none)
on_success cmd (some (rpb_get_server_info_resp m)) = ok (
  record cmd {
    impl = succeeded cmd.impl;
    response =
        some (record { node = get_bytes m.node; server_version = get_bytes m.server_version });
  },
  none,
)
on_success cmd (some other) =
    ok (record cmd { impl = succeeded cmd.impl }, some (could_not_convert "GetServerInfoCommand"))

abbrev pub get_request_code : GetServerInfoCommand → ℕ
get_request_code cmd = rpb_code_rpb_get_server_info_req

abbrev pub get_response_code : GetServerInfoCommand → ℕ
get_response_code cmd = rpb_code_rpb_get_server_info_resp

abbrev pub get_response_protobuf_message : GetServerInfoCommand → Option Message
get_response_protobuf_message cmd = some (rpb_get_server_info_resp new_rpb_get_server_info_resp)

abbrev pub api : CommandApi GetServerInfoCommand Message
api = record {
  get_request_code = get_request_code;
  get_response_code = get_response_code;
  construct_pb_request = construct_pb_request;
  get_response_protobuf_message = get_response_protobuf_message;
  success = λ k. k.impl.success;
  error = λ k. k.impl.error;
  handle_error = λ k e. record k { impl = on_error k.impl e };
  handle_retry = λ k. record k { impl = on_retry k.impl };
  handle_success = on_success;
  allow_listing = λ k. none;
  get_timeout = λ k. none;
  is_done = λ k. none;
  is_retryable = λ k. false;
  get_last_node = λ k. none;
  record_last_node = λ k node. k;
}
