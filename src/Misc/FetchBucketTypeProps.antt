-- ===== src/Misc/FetchBucketTypeProps.antt =====
-- misc_commands.go: FetchBucketTypeProps.
use riak_go_client.Prelude.{ℕ, true, Option, none, some, ◌⊎◌, inr, Run, ok}
use riak_go_client.Errors.{Error, ◌>>=◌, could_not_convert}
use riak_go_client.Command.{CommandImpl, CommandApi, on_error, on_retry}
use riak_go_client.Command.Building.{new_impl, succeeded, not_succeeded}
use riak_go_client.Command.Codes.{rpb_code_rpb_get_bucket_resp, rpb_code_rpb_get_bucket_type_req}
use riak_go_client.Object.{Bytes}
use riak_go_client.Rpb.{Message, rpb_get_bucket_type_req, rpb_get_bucket_resp}
use riak_go_client.Rpb.Fields.{validate}
use riak_go_client.Rpb.Riak.{
  RpbGetBucketTypeReq, new_rpb_get_bucket_type_req, rpb_get_bucket_type_req_locatable,
  new_rpb_get_bucket_resp,
}
use riak_go_client.Misc.BucketProps.{FetchBucketPropsResponse, process_rpb_get_bucket_resp}

pub record FetchBucketTypePropsCommand : Type 0 where
  pub impl : CommandImpl
  pub last_node : Option ℕ
  pub response : Option FetchBucketPropsResponse
  pub protobuf : RpbGetBucketTypeReq

pub record FetchBucketTypePropsCommandBuilder : Type 0 where
  pub protobuf : RpbGetBucketTypeReq

abbrev pub new_fetch_bucket_type_props_command_builder : FetchBucketTypePropsCommandBuilder
new_fetch_bucket_type_props_command_builder = record { protobuf = new_rpb_get_bucket_type_req }

unfoldable with_bucket_type :
    Bytes → FetchBucketTypePropsCommandBuilder → FetchBucketTypePropsCommandBuilder
with_bucket_type bucket_type builder = record builder {
  protobuf = record builder.protobuf { type = some bucket_type };
}

unfoldable pub build : FetchBucketTypePropsCommandBuilder → Error ⊎ FetchBucketTypePropsCommand
unfolding validate
build builder = do
  protobuf ← validate builder.protobuf
  inr (record { impl = new_impl; last_node = none; response = none; protobuf = protobuf })

unfoldable pub construct_pb_request :
    FetchBucketTypePropsCommand → Run (FetchBucketTypePropsCommand × (Error ⊎ Option Message))
construct_pb_request cmd = ok (cmd, inr (some (rpb_get_bucket_type_req cmd.protobuf)))

unfoldable pub on_success :
    FetchBucketTypePropsCommand → Option Message → Run (FetchBucketTypePropsCommand × Option Error)
unfolding process_rpb_get_bucket_resp
on_success cmd none = ok (record cmd { impl = not_succeeded cmd.impl }, none)
on_success cmd (some (rpb_get_bucket_resp m)) = ok (
  record cmd { impl = succeeded cmd.impl; response = some (process_rpb_get_bucket_resp m) },
  none,
)
on_success cmd (some other) = ok (
  record cmd { impl = succeeded cmd.impl },
  some (could_not_convert "FetchBucketTypePropsCommand"),
)

abbrev pub get_request_code : FetchBucketTypePropsCommand → ℕ
get_request_code cmd = rpb_code_rpb_get_bucket_type_req

abbrev pub get_response_code : FetchBucketTypePropsCommand → ℕ
get_response_code cmd = rpb_code_rpb_get_bucket_resp

abbrev pub get_response_protobuf_message : FetchBucketTypePropsCommand → Option Message
get_response_protobuf_message cmd = some (rpb_get_bucket_resp new_rpb_get_bucket_resp)

abbrev pub api : CommandApi FetchBucketTypePropsCommand Message
api = record {
  get_request_code = get_request_code;
  get_response_code = get_response_code;
  construct_pb_request = construct_pb_request;
  get_response_protobuf_message = get_response_protobuf_message;
  success = λ k. k.impl.success;
  error = λ k. k.impl.error;
  handle_error = λ k e. record k { impl = on_error k.impl e };
  handle_retry = λ k. record k { impl = on_retry k.impl };
  handle_success = on_success;
  allow_listing = λ k. none;
  get_timeout = λ k. none;
  is_done = λ k. none;
  is_retryable = λ k. true;
  get_last_node = λ k. k.last_node;
  record_last_node = λ k node. record k { last_node = some node };
}
