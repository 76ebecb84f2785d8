-- ===== src/Misc/FetchBucketProps.antt =====
-- misc_commands.go: FetchBucketProps.
use riak_go_client.Prelude.{ℕ, true, Option, none, some, ◌⊎◌, inr, Run, ok}
use riak_go_client.Errors.{Error, ◌>>=◌, could_not_convert}
use riak_go_client.Command.{CommandImpl, CommandApi, on_error, on_retry}
use riak_go_client.Command.Building.{new_impl, succeeded, not_succeeded}
use riak_go_client.Command.Codes.{rpb_code_rpb_get_bucket_req, rpb_code_rpb_get_bucket_resp}
use riak_go_client.Object.{Bytes}
use riak_go_client.Rpb.{Message, rpb_get_bucket_req, rpb_get_bucket_resp}
use riak_go_client.Rpb.Fields.{validate}
use riak_go_client.Rpb.Riak.{
  RpbGetBucketReq, new_rpb_get_bucket_req, rpb_get_bucket_req_locatable, new_rpb_get_bucket_resp,
}
use riak_go_client.Misc.BucketProps.{FetchBucketPropsResponse, process_rpb_get_bucket_resp}

pub record FetchBucketPropsCommand : Type 0 where
  pub impl : CommandImpl
  pub last_node : Option ℕ
  pub response : Option FetchBucketPropsResponse
  pub protobuf : RpbGetBucketReq

pub record FetchBucketPropsCommandBuilder : Type 0 where
  pub protobuf : RpbGetBucketReq

abbrev pub new_fetch_bucket_props_command_builder : FetchBucketPropsCommandBuilder
new_fetch_bucket_props_command_builder = record { protobuf = new_rpb_get_bucket_req }

unfoldable with_bucket_type :
    Bytes → FetchBucketPropsCommandBuilder → FetchBucketPropsCommandBuilder
with_bucket_type bucket_type builder = record builder {
  protobuf = record builder.protobuf { type = some bucket_type };
}

unfoldable with_bucket : Bytes → FetchBucketPropsCommandBuilder → FetchBucketPropsCommandBuilder
with_bucket bucket builder = record builder {
  protobuf = record builder.protobuf { bucket = some bucket };
}

unfoldable pub build : FetchBucketPropsCommandBuilder → Error ⊎ FetchBucketPropsCommand
unfolding validate
build builder = do
  protobuf ← validate builder.protobuf
  inr (record { impl = new_impl; last_node = none; response = none; protobuf = protobuf })

unfoldable pub construct_pb_request :
    FetchBucketPropsCommand → Run (FetchBucketPropsCommand × (Error ⊎ Option Message))
construct_pb_request cmd = ok (cmd, inr (some (rpb_get_bucket_req cmd.protobuf)))

unfoldable pub on_success :
    FetchBucketPropsCommand → Option Message → Run (FetchBucketPropsCommand × Option Error)
unfolding process_rpb_get_bucket_resp
on_success cmd none = ok (record cmd { impl = not_succeeded cmd.impl }, none)
on_success cmd (some (rpb_get_bucket_resp m)) = ok (
  record cmd { impl = succeeded cmd.impl; response = some (process_rpb_get_bucket_resp m) },
  none,
)
on_success cmd (some other) =
    ok
      (record cmd { impl = succeeded cmd.impl }, some (could_not_convert "FetchBucketPropsCommand"))

abbrev pub get_request_code : FetchBucketPropsCommand → ℕ
get_request_code cmd = rpb_code_rpb_get_bucket_req

abbrev pub get_response_code : FetchBucketPropsCommand → ℕ
get_response_code cmd = rpb_code_rpb_get_bucket_resp

abbrev pub get_response_protobuf_message : FetchBucketPropsCommand → Option Message
get_response_protobuf_message cmd = some (rpb_get_bucket_resp new_rpb_get_bucket_resp)

abbrev pub api : CommandApi FetchBucketPropsCommand Message
api = record {
  get_request_code = get_request_code;
  get_response_code = get_response_code;
  construct_pb_request = construct_pb_request;
  get_response_protobuf_message = get_response_protobuf_message;
  success = λ k. k.impl.success;
  error = λ k. k.impl.error;
  handle_error = λ k e. record k { impl = on_error k.impl e };
  handle_retry = λ k. record k { impl = on_retry k.impl };
  handle_success = on_success;
  allow_listing = λ k. none;
  get_timeout = λ k. none;
  is_done = λ k. none;
  is_retryable = λ k. true;
  get_last_node = λ k. k.last_node;
  record_last_node = λ k node. record k { last_node = some node };
}
