-- ===== src/Misc/ResetBucket.antt =====
-- misc_commands.go: ResetBucket.
use riak_go_client.Prelude.{ℕ, true, Option, none, some, ◌⊎◌, inr, Run, ok}
use riak_go_client.Errors.{Error, ◌>>=◌}
use riak_go_client.Command.{CommandImpl, CommandApi, on_error, on_retry}
use riak_go_client.Command.Building.{new_impl, succeeded}
use riak_go_client.Command.Codes.{rpb_code_rpb_reset_bucket_req, rpb_code_rpb_reset_bucket_resp}
use riak_go_client.Object.{Bytes}
use riak_go_client.Rpb.{Message, rpb_reset_bucket_req}
use riak_go_client.Rpb.Fields.{validate}
use riak_go_client.Rpb.Riak.{
  RpbResetBucketReq, new_rpb_reset_bucket_req, rpb_reset_bucket_req_locatable,
}

pub record ResetBucketCommand : Type 0 where
  pub impl : CommandImpl
  pub last_node : Option ℕ
  pub protobuf : RpbResetBucketReq

pub record ResetBucketCommandBuilder : Type 0 where
  pub protobuf : RpbResetBucketReq

abbrev pub new_reset_bucket_command_builder : ResetBucketCommandBuilder
new_reset_bucket_command_builder = record { protobuf = new_rpb_reset_bucket_req }

unfoldable with_bucket_type : Bytes → ResetBucketCommandBuilder → ResetBucketCommandBuilder
with_bucket_type bucket_type builder = record builder {
  protobuf = record builder.protobuf { type = some bucket_type };
}

unfoldable with_bucket : Bytes → ResetBucketCommandBuilder → ResetBucketCommandBuilder
with_bucket bucket builder = record builder {
  protobuf = record builder.protobuf { bucket = some bucket };
}

unfoldable pub build : ResetBucketCommandBuilder → Error ⊎ ResetBucketCommand
unfolding validate
build builder = do
  protobuf ← validate builder.protobuf
  inr (record { impl = new_impl; last_node = none; protobuf = protobuf })

unfoldable pub construct_pb_request :
    ResetBucketCommand → Run (ResetBucketCommand × (Error ⊎ Option Message))
construct_pb_request cmd = ok (cmd, inr (some (rpb_reset_bucket_req cmd.protobuf)))

unfoldable pub on_success :
    ResetBucketCommand → Option Message → Run (ResetBucketCommand × Option Error)
on_success cmd msg = ok (record cmd { impl = succeeded cmd.impl }, none)

abbrev pub get_request_code : ResetBucketCommand → ℕ
get_request_code cmd = rpb_code_rpb_reset_bucket_req

abbrev pub get_response_code : ResetBucketCommand → ℕ
get_response_code cmd = rpb_code_rpb_reset_bucket_resp

abbrev pub get_response_protobuf_message : ResetBucketCommand → Option Message
get_response_protobuf_message cmd = none

abbrev pub api : CommandApi ResetBucketCommand Message
api = record {
  get_request_code = get_request_code;
  get_response_code = get_response_code;
  construct_pb_request = construct_pb_request;
  get_response_protobuf_message = get_response_protobuf_message;
  success = λ k. k.impl.success;
  error = λ k. k.impl.error;
  handle_error = λ k e. record k { impl = on_error k.impl e };
  handle_retry = λ k. record k { impl = on_retry k.impl };
  handle_success = on_success;
  allow_listing = λ k. none;
  get_timeout = λ k. none;
  is_done = λ k. none;
  is_retryable = λ k. true;
  get_last_node = λ k. k.last_node;
  record_last_node = λ k node. record k { last_node = some node };
}
