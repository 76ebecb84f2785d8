-- ===== src/Kv/FetchPreflist.antt =====
-- kv_commands.go: FetchPreflist. A partition, an int64, is the number of its bits.
use riak_go_client.Prelude.{ℕ, Bool, true, Option, none, some, ◌⊎◌, inr, List, [], map, Run, ok}
use riak_go_client.Errors.{Error, ◌>>=◌, could_not_convert}
use riak_go_client.Command.{CommandImpl, CommandApi, on_error, on_retry}
use riak_go_client.Command.Building.{new_impl, succeeded}
use riak_go_client.Command.Codes.{
  rpb_code_rpb_get_bucket_key_preflist_req, rpb_code_rpb_get_bucket_key_preflist_resp,
}
use riak_go_client.Object.{Bytes}
use riak_go_client.Rpb.{Message, rpb_get_bucket_key_preflist_req, rpb_get_bucket_key_preflist_resp}
use riak_go_client.Rpb.Fields.{get_bytes, get_number, get_bool, validate}
use riak_go_client.Rpb.Query.{
  RpbGetBucketKeyPreflistReq, new_rpb_get_bucket_key_preflist_req,
  rpb_get_bucket_key_preflist_req_locatable, RpbBucketKeyPreflistItem,
  new_rpb_get_bucket_key_preflist_resp,
}

pub record PreflistItem : Type 0 where
  pub partition : ℕ
  pub node : Bytes
  pub primary : Bool

pub record FetchPreflistResponse : Type 0 where
  pub preflist : List PreflistItem

pub record FetchPreflistCommand : Type 0 where
  pub impl : CommandImpl
  pub last_node : Option ℕ
  pub response : Option FetchPreflistResponse
  pub protobuf : RpbGetBucketKeyPreflistReq

pub record FetchPreflistCommandBuilder : Type 0 where
  pub protobuf : RpbGetBucketKeyPreflistReq

abbrev pub new_fetch_preflist_command_builder : FetchPreflistCommandBuilder
new_fetch_preflist_command_builder = record { protobuf = new_rpb_get_bucket_key_preflist_req }

unfoldable with_bucket_type : Bytes → FetchPreflistCommandBuilder → FetchPreflistCommandBuilder
with_bucket_type bucket_type builder = record builder {
  protobuf = record builder.protobuf { type = some bucket_type };
}

unfoldable with_bucket : Bytes → FetchPreflistCommandBuilder → FetchPreflistCommandBuilder
with_bucket bucket builder = record builder {
  protobuf = record builder.protobuf { bucket = some bucket };
}

unfoldable with_key : Bytes → FetchPreflistCommandBuilder → FetchPreflistCommandBuilder
with_key key builder = record builder { protobuf = record builder.protobuf { key = some key } }

unfoldable pub build : FetchPreflistCommandBuilder → Error ⊎ FetchPreflistCommand
unfolding validate
build builder = do
  protobuf ← validate builder.protobuf
  inr (record { impl = new_impl; last_node = none; response = none; protobuf = protobuf })

unfoldable pub construct_pb_request :
    FetchPreflistCommand → Run (FetchPreflistCommand × (Error ⊎ Option Message))
construct_pb_request cmd = ok (cmd, inr (some (rpb_get_bucket_key_preflist_req cmd.protobuf)))

unfoldable preflist_item : RpbBucketKeyPreflistItem → PreflistItem
preflist_item item = record {
  partition = get_number item.partition;
  node = get_bytes item.node;
  primary = get_bool item.primary;
}

unfoldable pub on_success :
    FetchPreflistCommand → Option Message → Run (FetchPreflistCommand × Option Error)
unfolding preflist_item
on_success cmd none =
    ok (record cmd { impl = succeeded cmd.impl; response = some (record { preflist = [] }) }, none)
on_success cmd (some (rpb_get_bucket_key_preflist_resp m)) = ok (
  record cmd {
    impl = succeeded cmd.impl;
    response = some (record { preflist = map preflist_item m.preflist });
  },
  none,
)
on_success cmd (some other) =
    ok (record cmd { impl = succeeded cmd.impl }, some (could_not_convert "FetchPreflistCommand"))

abbrev pub get_request_code : FetchPreflistCommand → ℕ
get_request_code cmd = rpb_code_rpb_get_bucket_key_preflist_req

abbrev pub get_response_code : FetchPreflistCommand → ℕ
get_response_code cmd = rpb_code_rpb_get_bucket_key_preflist_resp

abbrev pub get_response_protobuf_message : FetchPreflistCommand → Option Message
get_response_protobuf_message cmd =
    some (rpb_get_bucket_key_preflist_resp new_rpb_get_bucket_key_preflist_resp)

abbrev pub api : CommandApi FetchPreflistCommand Message
api = record {
  get_request_code = get_request_code;
  get_response_code = get_response_code;
  construct_pb_request = construct_pb_request;
  get_response_protobuf_message = get_response_protobuf_message;
  success = λ k. k.impl.success;
  error = λ k. k.impl.error;
  handle_error = λ k e. record k { impl = on_error k.impl e };
  handle_retry = λ k. record k { impl = on_retry k.impl };
  handle_success = on_success;
  allow_listing = λ k. none;
  get_timeout = λ k. none;
  is_done = λ k. none;
  is_retryable = λ k. true;
  get_last_node = λ k. k.last_node;
  record_last_node = λ k node. record k { last_node = some node };
}
