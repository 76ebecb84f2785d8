-- ===== src/Kv/ListBuckets.antt =====
-- kv_commands.go: ListBuckets.
use riak_go_client.Prelude.{
  ℕ, Bool, true, false, not, ◌&&◌, Option, none, some, ◌⊎◌, inr, List, [], ◌∷◌, ◌++◌, if◌then◌else◌,
  Run, ok,
}
use riak_go_client.Errors.{
  Error, ◌>>=◌, ◌>>◌, refuse, client_error, could_not_convert, requires_callback, listing_disabled,
}
use riak_go_client.Command.{CommandImpl, CommandApi, on_error, on_retry}
use riak_go_client.Command.Building.{
  new_impl, succeeded, milliseconds, is_none, Callback, call, answered,
}
use riak_go_client.Command.Codes.{rpb_code_rpb_list_buckets_req, rpb_code_rpb_list_buckets_resp}
use riak_go_client.Object.{Bytes}
use riak_go_client.Rpb.{Message, rpb_list_buckets_req, rpb_list_buckets_resp}
use riak_go_client.Rpb.Fields.{get_bool, validate}
use riak_go_client.Rpb.Query.{
  RpbListBucketsReq, new_rpb_list_buckets_req, rpb_list_buckets_req_locatable,
  new_rpb_list_buckets_resp,
}

pub record ListBucketsResponse : Type 0 where
  pub buckets : List Bytes

pub record ListBucketsCommand : Type 0 where
  pub impl : CommandImpl
  pub allow_listing : Bool
  pub response : Option ListBucketsResponse
  pub protobuf : RpbListBucketsReq
  pub callback : Option (Callback (List Bytes))
  pub calls : List (List Bytes)
  pub done : Bool

pub record ListBucketsCommandBuilder : Type 0 where
  pub allow_listing : Bool
  pub callback : Option (Callback (List Bytes))
  pub protobuf : RpbListBucketsReq

abbrev pub new_list_buckets_command_builder : ListBucketsCommandBuilder
new_list_buckets_command_builder = record {
  allow_listing = false;
  callback = none;
  protobuf = new_rpb_list_buckets_req;
}

unfoldable pub with_allow_listing : ListBucketsCommandBuilder → ListBucketsCommandBuilder
with_allow_listing builder = record builder { allow_listing = true }

unfoldable with_bucket_type : Bytes → ListBucketsCommandBuilder → ListBucketsCommandBuilder
with_bucket_type bucket_type builder = record builder {
  protobuf = record builder.protobuf { type = some bucket_type };
}

unfoldable pub with_streaming : Bool → ListBucketsCommandBuilder → ListBucketsCommandBuilder
with_streaming streaming builder = record builder {
  protobuf = record builder.protobuf { stream = some streaming };
}

unfoldable pub with_callback :
    Option (Callback (List Bytes)) → ListBucketsCommandBuilder → ListBucketsCommandBuilder
with_callback callback builder = record builder { callback = callback }

unfoldable pub with_timeout : ℕ → ListBucketsCommandBuilder → ListBucketsCommandBuilder
unfolding milliseconds
with_timeout timeout builder = record builder {
  protobuf = record builder.protobuf { timeout = some (milliseconds timeout) };
}

unfoldable pub build : ListBucketsCommandBuilder → Error ⊎ ListBucketsCommand
unfolding validate
build builder = do
  protobuf ← validate builder.protobuf
  refuse (get_bool protobuf.stream && is_none builder.callback)
      (client_error (requires_callback "ListBucketsCommand"))
  refuse (not builder.allow_listing) (client_error listing_disabled)
  inr (record {
    impl = new_impl;
    allow_listing = builder.allow_listing;
    response = none;
    protobuf = protobuf;
    callback = builder.callback;
    calls = [];
    done = false;
  })

unfoldable pub construct_pb_request :
    ListBucketsCommand → Run (ListBucketsCommand × (Error ⊎ Option Message))
construct_pb_request cmd = ok (cmd, inr (some (rpb_list_buckets_req cmd.protobuf)))

-- `cmd.Response`, or a new one where it is nil.
abbrev pub response_of : ListBucketsCommand → List Bytes
response_of cmd = elim cmd.response [ none ↦ [] | some r ↦ r.buckets ]

-- The buckets of one response go to the callback, or behind those of the responses before.
unfoldable pub collect : ListBucketsCommand → List Bytes → Run (ListBucketsCommand × Option Error)
collect cmd [] = ok (cmd, none)
collect cmd (b ∷ bs) =
    if get_bool cmd.protobuf.stream
    then answered (λ calls. record cmd { calls = calls })
        (λ calls. record cmd { calls = calls; response = none })
        (call cmd.callback cmd.calls (b ∷ bs))
    else ok (record cmd { response = some (record { buckets = response_of cmd ++ b ∷ bs }) }, none)

unfoldable pub on_success :
    ListBucketsCommand → Option Message → Run (ListBucketsCommand × Option Error)
unfolding collect
on_success cmd none = ok (
  record cmd { impl = succeeded cmd.impl; done = true; response = some (record { buckets = [] }) },
  none,
)
on_success cmd (some (rpb_list_buckets_resp m)) =
    collect
      (record cmd {
        impl = succeeded cmd.impl;
        done = get_bool m.done;
        response = some (record { buckets = response_of cmd });
      })
      m.buckets
on_success cmd (some other) = ok (
  record cmd { impl = succeeded cmd.impl; done = true },
  some (could_not_convert "ListBucketsCommand"),
)

abbrev pub get_request_code : ListBucketsCommand → ℕ
get_request_code cmd = rpb_code_rpb_list_buckets_req

abbrev pub get_response_code : ListBucketsCommand → ℕ
get_response_code cmd = rpb_code_rpb_list_buckets_resp

abbrev pub get_response_protobuf_message : ListBucketsCommand → Option Message
get_response_protobuf_message cmd = some (rpb_list_buckets_resp new_rpb_list_buckets_resp)

unfoldable pub is_done : ListBucketsCommand → Bool
is_done cmd = if get_bool cmd.protobuf.stream then cmd.done else true

abbrev pub api : CommandApi ListBucketsCommand Message
api = record {
  get_request_code = get_request_code;
  get_response_code = get_response_code;
  construct_pb_request = construct_pb_request;
  get_response_protobuf_message = get_response_protobuf_message;
  success = λ k. k.impl.success;
  error = λ k. k.impl.error;
  handle_error = λ k e. record k { impl = on_error k.impl e };
  handle_retry = λ k. record k { impl = on_retry k.impl };
  handle_success = on_success;
  allow_listing = λ k. some k.allow_listing;
  get_timeout = λ k. none;
  is_done = λ k. some (is_done k);
  is_retryable = λ k. false;
  get_last_node = λ k. none;
  record_last_node = λ k node. k;
}
