-- ===== src/Kv/ListKeys.antt =====
-- kv_commands.go: ListKeys.
use riak_go_client.Prelude.{
  ℕ, Bool, true, false, not, ◌&&◌, Option, none, some, ◌⊎◌, inr, List, [], ◌∷◌, ◌++◌, if◌then◌else◌,
  Run, ok,
}
use riak_go_client.Errors.{
  Error, ◌>>=◌, ◌>>◌, refuse, client_error, could_not_convert, requires_callback, listing_disabled,
}
use riak_go_client.Command.{CommandImpl, CommandApi, on_error, on_retry}
use riak_go_client.Command.Building.{
  new_impl, succeeded, milliseconds, is_none, Callback, call, answered,
}
use riak_go_client.Command.Codes.{rpb_code_rpb_list_keys_req, rpb_code_rpb_list_keys_resp}
use riak_go_client.Object.{Bytes}
use riak_go_client.Rpb.{Message, rpb_list_keys_req, rpb_list_keys_resp}
use riak_go_client.Rpb.Fields.{get_bool, validate}
use riak_go_client.Rpb.Query.{
  RpbListKeysReq, new_rpb_list_keys_req, rpb_list_keys_req_locatable, new_rpb_list_keys_resp,
}

pub record ListKeysResponse : Type 0 where
  pub keys : List Bytes

pub record ListKeysCommand : Type 0 where
  pub impl : CommandImpl
  pub timeout : ℕ
  pub allow_listing : Bool
  pub response : Option ListKeysResponse
  pub protobuf : RpbListKeysReq
  pub streaming : Bool
  pub callback : Option (Callback (List Bytes))
  pub calls : List (List Bytes)
  pub done : Bool

pub record ListKeysCommandBuilder : Type 0 where
  pub allow_listing : Bool
  pub timeout : ℕ
  pub protobuf : RpbListKeysReq
  pub streaming : Bool
  pub callback : Option (Callback (List Bytes))

abbrev pub new_list_keys_command_builder : ListKeysCommandBuilder
new_list_keys_command_builder = record {
  allow_listing = false;
  timeout = 0;
  protobuf = new_rpb_list_keys_req;
  streaming = false;
  callback = none;
}

unfoldable pub with_allow_listing : ListKeysCommandBuilder → ListKeysCommandBuilder
with_allow_listing builder = record builder { allow_listing = true }

unfoldable with_bucket_type : Bytes → ListKeysCommandBuilder → ListKeysCommandBuilder
with_bucket_type bucket_type builder = record builder {
  protobuf = record builder.protobuf { type = some bucket_type };
}

unfoldable pub with_bucket : Bytes → ListKeysCommandBuilder → ListKeysCommandBuilder
with_bucket bucket builder = record builder {
  protobuf = record builder.protobuf { bucket = some bucket };
}

unfoldable pub with_streaming : Bool → ListKeysCommandBuilder → ListKeysCommandBuilder
with_streaming streaming builder = record builder { streaming = streaming }

unfoldable pub with_callback :
    Option (Callback (List Bytes)) → ListKeysCommandBuilder → ListKeysCommandBuilder
with_callback callback builder = record builder { callback = callback }

unfoldable pub with_timeout : ℕ → ListKeysCommandBuilder → ListKeysCommandBuilder
unfolding milliseconds
with_timeout timeout builder = record builder {
  timeout = timeout;
  protobuf = record builder.protobuf { timeout = some (milliseconds timeout) };
}

unfoldable pub build : ListKeysCommandBuilder → Error ⊎ ListKeysCommand
unfolding validate
build builder = do
  protobuf ← validate builder.protobuf
  refuse (builder.streaming && is_none builder.callback)
      (client_error (requires_callback "ListKeysCommand"))
  refuse (not builder.allow_listing) (client_error listing_disabled)
  inr (record {
    impl = new_impl;
    timeout = builder.timeout;
    allow_listing = builder.allow_listing;
    response = none;
    protobuf = protobuf;
    streaming = builder.streaming;
    callback = builder.callback;
    calls = [];
    done = false;
  })

unfoldable pub construct_pb_request :
    ListKeysCommand → Run (ListKeysCommand × (Error ⊎ Option Message))
construct_pb_request cmd = ok (cmd, inr (some (rpb_list_keys_req cmd.protobuf)))

-- `cmd.Response`, or a new one where it is nil.
abbrev pub response_of : ListKeysCommand → List Bytes
response_of cmd = elim cmd.response [ none ↦ [] | some r ↦ r.keys ]

-- The keys of one response go to the callback, or behind those of the responses before.
unfoldable pub collect : ListKeysCommand → List Bytes → Run (ListKeysCommand × Option Error)
collect cmd [] = ok (cmd, none)
collect cmd (k ∷ ks) =
    if cmd.streaming
    then answered (λ calls. record cmd { calls = calls })
        (λ calls. record cmd { calls = calls; response = none })
        (call cmd.callback cmd.calls (k ∷ ks))
    else ok (record cmd { response = some (record { keys = response_of cmd ++ k ∷ ks }) }, none)

unfoldable pub on_success : ListKeysCommand → Option Message → Run (ListKeysCommand × Option Error)
unfolding collect
on_success cmd none = ok (
  record cmd { impl = succeeded cmd.impl; done = true; response = some (record { keys = [] }) },
  none,
)
on_success cmd (some (rpb_list_keys_resp m)) =
    collect
      (record cmd {
        impl = succeeded cmd.impl;
        done = get_bool m.done;
        response = some (record { keys = response_of cmd });
      })
      m.keys
on_success cmd (some other) = ok (
  record cmd { impl = succeeded cmd.impl; done = true },
  some (could_not_convert "ListKeysCommand"),
)

abbrev pub get_request_code : ListKeysCommand → ℕ
get_request_code cmd = rpb_code_rpb_list_keys_req

abbrev pub get_response_code : ListKeysCommand → ℕ
get_response_code cmd = rpb_code_rpb_list_keys_resp

abbrev pub get_response_protobuf_message : ListKeysCommand → Option Message
get_response_protobuf_message cmd = some (rpb_list_keys_resp new_rpb_list_keys_resp)

abbrev pub is_done : ListKeysCommand → Bool
is_done cmd = cmd.done

abbrev pub api : CommandApi ListKeysCommand Message
api = record {
  get_request_code = get_request_code;
  get_response_code = get_response_code;
  construct_pb_request = construct_pb_request;
  get_response_protobuf_message = get_response_protobuf_message;
  success = λ k. k.impl.success;
  error = λ k. k.impl.error;
  handle_error = λ k e. record k { impl = on_error k.impl e };
  handle_retry = λ k. record k { impl = on_retry k.impl };
  handle_success = on_success;
  allow_listing = λ k. some k.allow_listing;
  get_timeout = λ k. some k.timeout;
  is_done = λ k. some (is_done k);
  is_retryable = λ k. false;
  get_last_node = λ k. none;
  record_last_node = λ k node. k;
}
