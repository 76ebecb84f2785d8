-- ===== src/Kv/MapReduce.antt =====
-- kv_commands.go: MapReduce.
use riak_go_client.Prelude.{
  ℕ, Bool, true, false, ◌&&◌, Option, none, some, ◌⊎◌, inr, List, [], ◌∷◌, ◌++◌, if◌then◌else◌, Run,
  ok,
}
use riak_go_client.Errors.{Error, ◌>>◌, refuse, client_error, could_not_convert, requires_callback}
use riak_go_client.Command.{CommandImpl, CommandApi, on_error, on_retry}
use riak_go_client.Command.Building.{new_impl, succeeded, is_none, Callback, call, answered}
use riak_go_client.Command.Codes.{rpb_code_rpb_map_red_req, rpb_code_rpb_map_red_resp}
use riak_go_client.Object.{Bytes}
use riak_go_client.Rpb.{Message, rpb_map_red_req, rpb_map_red_resp}
use riak_go_client.Rpb.Fields.{get_bytes, get_bool}
use riak_go_client.Rpb.Query.{RpbMapRedReq, new_rpb_map_red_req, new_rpb_map_red_resp}

-- "application/json".
abbrev application_json : Bytes
application_json =
    97 ∷ 112 ∷ 112 ∷ 108 ∷ 105 ∷ 99 ∷ 97 ∷ 116 ∷ 105 ∷ 111 ∷ 110 ∷ 47 ∷ 106 ∷ 115 ∷ 111 ∷ 110 ∷ []

pub record MapReduceCommand : Type 0 where
  pub impl : CommandImpl
  pub response : List Bytes
  pub protobuf : RpbMapRedReq
  pub streaming : Bool
  pub callback : Option (Callback Bytes)
  pub calls : List Bytes
  pub done : Bool

pub record MapReduceCommandBuilder : Type 0 where
  pub protobuf : RpbMapRedReq
  pub streaming : Bool
  pub callback : Option (Callback Bytes)

abbrev pub new_map_reduce_command_builder : MapReduceCommandBuilder
new_map_reduce_command_builder = record {
  protobuf = record new_rpb_map_red_req { content_type = some application_json };
  streaming = false;
  callback = none;
}

unfoldable pub with_query : Bytes → MapReduceCommandBuilder → MapReduceCommandBuilder
with_query query builder = record builder {
  protobuf = record builder.protobuf { request = some query };
}

unfoldable with_streaming : Bool → MapReduceCommandBuilder → MapReduceCommandBuilder
with_streaming streaming builder = record builder { streaming = streaming }

unfoldable with_callback :
    Option (Callback Bytes) → MapReduceCommandBuilder → MapReduceCommandBuilder
with_callback callback builder = record builder { callback = callback }

unfoldable pub build : MapReduceCommandBuilder → Error ⊎ MapReduceCommand
build builder = do
  refuse (builder.streaming && is_none builder.callback)
      (client_error (requires_callback "MapReduceCommand"))
  inr (record {
    impl = new_impl;
    response = [];
    protobuf = builder.protobuf;
    streaming = builder.streaming;
    callback = builder.callback;
    calls = [];
    done = false;
  })

unfoldable pub construct_pb_request :
    MapReduceCommand → Run (MapReduceCommand × (Error ⊎ Option Message))
construct_pb_request cmd = ok (cmd, inr (some (rpb_map_red_req cmd.protobuf)))

-- The response of each message, also of one that has none.
unfoldable pub collect : MapReduceCommand → Bytes → Run (MapReduceCommand × Option Error)
collect cmd response =
    if cmd.streaming
    then answered (λ calls. record cmd { calls = calls })
        (λ calls. record cmd { calls = calls; response = [] })
        (call cmd.callback cmd.calls response)
    else ok (record cmd { response = cmd.response ++ response ∷ [] }, none)

unfoldable pub on_success :
    MapReduceCommand → Option Message → Run (MapReduceCommand × Option Error)
unfolding collect
on_success cmd none = ok (record cmd { impl = succeeded cmd.impl; done = true }, none)
on_success cmd (some (rpb_map_red_resp m)) =
    collect (record cmd { impl = succeeded cmd.impl; done = get_bool m.done })
      (get_bytes m.response)
on_success cmd (some other) = ok (
  record cmd { impl = succeeded cmd.impl; done = true },
  some (could_not_convert "MapReduceCommand"),
)

abbrev pub get_request_code : MapReduceCommand → ℕ
get_request_code cmd = rpb_code_rpb_map_red_req

abbrev pub get_response_code : MapReduceCommand → ℕ
get_response_code cmd = rpb_code_rpb_map_red_resp

abbrev pub get_response_protobuf_message : MapReduceCommand → Option Message
get_response_protobuf_message cmd = some (rpb_map_red_resp new_rpb_map_red_resp)

abbrev pub is_done : MapReduceCommand → Bool
is_done cmd = cmd.done

abbrev pub api : CommandApi MapReduceCommand Message
api = record {
  get_request_code = get_request_code;
  get_response_code = get_response_code;
  construct_pb_request = construct_pb_request;
  get_response_protobuf_message = get_response_protobuf_message;
  success = λ k. k.impl.success;
  error = λ k. k.impl.error;
  handle_error = λ k e. record k { impl = on_error k.impl e };
  handle_retry = λ k. record k { impl = on_retry k.impl };
  handle_success = on_success;
  allow_listing = λ k. none;
  get_timeout = λ k. none;
  is_done = λ k. some (is_done k);
  is_retryable = λ k. false;
  get_last_node = λ k. none;
  record_last_node = λ k node. k;
}
