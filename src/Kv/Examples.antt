-- ===== src/Kv/Examples.antt =====
-- kv_commands.go: tests and examples of listing, over a socket that is a list of bytes to come.
use riak_go_client.Prelude.{
  ◌≡◌, refl, if◌then◌else◌, true, false, none, some, inr, List, [], ◌∷◌, ◌++◌, map, ◌==◌, arith, ok,
}
use riak_go_client.Errors.{net_error}
use riak_go_client.Command.{ProtoApi, get_riak_message, build_riak_message}
use riak_go_client.Command.Building.{new_impl, Callback}
use riak_go_client.Object.{Bytes, same}
use riak_go_client.Rpb.{Message, rpb_list_keys_resp}
use riak_go_client.Rpb.Query.{RpbListKeysResp, new_rpb_list_keys_req, new_rpb_list_keys_resp}
use riak_go_client.Connection.Reading.{Delivers}
use riak_go_client.Connection.Exchange.{Sends}
use riak_go_client.Connection.Streaming.{execute_stream, Feeds, feed, silent}
use riak_go_client.Connection.Examples.{net, conn, waiting, writes_lem}
use riak_go_client.Kv.ListKeys
use riak_go_client.Kv.ListKeys.{ListKeysCommand, ListKeysCommandBuilder}
use riak_go_client.Kv.Listing.{
  list_keys-IsSteady, Consumes-holding, holding, Returns, execute_list_keys,
}
use riak_go_client.Kv.Callbacks.{telling, execute_streaming}

-- The body of a response: whether it is the last one, and keys of one byte each.
abbrev one_byte_keys : Bytes → List Bytes
one_byte_keys [] = []
one_byte_keys (b ∷ bs) = (b ∷ []) ∷ one_byte_keys bs

abbrev pub page : Bytes → RpbListKeysResp
page [] = new_rpb_list_keys_resp
page (b ∷ bs) = record { keys = one_byte_keys bs; done = some (b == 1) }

abbrev pub proto : ProtoApi Message
proto = record {
  marshal = λ msg. inr (1 ∷ []);
  unmarshal = λ bytes msg. inr (rpb_list_keys_resp (page bytes));
  unmarshal_error = λ bytes. inr (5, bytes);
}

abbrev pub list_keys : ListKeysCommand
list_keys = record {
  impl = new_impl;
  timeout = 0;
  allow_listing = true;
  response = none;
  protobuf = record new_rpb_list_keys_req { bucket = some (98 ∷ []); type = some (116 ∷ []) };
  streaming = false;
  callback = none;
  calls = [];
  done = false;
}

abbrev concat : List Bytes → Bytes
concat [] = []
concat (k ∷ ks) = k ++ concat ks

-- A callback that has enough after the key 3.
abbrev pub until_three : Callback (List Bytes)
until_three calls keys = if same (concat keys) (3 ∷ []) then some (net_error false) else none

abbrev pub list_keys_to_callback : ListKeysCommand
list_keys_to_callback = record list_keys { streaming = true; callback = some until_three }

abbrev request : Bytes
request = 0 ∷ 0 ∷ 0 ∷ 2 ∷ 17 ∷ 1 ∷ []

builds_lem : get_riak_message proto ListKeys.api list_keys ≡ ok (list_keys, inr request)
unfolding get_riak_message build_riak_message ListKeys.construct_pb_request
builds_lem = refl

builds_to_callback_lem :
    get_riak_message proto ListKeys.api list_keys_to_callback
    ≡ ok (list_keys_to_callback, inr request)
unfolding get_riak_message build_riak_message ListKeys.construct_pb_request
builds_to_callback_lem = refl

abbrev sends : (w : Bytes) → Sends net proto ListKeys.api conn list_keys w
sends w = record {
  idle = refl;
  allowed = refl;
  built = list_keys;
  message = request;
  builds = builds_lem;
  waiting = waiting;
  sent = w;
  writes = writes_lem request w;
}

abbrev sends_to_callback : (w : Bytes) → Sends net proto ListKeys.api conn list_keys_to_callback w
sends_to_callback w = record {
  idle = refl;
  allowed = refl;
  built = list_keys_to_callback;
  message = request;
  builds = builds_to_callback_lem;
  waiting = waiting;
  sent = w;
  writes = writes_lem request w;
}

-- Two frames: the keys 7 and 8, and as the last response the key 9.
abbrev second_frame : Bytes
second_frame = 0 ∷ 0 ∷ 0 ∷ 3 ∷ 18 ∷ 1 ∷ 9 ∷ []

abbrev frames : Bytes
frames = 0 ∷ 0 ∷ 0 ∷ 4 ∷ 18 ∷ 0 ∷ 7 ∷ 8 ∷ second_frame

first_lem : Delivers net 1 5 18 (0 ∷ 7 ∷ 8 ∷ []) frames second_frame
unfolding build_riak_message
first_lem = record {
  fits = omega arith;
  between = 18 ∷ 0 ∷ 7 ∷ 8 ∷ second_frame;
  header = refl;
  body = refl;
}

second_lem : Delivers net 1 5 18 (1 ∷ 9 ∷ []) second_frame []
unfolding build_riak_message
second_lem = record { fits = omega arith; between = 18 ∷ 1 ∷ 9 ∷ []; header = refl; body = refl }

abbrev pages : List RpbListKeysResp
pages = page (0 ∷ 7 ∷ 8 ∷ []) ∷ page (1 ∷ 9 ∷ []) ∷ []

feeds_lem :
    Feeds net proto 1 5 18
      (rpb_list_keys_resp new_rpb_list_keys_resp)
      (map rpb_list_keys_resp pages)
      frames
      []
feeds_lem = feed 0 (7 ∷ 8 ∷ []) refl first_lem (feed 1 (9 ∷ []) refl second_lem (silent refl))

execute_list_keys_example :
    Returns net proto
      (sends frames)
      2
      (holding list_keys ((7 ∷ []) ∷ (8 ∷ []) ∷ (9 ∷ []) ∷ []) true)
      none
      []
execute_list_keys_example =
    execute_list_keys net proto pages 1 conn list_keys frames [] (sends frames) 1
      (refl, refl, feeds_lem) refl (refl, refl) (omega arith)

execute_stream_example :
    Returns net proto
      (sends frames)
      2
      (holding list_keys ((7 ∷ []) ∷ (8 ∷ []) ∷ (9 ∷ []) ∷ []) true)
      none
      []
execute_stream_example =
    execute_stream net proto ListKeys.api (map rpb_list_keys_resp pages) 1 conn list_keys
      (holding list_keys ((7 ∷ []) ∷ (8 ∷ []) ∷ (9 ∷ []) ∷ []) true) none frames [] (sends frames) 1
      list_keys-IsSteady refl refl (omega arith)
      (Consumes-holding list_keys pages refl (refl, refl)) feeds_lem

execute_streaming_example :
    Returns net proto
      (sends_to_callback frames)
      2
      (telling list_keys_to_callback (((7 ∷ []) ∷ (8 ∷ []) ∷ []) ∷ ((9 ∷ []) ∷ []) ∷ []) true)
      none
      []
execute_streaming_example =
    execute_streaming net proto pages 1 conn list_keys_to_callback until_three frames []
      (sends_to_callback frames) 1 (refl, refl, feeds_lem) refl refl (refl, (refl, tt)) (refl, refl)
      (omega arith)
