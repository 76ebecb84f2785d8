-- ===== src/Kv/StoringExamples.antt =====
-- kv_commands.go: examples of storing and fetching.
use riak_go_client.Prelude.{
  ◌≡◌, refl, sym, false, none, some, inr, [], ◌∷◌, ok, panic, nil_dereference,
}
use riak_go_client.Command.Building.{succeeded, new_impl}
use riak_go_client.Object.{Object, to_rpb_content, validate_locatable}
use riak_go_client.Rpb.{rpb_get_resp, rpb_put_req}
use riak_go_client.Rpb.Fields.{get_bytes, validate}
use riak_go_client.Rpb.Kv.{RpbGetReq, new_rpb_get_req, new_rpb_get_resp, new_rpb_put_req}
use riak_go_client.Connection.Execute.{execute}
use riak_go_client.Connection.Examples.{net, conn}
use riak_go_client.Kv.FetchValue
use riak_go_client.Kv.StoreValue
use riak_go_client.Kv.StoreValue.{StoreValueCommand}
use riak_go_client.Kv.FetchValue.{FetchValueCommand}
use riak_go_client.Kv.Storing.{put_of, restored, fetch-store, execute_no_content}
use riak_go_client.Kv.Examples.{proto}

abbrev stored : Object
stored = record {
  bucket_type = 116 ∷ [];
  bucket = 98 ∷ [];
  key = 107 ∷ [];
  is_tombstone = false;
  value = 104 ∷ 105 ∷ [];
  content_type = 116 ∷ [];
  charset = [];
  content_encoding = [];
  v_tag = 9 ∷ [];
  last_modified = (7, 8);
  user_meta = [];
  indexes = (1 ∷ [], (3 ∷ []) ∷ (4 ∷ []) ∷ []) ∷ [];
  links = [];
  v_clock = some (6 ∷ []);
}

abbrev store : StoreValueCommand
store = record {
  impl = new_impl;
  timeout = 0;
  last_node = none;
  response = none;
  value = some stored;
  protobuf = record new_rpb_put_req { bucket = some (97 ∷ []); type = some (116 ∷ []) };
  resolver = none;
}

-- What `fetch` asks for is where `stored` says that it lies, not what `store` was told.
abbrev asked : RpbGetReq
asked = record new_rpb_get_req {
  bucket = some (98 ∷ []);
  type = some (116 ∷ []);
  key = some (107 ∷ []);
}

abbrev fetch : FetchValueCommand
fetch = record {
  impl = new_impl;
  timeout = 0;
  last_node = none;
  response = none;
  protobuf = asked;
  resolver = none;
}

overwrites_lem :
    (get_bytes (put_of store stored).type ≡ 116 ∷ [])
    × (get_bytes (put_of store stored).bucket ≡ 98 ∷ [])
    × (get_bytes (put_of store stored).key ≡ 107 ∷ [])
unfolding StoreValue.set_protobuf_from_value
overwrites_lem = (refl, refl, refl)

fetch-store_example :
    (StoreValue.construct_pb_request store
      ≡ ok (
        record store { protobuf = put_of store stored },
        inr (some (rpb_put_req (put_of store stored))),
      ))
    × (FetchValue.on_success fetch (
          some (
            rpb_get_resp (record new_rpb_get_resp {
              content = to_rpb_content stored ∷ [];
              vclock = some (5 ∷ []);
            })))
        ≡ ok (
          record fetch {
            impl = succeeded new_impl;
            response = some (record {
              is_not_found = false;
              is_unchanged = false;
              v_clock = some (5 ∷ []);
              values = restored stored (some (5 ∷ [])) ∷ [];
            });
          },
          none,
        ))
fetch-store_example =
    let (t, b, k) = overwrites_lem in
    fetch-store store fetch stored (some (5 ∷ [])) refl
      (record { typed = refl; in_bucket = refl; keyed = refl }) (tt, tt) refl (sym t, sym b, sym k)

-- A StoreValue to which only its place was given.
abbrev without_content : StoreValue.StoreValueCommandBuilder
without_content = record StoreValue.new_store_value_command_builder {
  protobuf = record new_rpb_put_req { bucket = some (97 ∷ []); type = some (116 ∷ []) };
}

abbrev without_value : StoreValueCommand
without_value = record store { value = none }

build_without_content_lem : StoreValue.build without_content ≡ inr without_value
unfolding StoreValue.build validate validate_locatable
build_without_content_lem = refl

execute_no_content_example :
    execute net proto StoreValue.api 1 conn without_value [] ≡ panic nil_dereference
execute_no_content_example =
    execute_no_content net proto 1 without_content without_value conn [] refl
      build_without_content_lem refl
