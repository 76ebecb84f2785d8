-- ===== src/Kv/CallbackExamples.antt =====
-- kv_commands.go: examples of commands that stream to a callback.
use riak_go_client.Prelude.{◌≡◌, refl, true, false, none, some, inr, List, [], ◌∷◌}
use riak_go_client.Errors.{net_error}
use riak_go_client.Command.Building.{new_impl}
use riak_go_client.Object.{validate_locatable}
use riak_go_client.Rpb.{rpb_list_keys_resp, rpb_list_buckets_resp, rpb_index_resp, rpb_map_red_resp}
use riak_go_client.Rpb.Query.{
  new_rpb_list_buckets_req, new_rpb_list_buckets_resp, new_rpb_index_req, new_rpb_index_resp,
  new_rpb_map_red_req, new_rpb_map_red_resp,
}
use riak_go_client.Rpb.Fields.{validate}
use riak_go_client.Kv.ListKeys
use riak_go_client.Kv.ListBuckets
use riak_go_client.Kv.SecondaryIndexQuery
use riak_go_client.Kv.MapReduce
use riak_go_client.Kv.ListKeys.{ListKeysCommand, ListKeysCommandBuilder}
use riak_go_client.Kv.Events.{Event, response, failure, retry, Survives}
use riak_go_client.Kv.NilCallbacks.{build-Survives}
use riak_go_client.Kv.Examples.{list_keys, until_three, list_keys_to_callback, page}

-- Builders of commands that stream to a callback.
abbrev list_keys_builder : ListKeysCommandBuilder
list_keys_builder = record {
  allow_listing = true;
  timeout = 0;
  protobuf = list_keys.protobuf;
  streaming = true;
  callback = some until_three;
}

list_keys_lem : ListKeys.build list_keys_builder ≡ inr list_keys_to_callback
unfolding ListKeys.build validate validate_locatable
list_keys_lem = refl

abbrev list_buckets_builder : ListBuckets.ListBucketsCommandBuilder
list_buckets_builder = record {
  allow_listing = true;
  callback = some until_three;
  protobuf = record new_rpb_list_buckets_req { stream = some true; type = some (116 ∷ []) };
}

abbrev list_buckets : ListBuckets.ListBucketsCommand
list_buckets = record {
  impl = new_impl;
  allow_listing = true;
  response = none;
  protobuf = list_buckets_builder.protobuf;
  callback = some until_three;
  calls = [];
  done = false;
}

list_buckets_lem : ListBuckets.build list_buckets_builder ≡ inr list_buckets
unfolding ListBuckets.build validate validate_locatable
list_buckets_lem = refl

abbrev index_query_builder : SecondaryIndexQuery.SecondaryIndexQueryCommandBuilder
index_query_builder = record {
  timeout = 0;
  protobuf = record new_rpb_index_req {
    bucket = some (98 ∷ []);
    type = some (116 ∷ []);
    key = some (1 ∷ []);
    stream = some true;
  };
  callback = some (λ calls results. none);
}

abbrev index_query : SecondaryIndexQuery.SecondaryIndexQueryCommand
index_query = record {
  impl = new_impl;
  timeout = 0;
  response = none;
  protobuf = index_query_builder.protobuf;
  callback = some (λ calls results. none);
  calls = [];
  done = false;
}

index_query_lem : SecondaryIndexQuery.build index_query_builder ≡ inr index_query
unfolding SecondaryIndexQuery.build validate validate_locatable
index_query_lem = refl

abbrev map_reduce_builder : MapReduce.MapReduceCommandBuilder
map_reduce_builder = record {
  protobuf = new_rpb_map_red_req;
  streaming = true;
  callback = some (λ calls result. none);
}

abbrev map_reduce : MapReduce.MapReduceCommand
map_reduce = record {
  impl = new_impl;
  response = [];
  protobuf = new_rpb_map_red_req;
  streaming = true;
  callback = some (λ calls result. none);
  calls = [];
  done = false;
}

map_reduce_lem : MapReduce.build map_reduce_builder ≡ inr map_reduce
unfolding MapReduce.build
map_reduce_lem = refl

abbrev events : List Event
events =
    response (some (rpb_list_keys_resp (page (0 ∷ 7 ∷ []))))
    ∷ failure (net_error true)
    ∷ retry
    ∷ response (some (rpb_list_buckets_resp new_rpb_list_buckets_resp))
    ∷ response (some (rpb_index_resp new_rpb_index_resp))
    ∷ response (some (rpb_map_red_resp new_rpb_map_red_resp))
    ∷ response none
    ∷ []

build-Survives_example :
    Survives ListKeys.api list_keys_to_callback events
    × Survives ListBuckets.api list_buckets events
    × Survives SecondaryIndexQuery.api index_query events
    × Survives MapReduce.api map_reduce events
build-Survives_example =
    build-Survives events list_keys_builder list_keys_to_callback list_buckets_builder list_buckets
      index_query_builder index_query map_reduce_builder map_reduce list_keys_lem list_buckets_lem
      index_query_lem map_reduce_lem
