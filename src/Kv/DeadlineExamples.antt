-- ===== src/Kv/DeadlineExamples.antt =====
-- kv_commands.go: an example of `WithTimeout`.
use riak_go_client.Object.{validate_locatable}
use riak_go_client.Rpb.Fields.{validate}
use riak_go_client.Command.Building.{milliseconds}
use riak_go_client.Prelude.{inr, some, true, [], ◌∷◌, ◌≡◌, refl}
use riak_go_client.Kv.Deadlines.{OfBuilt, Heeded, Unheeded, build-OfBuilt}
use riak_go_client.Kv.FetchValue
use riak_go_client.Kv.StoreValue
use riak_go_client.Kv.DeleteValue
use riak_go_client.Kv.ListKeys
use riak_go_client.Kv.SecondaryIndexQuery
use riak_go_client.Kv.ListBuckets

abbrev fetch : FetchValue.FetchValueCommandBuilder
fetch = record FetchValue.new_fetch_value_command_builder {
  protobuf = record FetchValue.new_fetch_value_command_builder.protobuf {
    bucket = some (98 ∷ []);
    key = some (107 ∷ []);
  };
}

abbrev store : StoreValue.StoreValueCommandBuilder
store = record StoreValue.new_store_value_command_builder {
  protobuf = record StoreValue.new_store_value_command_builder.protobuf { bucket = some (98 ∷ []) };
}

abbrev delete : DeleteValue.DeleteValueCommandBuilder
delete = record DeleteValue.new_delete_value_command_builder {
  protobuf = record DeleteValue.new_delete_value_command_builder.protobuf {
    bucket = some (98 ∷ []);
    key = some (107 ∷ []);
  };
}

abbrev list_keys : ListKeys.ListKeysCommandBuilder
list_keys = record ListKeys.new_list_keys_command_builder {
  allow_listing = true;
  protobuf = record ListKeys.new_list_keys_command_builder.protobuf { bucket = some (98 ∷ []) };
}

abbrev index_query : SecondaryIndexQuery.SecondaryIndexQueryCommandBuilder
index_query = record SecondaryIndexQuery.new_secondary_index_query_command_builder {
  protobuf = record SecondaryIndexQuery.new_secondary_index_query_command_builder.protobuf {
    bucket = some (98 ∷ []);
    key = some (107 ∷ []);
  };
}

abbrev list_buckets : ListBuckets.ListBucketsCommandBuilder
list_buckets = record ListBuckets.new_list_buckets_command_builder { allow_listing = true }

-- 1500 milliseconds and a bit; the connection's own timeout is a second.
build-OfBuilt_example :
    OfBuilt
      (λ k. Heeded 1000000000 1500000007 k.protobuf.timeout (FetchValue.api.get_timeout k))
      (FetchValue.build (FetchValue.with_timeout 1500000007 fetch))
    × OfBuilt
        (λ k. Heeded 1000000000 1500000007 k.protobuf.timeout (StoreValue.api.get_timeout k))
        (StoreValue.build (StoreValue.with_timeout 1500000007 store))
    × OfBuilt
        (λ k. Heeded 1000000000 1500000007 k.protobuf.timeout (DeleteValue.api.get_timeout k))
        (DeleteValue.build (DeleteValue.with_timeout 1500000007 delete))
    × OfBuilt
        (λ k. Heeded 1000000000 1500000007 k.protobuf.timeout (ListKeys.api.get_timeout k))
        (ListKeys.build (ListKeys.with_timeout 1500000007 list_keys))
    × OfBuilt
        (λ k.
          Heeded 1000000000 1500000007 k.protobuf.timeout (SecondaryIndexQuery.api.get_timeout k))
        (SecondaryIndexQuery.build (SecondaryIndexQuery.with_timeout 1500000007 index_query))
    × OfBuilt
        (λ k. Unheeded 1000000000 1500000007 k.protobuf.timeout (ListBuckets.api.get_timeout k))
        (ListBuckets.build (ListBuckets.with_timeout 1500000007 list_buckets))
build-OfBuilt_example =
    build-OfBuilt 1000000000 1500000007 fetch store delete list_keys index_query list_buckets

-- All of these are accepted.
fetch_accepted_test :
    (k : FetchValue.FetchValueCommand) × (FetchValue.build
        (FetchValue.with_timeout 1500000007 fetch)
      ≡ inr k)
unfolding FetchValue.build FetchValue.with_timeout validate validate_locatable milliseconds
fetch_accepted_test = (_, refl)

store_accepted_test :
    (k : StoreValue.StoreValueCommand) × (StoreValue.build
        (StoreValue.with_timeout 1500000007 store)
      ≡ inr k)
unfolding StoreValue.build StoreValue.with_timeout validate validate_locatable milliseconds
store_accepted_test = (_, refl)

list_keys_accepted_test :
    (k : ListKeys.ListKeysCommand) × (ListKeys.build (ListKeys.with_timeout 1500000007 list_keys)
      ≡ inr k)
unfolding ListKeys.build ListKeys.with_timeout validate validate_locatable milliseconds
list_keys_accepted_test = (_, refl)

list_buckets_accepted_test :
    (k : ListBuckets.ListBucketsCommand) × (ListBuckets.build
        (ListBuckets.with_timeout 1500000007 list_buckets)
      ≡ inr k)
unfolding ListBuckets.build ListBuckets.with_timeout validate validate_locatable milliseconds
list_buckets_accepted_test = (_, refl)

index_query_accepted_test :
    (k : SecondaryIndexQuery.SecondaryIndexQueryCommand) × (SecondaryIndexQuery.build
        (SecondaryIndexQuery.with_timeout 1500000007 index_query)
      ≡ inr k)
unfolding SecondaryIndexQuery.build SecondaryIndexQuery.with_timeout validate validate_locatable
    milliseconds
index_query_accepted_test = (_, refl)

delete_accepted_test :
    (k : DeleteValue.DeleteValueCommand) × (DeleteValue.build
        (DeleteValue.with_timeout 1500000007 delete)
      ≡ inr k)
unfolding DeleteValue.build DeleteValue.with_timeout validate validate_locatable milliseconds
delete_accepted_test = (_, refl)
