-- ===== src/Kv/NilCallbacks.antt =====
-- kv_commands.go: the panics of streaming commands without a callback, which `Build` rules out.
use riak_go_client.Prelude.{◌≡◌, refl, Option, none, some, inr, List, [], ◌∷◌, arith, ok}
use riak_go_client.Command.Building.{succeeded}
use riak_go_client.Object.{Bytes}
use riak_go_client.Rpb.{rpb_list_keys_resp, rpb_list_buckets_resp, rpb_index_resp, rpb_map_red_resp}
use riak_go_client.Rpb.Fields.{get_bool, get_bytes}
use riak_go_client.Kv.ListKeys
use riak_go_client.Kv.ListBuckets
use riak_go_client.Kv.SecondaryIndexQuery
use riak_go_client.Kv.MapReduce
use riak_go_client.Kv.Events.{
  Event, response, failure, retry, happens, Survives, survives, Calls, Yields, streamed,
  happens_lem,
}

abbrev ListKeysSafe : ListKeys.ListKeysCommand → Type 0
ListKeysSafe k = Calls k.streaming k.callback

list_keys_collects :
    (k : ListKeys.ListKeysCommand) (keys : List Bytes)
    → ListKeysSafe k
    → Yields ListKeysSafe (ListKeys.collect k keys)
unfolding ListKeys.collect
list_keys_collects k [] h = ((k, none), refl, h)
list_keys_collects k (x ∷ xs) h =
    streamed ListKeysSafe k.streaming k.callback k.calls (x ∷ xs) _ _ _ h (λ cs. h) (λ cs. h)
      ((_, none), refl, h)

list_keys_safe :
    (k : ListKeys.ListKeysCommand) (x : Event)
    → ListKeysSafe k
    → (k' : ListKeys.ListKeysCommand) × (happens ListKeys.api k x ≡ ok k') × ListKeysSafe k'
unfolding ListKeys.on_success
list_keys_safe k (response none) h = (_, refl, h)
list_keys_safe k (response (some (rpb_list_keys_resp m))) h =
    happens_lem ListKeys.api ListKeysSafe k (some (rpb_list_keys_resp m))
      (list_keys_collects _ m.keys h)
list_keys_safe k (response (some other)) h = (_, refl, h)
list_keys_safe k (failure e) h = (_, refl, h)
list_keys_safe k retry h = (_, refl, h)

abbrev ListBucketsSafe : ListBuckets.ListBucketsCommand → Type 0
ListBucketsSafe k = Calls (get_bool k.protobuf.stream) k.callback

list_buckets_collects :
    (k : ListBuckets.ListBucketsCommand) (keys : List Bytes)
    → ListBucketsSafe k
    → Yields ListBucketsSafe (ListBuckets.collect k keys)
unfolding ListBuckets.collect
list_buckets_collects k [] h = ((k, none), refl, h)
list_buckets_collects k (x ∷ xs) h =
    streamed ListBucketsSafe (get_bool k.protobuf.stream) k.callback k.calls (x ∷ xs) _ _ _ h
      (λ cs. h) (λ cs. h) ((_, none), refl, h)

list_buckets_safe :
    (k : ListBuckets.ListBucketsCommand) (x : Event)
    → ListBucketsSafe k
    → (k' : ListBuckets.ListBucketsCommand) × (happens ListBuckets.api k x ≡ ok k')
      × ListBucketsSafe k'
unfolding ListBuckets.on_success
list_buckets_safe k (response none) h = (_, refl, h)
list_buckets_safe k (response (some (rpb_list_buckets_resp m))) h =
    happens_lem ListBuckets.api ListBucketsSafe k (some (rpb_list_buckets_resp m))
      (list_buckets_collects _ m.buckets h)
list_buckets_safe k (response (some other)) h = (_, refl, h)
list_buckets_safe k (failure e) h = (_, refl, h)
list_buckets_safe k retry h = (_, refl, h)

abbrev SecondaryIndexQuerySafe : SecondaryIndexQuery.SecondaryIndexQueryCommand → Type 0
SecondaryIndexQuerySafe k = Calls (get_bool k.protobuf.stream) k.callback

index_query_collects :
    (k : SecondaryIndexQuery.SecondaryIndexQueryCommand) (cont : Option Bytes)
    (rs : List SecondaryIndexQuery.SecondaryIndexQueryResult)
    → SecondaryIndexQuerySafe k
    → Yields SecondaryIndexQuerySafe (SecondaryIndexQuery.collect k cont rs)
unfolding SecondaryIndexQuery.collect
index_query_collects k cont rs h =
    streamed SecondaryIndexQuerySafe (get_bool k.protobuf.stream) k.callback k.calls rs _ _ _ h
      (λ cs. h) (λ cs. h) ((_, none), refl, h)

index_query_safe :
    (k : SecondaryIndexQuery.SecondaryIndexQueryCommand) (x : Event)
    → SecondaryIndexQuerySafe k
    → (k' : SecondaryIndexQuery.SecondaryIndexQueryCommand) × (happens SecondaryIndexQuery.api k x
        ≡ ok k')
      × SecondaryIndexQuerySafe k'
unfolding SecondaryIndexQuery.on_success
index_query_safe k (response none) h = (_, refl, h)
index_query_safe k (response (some (rpb_index_resp m))) h =
    happens_lem SecondaryIndexQuery.api SecondaryIndexQuerySafe k (some (rpb_index_resp m)) (
      index_query_collects (record k { impl = succeeded k.impl; done = get_bool m.done })
        m.continuation (SecondaryIndexQuery.results_of k.protobuf m.results m.keys) h)
index_query_safe k (response (some other)) h = (_, refl, h)
index_query_safe k (failure e) h = (_, refl, h)
index_query_safe k retry h = (_, refl, h)

abbrev MapReduceSafe : MapReduce.MapReduceCommand → Type 0
MapReduceSafe k = Calls k.streaming k.callback

map_reduce_collects :
    (k : MapReduce.MapReduceCommand) (r : Bytes)
    → MapReduceSafe k
    → Yields MapReduceSafe (MapReduce.collect k r)
unfolding MapReduce.collect
map_reduce_collects k r h =
    streamed MapReduceSafe k.streaming k.callback k.calls r _ _ _ h (λ cs. h) (λ cs. h)
      ((_, none), refl, h)

map_reduce_safe :
    (k : MapReduce.MapReduceCommand) (x : Event)
    → MapReduceSafe k
    → (k' : MapReduce.MapReduceCommand) × (happens MapReduce.api k x ≡ ok k') × MapReduceSafe k'
unfolding MapReduce.on_success
map_reduce_safe k (response none) h = (_, refl, h)
map_reduce_safe k (response (some (rpb_map_red_resp m))) h =
    happens_lem MapReduce.api MapReduceSafe k (some (rpb_map_red_resp m))
      (map_reduce_collects _ (get_bytes m.response) h)
map_reduce_safe k (response (some other)) h = (_, refl, h)
map_reduce_safe k (failure e) h = (_, refl, h)
map_reduce_safe k retry h = (_, refl, h)

list_keys_built :
    (b : ListKeys.ListKeysCommandBuilder) (k : ListKeys.ListKeysCommand)
    → ListKeys.build b ≡ inr k
    → ListKeysSafe k
unfolding ListKeys.build
list_keys_built b k e = ground arith

list_buckets_built :
    (b : ListBuckets.ListBucketsCommandBuilder) (k : ListBuckets.ListBucketsCommand)
    → ListBuckets.build b ≡ inr k
    → ListBucketsSafe k
unfolding ListBuckets.build
list_buckets_built b k e = ground arith

index_query_built :
    (b : SecondaryIndexQuery.SecondaryIndexQueryCommandBuilder)
    (k : SecondaryIndexQuery.SecondaryIndexQueryCommand)
    → SecondaryIndexQuery.build b ≡ inr k
    → SecondaryIndexQuerySafe k
unfolding SecondaryIndexQuery.build
index_query_built b k e = ground arith

map_reduce_built :
    (b : MapReduce.MapReduceCommandBuilder) (k : MapReduce.MapReduceCommand)
    → MapReduce.build b ≡ inr k
    → MapReduceSafe k
unfolding MapReduce.build
map_reduce_built b k e = ground arith

-- A command of the four that may stream, as `Build` returns it, does not panic at whatever
-- responses, errors and retries happen to it, in any order: where it streams, it has a callback.
pub build-Survives :
    (xs : List Event) (lk : ListKeys.ListKeysCommandBuilder) (k : ListKeys.ListKeysCommand)
    (lb : ListBuckets.ListBucketsCommandBuilder) (b : ListBuckets.ListBucketsCommand)
    (si : SecondaryIndexQuery.SecondaryIndexQueryCommandBuilder)
    (q : SecondaryIndexQuery.SecondaryIndexQueryCommand) (mr : MapReduce.MapReduceCommandBuilder)
    (m : MapReduce.MapReduceCommand)
    → ListKeys.build lk ≡ inr k
    → ListBuckets.build lb ≡ inr b
    → SecondaryIndexQuery.build si ≡ inr q
    → MapReduce.build mr ≡ inr m
    → Survives ListKeys.api k xs
      × Survives ListBuckets.api b xs
      × Survives SecondaryIndexQuery.api q xs
      × Survives MapReduce.api m xs
build-Survives xs lk k lb b si q mr m e f g h = (
  survives ListKeys.api list_keys_safe k xs (list_keys_built lk k e),
  survives ListBuckets.api list_buckets_safe b xs (list_buckets_built lb b f),
  survives SecondaryIndexQuery.api index_query_safe q xs (index_query_built si q g),
  survives MapReduce.api map_reduce_safe m xs (map_reduce_built mr m h),
)
