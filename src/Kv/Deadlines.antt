-- ===== src/Kv/Deadlines.antt =====
-- kv_commands.go: `WithTimeout`, what the server is told of it and how long the connection waits.
use riak_go_client.Prelude.{ℕ, ◌*◌, ◌/◌, ◌%◌, ◌≤◌, ◌≡◌, refl, Option, some, ◌⊎◌, inl, inr, arith}
use riak_go_client.Errors.{Error}
use riak_go_client.Config.{millisecond}
use riak_go_client.Command.Building.{milliseconds}
use riak_go_client.Connection.Execute.{request_timeout}
use riak_go_client.Rpb.Fields.{validate}
use riak_go_client.Kv.FetchValue
use riak_go_client.Kv.StoreValue
use riak_go_client.Kv.DeleteValue
use riak_go_client.Kv.ListKeys
use riak_go_client.Kv.SecondaryIndexQuery
use riak_go_client.Kv.ListBuckets

-- A duration in whole milliseconds, as 32 bits hold it.
abbrev pub whole : ℕ → ℕ
whole t = t / millisecond % 4294967296

-- The server is told the whole milliseconds, and no more than the connection waits for, whose own
-- timeout is `own`.
abbrev pub Heeded : ℕ → ℕ → Option ℕ → Option ℕ → Type 0
Heeded own t told waits =
    (told ≡ some (whole t)) × (whole t * millisecond ≤ request_timeout own waits)

-- The server is told the whole milliseconds, and the connection waits for its own timeout only.
abbrev pub Unheeded : ℕ → ℕ → Option ℕ → Option ℕ → Type 0
Unheeded own t told waits = (told ≡ some (whole t)) × (request_timeout own waits ≡ own)

-- What holds of the command, where one is built.
abbrev pub OfBuilt : {K : Type 0} → (K → Type 0) → Error ⊎ K → Type 0
OfBuilt P (inl e) = Unit
OfBuilt P (inr k) = P k

of_built : {K : Type 0} (P : K → Type 0) (x : Error ⊎ K) → ((k : K) → x ≡ inr k → P k) → OfBuilt P x
of_built P (inl e) h = tt
of_built P (inr k) h = h k refl

fetch_built :
    (own t : ℕ) (b : FetchValue.FetchValueCommandBuilder) (k : FetchValue.FetchValueCommand)
    → FetchValue.build (FetchValue.with_timeout t b) ≡ inr k
    → Heeded own t k.protobuf.timeout (FetchValue.api.get_timeout k)
unfolding FetchValue.build FetchValue.with_timeout validate milliseconds
fetch_built own t b k e = (ground arith, ground arith)

store_built :
    (own t : ℕ) (b : StoreValue.StoreValueCommandBuilder) (k : StoreValue.StoreValueCommand)
    → StoreValue.build (StoreValue.with_timeout t b) ≡ inr k
    → Heeded own t k.protobuf.timeout (StoreValue.api.get_timeout k)
unfolding StoreValue.build StoreValue.with_timeout validate milliseconds
store_built own t b k e = (ground arith, ground arith)

delete_built :
    (own t : ℕ) (b : DeleteValue.DeleteValueCommandBuilder) (k : DeleteValue.DeleteValueCommand)
    → DeleteValue.build (DeleteValue.with_timeout t b) ≡ inr k
    → Heeded own t k.protobuf.timeout (DeleteValue.api.get_timeout k)
unfolding DeleteValue.build DeleteValue.with_timeout validate milliseconds
delete_built own t b k e = (ground arith, ground arith)

list_keys_built :
    (own t : ℕ) (b : ListKeys.ListKeysCommandBuilder) (k : ListKeys.ListKeysCommand)
    → ListKeys.build (ListKeys.with_timeout t b) ≡ inr k
    → Heeded own t k.protobuf.timeout (ListKeys.api.get_timeout k)
unfolding ListKeys.build ListKeys.with_timeout validate milliseconds
list_keys_built own t b k e = (ground arith, ground arith)

index_query_built :
    (own t : ℕ) (b : SecondaryIndexQuery.SecondaryIndexQueryCommandBuilder)
    (k : SecondaryIndexQuery.SecondaryIndexQueryCommand)
    → SecondaryIndexQuery.build (SecondaryIndexQuery.with_timeout t b) ≡ inr k
    → Heeded own t k.protobuf.timeout (SecondaryIndexQuery.api.get_timeout k)
unfolding SecondaryIndexQuery.build SecondaryIndexQuery.with_timeout validate milliseconds
index_query_built own t b k e = (ground arith, ground arith)

list_buckets_built :
    (own t : ℕ) (b : ListBuckets.ListBucketsCommandBuilder) (k : ListBuckets.ListBucketsCommand)
    → ListBuckets.build (ListBuckets.with_timeout t b) ≡ inr k
    → Unheeded own t k.protobuf.timeout (ListBuckets.api.get_timeout k)
unfolding ListBuckets.build ListBuckets.with_timeout validate milliseconds
list_buckets_built own t b k e = (ground arith, ground arith)

-- `WithTimeout` on the builders of FetchValue, StoreValue, DeleteValue, ListKeys and
-- SecondaryIndexQuery, with a timeout that is not negative: where `Build` then accepts, the message
-- tells the server the whole milliseconds of it, modulo 2 ^ 32, and the connection waits for at least
-- that long, whatever its own timeout is. For ListBuckets the server is told the same, but the
-- connection waits for its own timeout only.
pub build-OfBuilt :
    (own t : ℕ) (f : FetchValue.FetchValueCommandBuilder) (s : StoreValue.StoreValueCommandBuilder)
    (d : DeleteValue.DeleteValueCommandBuilder) (l : ListKeys.ListKeysCommandBuilder)
    (q : SecondaryIndexQuery.SecondaryIndexQueryCommandBuilder)
    (b : ListBuckets.ListBucketsCommandBuilder)
    → OfBuilt
        (λ k. Heeded own t k.protobuf.timeout (FetchValue.api.get_timeout k))
        (FetchValue.build (FetchValue.with_timeout t f))
      × OfBuilt
          (λ k. Heeded own t k.protobuf.timeout (StoreValue.api.get_timeout k))
          (StoreValue.build (StoreValue.with_timeout t s))
      × OfBuilt
          (λ k. Heeded own t k.protobuf.timeout (DeleteValue.api.get_timeout k))
          (DeleteValue.build (DeleteValue.with_timeout t d))
      × OfBuilt
          (λ k. Heeded own t k.protobuf.timeout (ListKeys.api.get_timeout k))
          (ListKeys.build (ListKeys.with_timeout t l))
      × OfBuilt
          (λ k. Heeded own t k.protobuf.timeout (SecondaryIndexQuery.api.get_timeout k))
          (SecondaryIndexQuery.build (SecondaryIndexQuery.with_timeout t q))
      × OfBuilt
          (λ k. Unheeded own t k.protobuf.timeout (ListBuckets.api.get_timeout k))
          (ListBuckets.build (ListBuckets.with_timeout t b))
build-OfBuilt own t f s d l q b = (
  of_built _ (FetchValue.build (FetchValue.with_timeout t f)) (fetch_built own t f),
  of_built _ (StoreValue.build (StoreValue.with_timeout t s)) (store_built own t s),
  of_built _ (DeleteValue.build (DeleteValue.with_timeout t d)) (delete_built own t d),
  of_built _ (ListKeys.build (ListKeys.with_timeout t l)) (list_keys_built own t l),
  of_built _ (SecondaryIndexQuery.build (SecondaryIndexQuery.with_timeout t q))
      (index_query_built own t q),
  of_built _ (ListBuckets.build (ListBuckets.with_timeout t b)) (list_buckets_built own t b),
)
