-- ===== src/Kv/Storing.antt =====
-- kv_commands.go: what StoreValue sends and what FetchValue makes of it; a StoreValue that is sent
-- again, and one that has no content.
use riak_go_client.Prelude.{
  ℕ, ◌≡◌, refl, ap, ◌∙◌, false, Option, none, some, inr, [], ◌∷◌, arith, ok, panic, nil_dereference,
}
use riak_go_client.Command.{ProtoApi, get_riak_message}
use riak_go_client.Command.Building.{succeeded}
use riak_go_client.Object.{Bytes, Object, to_rpb_content, is_empty}
use riak_go_client.Object.Indexes.{Proper}
use riak_go_client.Object.RoundTrip.{from-to_rpb_content}
use riak_go_client.Rpb.{Message, rpb_put_req, rpb_get_resp}
use riak_go_client.Rpb.Fields.{get_bytes}
use riak_go_client.Rpb.Kv.{RpbPutReq, RpbGetReq, new_rpb_get_resp}
use riak_go_client.Connection.{Connection, NetApi}
use riak_go_client.Connection.Execute.{execute}
use riak_go_client.Kv.FetchValue
use riak_go_client.Kv.FetchValue.{FetchValueCommand, located, values_of}
use riak_go_client.Kv.StoreValue
use riak_go_client.Kv.StoreValue.{
  StoreValueCommand, set_protobuf_from_value, overwrite, overwrite_some,
}

-- An object that says where it lies.
pub record IsPlaced (o : Object) : Type 0 where
  pub typed : is_empty o.bucket_type ≡ false
  pub in_bucket : is_empty o.bucket ≡ false
  pub keyed : is_empty o.key ≡ false

-- What a server that stores objects gives back of an object, with the clock that it has made.
abbrev pub restored : Object → Option Bytes → Object
restored o clock = record o {
  is_tombstone = false;
  v_tag = [];
  last_modified = (0, 0);
  v_clock = clock;
}

get_bytes-overwrite :
    (from : Bytes) (to : Option Bytes)
    → is_empty from ≡ false
    → get_bytes (overwrite from to) ≡ from
get_bytes-overwrite [] to h = cc
get_bytes-overwrite (b ∷ bs) to h = refl

-- The request asks for the object's place.
abbrev pub AsksFor : RpbGetReq → RpbPutReq → Type 0
AsksFor get put =
    (get_bytes get.type ≡ get_bytes put.type)
    × (get_bytes get.bucket ≡ get_bytes put.bucket)
    × (get_bytes get.key ≡ get_bytes put.key)

-- The put request of a command for an object.
abbrev pub put_of : StoreValueCommand → Object → RpbPutReq
put_of cmd o = record (set_protobuf_from_value cmd.protobuf o) { content = some (to_rpb_content o) }

-- A StoreValue that holds a value sends its content, to the place that the value names; and a
-- FetchValue without a resolver that asks for that place, and is answered with that content and a
-- clock, returns the value: it has the place, the content, the metadata, the indexes and the links
-- of the value that was stored, where the names of the indexes are distinct and have values, and
-- the clock of the answer.
pub fetch-store :
    (store : StoreValueCommand) (fetch : FetchValueCommand) (o : Object) (clock : Option Bytes)
    → store.value ≡ some o
    → IsPlaced o
    → Proper [] o.indexes
    → fetch.resolver ≡ none
    → AsksFor fetch.protobuf (put_of store o)
    → (StoreValue.construct_pb_request store
        ≡ ok
            (record store { protobuf = put_of store o }, inr (some (rpb_put_req (put_of store o)))))
      × (FetchValue.on_success fetch (
            some (
              rpb_get_resp
                (record new_rpb_get_resp { content = to_rpb_content o ∷ []; vclock = clock })))
          ≡ ok (
            record fetch {
              impl = succeeded fetch.impl;
              response = some (record {
                is_not_found = false;
                is_unchanged = false;
                v_clock = clock;
                values = restored o clock ∷ [];
              });
            },
            none,
          ))
unfolding StoreValue.construct_pb_request FetchValue.on_success set_protobuf_from_value
fetch-store store fetch o clock v p proper r (t, b, k) =
    let content = from-to_rpb_content o proper in
    let t' = t ∙ get_bytes-overwrite o.bucket_type store.protobuf.type p.typed in
    let b' = b ∙ get_bytes-overwrite o.bucket store.protobuf.bucket p.in_bucket in
    let k' = k ∙ get_bytes-overwrite o.key store.protobuf.key p.keyed in
    (rw v refl, rw (r, content, t', b', k') refl)

overwrite-overwrite :
    (from : Bytes) (to : Option Bytes) → overwrite from (overwrite from to) ≡ overwrite from to
overwrite-overwrite [] to = refl
overwrite-overwrite (b ∷ bs) to = refl

overwrite_some-overwrite_some :
    (from to : Option Bytes) → overwrite_some from (overwrite_some from to) ≡ overwrite_some from to
overwrite_some-overwrite_some none to = refl
overwrite_some-overwrite_some (some from) to = refl

put_of-twice :
    (cmd : StoreValueCommand) (o : Object)
    → put_of (record cmd { protobuf = put_of cmd o }) o ≡ put_of cmd o
unfolding set_protobuf_from_value
put_of-twice cmd o = λ i. record (put_of cmd o) {
  vclock = overwrite_some-overwrite_some o.v_clock cmd.protobuf.vclock i;
  type = overwrite-overwrite o.bucket_type cmd.protobuf.type i;
  bucket = overwrite-overwrite o.bucket cmd.protobuf.bucket i;
  key = overwrite-overwrite o.key cmd.protobuf.key i;
}

-- A StoreValue that holds a value and is sent again, as `Cluster.Execute` does where a node has
-- failed, sends the same request again, and the command does not change any more.
pub construct_pb_request-retry :
    (cmd : StoreValueCommand) (o : Object)
    → cmd.value ≡ some o
    → (cmd' : StoreValueCommand) × (m : Message) × (StoreValue.construct_pb_request cmd
        ≡ ok (cmd', inr (some m)))
      × (StoreValue.construct_pb_request cmd' ≡ ok (cmd', inr (some m)))
unfolding StoreValue.construct_pb_request
construct_pb_request-retry cmd o v =
    let same = put_of-twice cmd o in
    (
      record cmd { protobuf = put_of cmd o },
      rpb_put_req (put_of cmd o),
      rw v refl,
      rw v (
          ap (λ p. ok (record cmd { value = some o; protobuf = p }, inr (some (rpb_put_req p))))
            same),
    )

module _ {W : Type 0} (net : NetApi W) (proto : ProtoApi Message) where
  -- `Build` accepts a StoreValue to which no content was given, and `execute` of the command, on a
  -- connection that is not in flight, panics before anything is sent: it reads the clock of a nil
  -- object.
  pub execute_no_content :
      (fuel : ℕ) (b : StoreValue.StoreValueCommandBuilder) (cmd : StoreValueCommand)
      (c : Connection) (w : W)
      → b.value ≡ none
      → StoreValue.build b ≡ inr cmd
      → c.in_flight ≡ false
      → execute net proto StoreValue.api fuel c cmd w ≡ panic nil_dereference
  unfolding execute get_riak_message StoreValue.construct_pb_request StoreValue.build
  execute_no_content fuel b cmd c w v built idle =
      let nothing : cmd.value ≡ none = ground arith in rw (idle, nothing) refl
