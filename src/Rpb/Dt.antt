-- ===== src/Rpb/Dt.antt =====
-- rpb/riak_dt: the messages of the CRDT commands, and where their methods say that each request
-- lies. Required fields are always there. A 64-bit number is the natural number of its bits.
use riak_go_client.Prelude.{ℕ, Bool, true, false, Option, none, some, List, []}
use riak_go_client.Object.{Bytes}
use riak_go_client.Rpb.Fields.{RpbLocatable, get_bytes}

pub data MapFieldType : Type 0 where
  counter_field set_field register_field flag_field map_field : MapFieldType

pub data DataType : Type 0 where
  counter_type set_type map_type hll_type gset_type : DataType

pub data FlagOp : Type 0 where
  enable disable : FlagOp

pub record MapField : Type 0 where
  pub name : Bytes
  pub type : MapFieldType

-- An entry has its field, and the value of each kind that it may hold.
mutual
  pub data MapEntry : Type 0 where
    entry : MapField → Option ℕ → List Bytes → Option Bytes → Option Bool → MapEntries → MapEntry

  pub data MapEntries : Type 0 where
    nil : MapEntries
    cons : MapEntry → MapEntries → MapEntries

pub record CounterOp : Type 0 where
  pub increment : Option ℕ

pub record SetOp : Type 0 where
  pub adds : List Bytes
  pub removes : List Bytes

-- A MapOp has its removes and updates; an update has its field and the operation of each kind.
mutual
  pub data MapOp : Type 0 where
    map_op : List MapField → MapUpdates → MapOp

  pub data MapUpdate : Type 0 where
    update_counter : MapField → CounterOp → MapUpdate
    update_set : MapField → SetOp → MapUpdate
    update_register : MapField → Option Bytes → MapUpdate
    update_flag : MapField → FlagOp → MapUpdate
    update_map : MapField → MapOp → MapUpdate

  pub data MapUpdates : Type 0 where
    no_updates : MapUpdates
    more_updates : MapUpdate → MapUpdates → MapUpdates

pub record HllOp : Type 0 where
  pub adds : List Bytes

pub record GSetOp : Type 0 where
  pub adds : List Bytes

pub record DtOp : Type 0 where
  pub counter_op : Option CounterOp
  pub set_op : Option SetOp
  pub map_op : Option MapOp
  pub hll_op : Option HllOp
  pub gset_op : Option GSetOp

abbrev pub new_dt_op : DtOp
new_dt_op = record {
  counter_op = none;
  set_op = none;
  map_op = none;
  hll_op = none;
  gset_op = none;
}

pub record DtUpdateReq : Type 0 where
  pub bucket : Option Bytes
  pub key : Option Bytes
  pub type : Option Bytes
  pub context : Option Bytes
  pub op : Option DtOp
  pub w : Option ℕ
  pub dw : Option ℕ
  pub pw : Option ℕ
  pub return_body : Option Bool
  pub timeout : Option ℕ
  pub sloppy_quorum : Option Bool
  pub n_val : Option ℕ
  pub include_context : Option Bool

abbrev pub new_dt_update_req : DtUpdateReq
new_dt_update_req = record {
  bucket = none;
  key = none;
  type = none;
  context = none;
  op = none;
  w = none;
  dw = none;
  pw = none;
  return_body = none;
  timeout = none;
  sloppy_quorum = none;
  n_val = none;
  include_context = none;
}

instance abbrev pub dt_update_req_locatable : RpbLocatable DtUpdateReq
dt_update_req_locatable = record {
  location = λ m. record {
    bucket_type = get_bytes m.type;
    bucket_is_required = true;
    bucket = get_bytes m.bucket;
    key_is_required = false;
    key = get_bytes m.key;
  };
  set_type = λ bt m. record m { type = some bt };
}

pub record DtUpdateResp : Type 0 where
  pub key : Option Bytes
  pub context : Option Bytes
  pub counter_value : Option ℕ
  pub set_value : List Bytes
  pub map_value : MapEntries
  pub hll_value : Option ℕ
  pub gset_value : List Bytes

abbrev pub new_dt_update_resp : DtUpdateResp
new_dt_update_resp = record {
  key = none;
  context = none;
  counter_value = none;
  set_value = [];
  map_value = nil;
  hll_value = none;
  gset_value = [];
}

pub record DtFetchReq : Type 0 where
  pub bucket : Option Bytes
  pub key : Option Bytes
  pub type : Option Bytes
  pub r : Option ℕ
  pub pr : Option ℕ
  pub basic_quorum : Option Bool
  pub notfound_ok : Option Bool
  pub timeout : Option ℕ
  pub sloppy_quorum : Option Bool
  pub n_val : Option ℕ
  pub include_context : Option Bool

abbrev pub new_dt_fetch_req : DtFetchReq
new_dt_fetch_req = record {
  bucket = none;
  key = none;
  type = none;
  r = none;
  pr = none;
  basic_quorum = none;
  notfound_ok = none;
  timeout = none;
  sloppy_quorum = none;
  n_val = none;
  include_context = none;
}

instance abbrev pub dt_fetch_req_locatable : RpbLocatable DtFetchReq
dt_fetch_req_locatable = record {
  location = λ m. record {
    bucket_type = get_bytes m.type;
    bucket_is_required = true;
    bucket = get_bytes m.bucket;
    key_is_required = true;
    key = get_bytes m.key;
  };
  set_type = λ bt m. record m { type = some bt };
}

pub record DtValue : Type 0 where
  pub counter_value : Option ℕ
  pub set_value : List Bytes
  pub map_value : MapEntries
  pub hll_value : Option ℕ
  pub gset_value : List Bytes

pub record DtFetchResp : Type 0 where
  pub context : Option Bytes
  pub type : DataType
  pub value : Option DtValue

abbrev pub new_dt_fetch_resp : DtFetchResp
new_dt_fetch_resp = record { context = none; type = counter_type; value = none }
