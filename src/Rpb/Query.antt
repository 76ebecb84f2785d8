-- ===== src/Rpb/Query.antt =====
-- rpb/riak_kv: the messages of the listing and query commands, and of the old counters, and where
-- their methods say that each request lies.
use riak_go_client.Prelude.{ℕ, Bool, true, false, Option, none, some, List, []}
use riak_go_client.Object.{Bytes, Pair}
use riak_go_client.Rpb.Fields.{RpbLocatable, get_bytes}

pub data IndexQueryType : Type 0 where
  eq range : IndexQueryType

pub record RpbListBucketsReq : Type 0 where
  pub timeout : Option ℕ
  pub stream : Option Bool
  pub type : Option Bytes

abbrev pub new_rpb_list_buckets_req : RpbListBucketsReq
new_rpb_list_buckets_req = record { timeout = none; stream = none; type = none }

instance abbrev pub rpb_list_buckets_req_locatable : RpbLocatable RpbListBucketsReq
rpb_list_buckets_req_locatable = record {
  location = λ m. record {
    bucket_type = get_bytes m.type;
    bucket_is_required = false;
    bucket = [];
    key_is_required = false;
    key = [];
  };
  set_type = λ bt m. record m { type = some bt };
}

pub record RpbListBucketsResp : Type 0 where
  pub buckets : List Bytes
  pub done : Option Bool

abbrev pub new_rpb_list_buckets_resp : RpbListBucketsResp
new_rpb_list_buckets_resp = record { buckets = []; done = none }

pub record RpbListKeysReq : Type 0 where
  pub bucket : Option Bytes
  pub timeout : Option ℕ
  pub type : Option Bytes

abbrev pub new_rpb_list_keys_req : RpbListKeysReq
new_rpb_list_keys_req = record { bucket = none; timeout = none; type = none }

instance abbrev pub rpb_list_keys_req_locatable : RpbLocatable RpbListKeysReq
rpb_list_keys_req_locatable = record {
  location = λ m. record {
    bucket_type = get_bytes m.type;
    bucket_is_required = true;
    bucket = get_bytes m.bucket;
    key_is_required = false;
    key = [];
  };
  set_type = λ bt m. record m { type = some bt };
}

pub record RpbListKeysResp : Type 0 where
  pub keys : List Bytes
  pub done : Option Bool

abbrev pub new_rpb_list_keys_resp : RpbListKeysResp
new_rpb_list_keys_resp = record { keys = []; done = none }

pub record RpbGetBucketKeyPreflistReq : Type 0 where
  pub bucket : Option Bytes
  pub key : Option Bytes
  pub type : Option Bytes

abbrev pub new_rpb_get_bucket_key_preflist_req : RpbGetBucketKeyPreflistReq
new_rpb_get_bucket_key_preflist_req = record { bucket = none; key = none; type = none }

instance abbrev pub rpb_get_bucket_key_preflist_req_locatable :
    RpbLocatable RpbGetBucketKeyPreflistReq
rpb_get_bucket_key_preflist_req_locatable = record {
  location = λ m. record {
    bucket_type = get_bytes m.type;
    bucket_is_required = true;
    bucket = get_bytes m.bucket;
    key_is_required = true;
    key = get_bytes m.key;
  };
  set_type = λ bt m. record m { type = some bt };
}

pub record RpbBucketKeyPreflistItem : Type 0 where
  pub partition : Option ℕ
  pub node : Option Bytes
  pub primary : Option Bool

pub record RpbGetBucketKeyPreflistResp : Type 0 where
  pub preflist : List RpbBucketKeyPreflistItem

abbrev pub new_rpb_get_bucket_key_preflist_resp : RpbGetBucketKeyPreflistResp
new_rpb_get_bucket_key_preflist_resp = record { preflist = [] }

pub record RpbIndexReq : Type 0 where
  pub bucket : Option Bytes
  pub index : Option Bytes
  pub qtype : Option IndexQueryType
  pub key : Option Bytes
  pub range_min : Option Bytes
  pub range_max : Option Bytes
  pub return_terms : Option Bool
  pub stream : Option Bool
  pub max_results : Option ℕ
  pub continuation : Option Bytes
  pub timeout : Option ℕ
  pub type : Option Bytes
  pub term_regex : Option Bytes
  pub pagination_sort : Option Bool
  pub cover_context : Option Bytes
  pub return_body : Option Bool

abbrev pub new_rpb_index_req : RpbIndexReq
new_rpb_index_req = record {
  bucket = none;
  index = none;
  qtype = none;
  key = none;
  range_min = none;
  range_max = none;
  return_terms = none;
  stream = none;
  max_results = none;
  continuation = none;
  timeout = none;
  type = none;
  term_regex = none;
  pagination_sort = none;
  cover_context = none;
  return_body = none;
}

instance abbrev pub rpb_index_req_locatable : RpbLocatable RpbIndexReq
rpb_index_req_locatable = record {
  location = λ m. record {
    bucket_type = get_bytes m.type;
    bucket_is_required = true;
    bucket = get_bytes m.bucket;
    key_is_required = false;
    key = get_bytes m.key;
  };
  set_type = λ bt m. record m { type = some bt };
}

pub record RpbIndexResp : Type 0 where
  pub keys : List Bytes
  pub results : List Pair
  pub continuation : Option Bytes
  pub done : Option Bool

abbrev pub new_rpb_index_resp : RpbIndexResp
new_rpb_index_resp = record { keys = []; results = []; continuation = none; done = none }

pub record RpbMapRedReq : Type 0 where
  pub request : Option Bytes
  pub content_type : Option Bytes

abbrev pub new_rpb_map_red_req : RpbMapRedReq
new_rpb_map_red_req = record { request = none; content_type = none }

pub record RpbMapRedResp : Type 0 where
  pub phase : Option ℕ
  pub response : Option Bytes
  pub done : Option Bool

abbrev pub new_rpb_map_red_resp : RpbMapRedResp
new_rpb_map_red_resp = record { phase = none; response = none; done = none }

pub record RpbCounterUpdateReq : Type 0 where
  pub bucket : Option Bytes
  pub key : Option Bytes
  pub amount : Option ℕ
  pub w : Option ℕ
  pub dw : Option ℕ
  pub pw : Option ℕ
  pub returnvalue : Option Bool

abbrev pub new_rpb_counter_update_req : RpbCounterUpdateReq
new_rpb_counter_update_req = record {
  bucket = none;
  key = none;
  amount = none;
  w = none;
  dw = none;
  pw = none;
  returnvalue = none;
}

instance abbrev pub rpb_counter_update_req_locatable : RpbLocatable RpbCounterUpdateReq
rpb_counter_update_req_locatable = record {
  location = λ m. record {
    bucket_type = [];
    bucket_is_required = true;
    bucket = get_bytes m.bucket;
    key_is_required = true;
    key = get_bytes m.key;
  };
  set_type = λ bt m. m;
}

pub record RpbCounterUpdateResp : Type 0 where
  pub value : Option ℕ

abbrev pub new_rpb_counter_update_resp : RpbCounterUpdateResp
new_rpb_counter_update_resp = record { value = none }
