-- ===== src/Rpb/Kv.antt =====
-- rpb/riak_kv: the messages of the key-value commands, and where their methods say that each
-- request lies.
use riak_go_client.Prelude.{ℕ, Bool, true, false, Option, none, some, List, []}
use riak_go_client.Object.{Bytes, RpbContent}
use riak_go_client.Rpb.Fields.{RpbLocatable, get_bytes}

pub record RpbGetReq : Type 0 where
  pub bucket : Option Bytes
  pub key : Option Bytes
  pub r : Option ℕ
  pub pr : Option ℕ
  pub basic_quorum : Option Bool
  pub notfound_ok : Option Bool
  pub if_modified : Option Bytes
  pub head : Option Bool
  pub deletedvclock : Option Bool
  pub timeout : Option ℕ
  pub sloppy_quorum : Option Bool
  pub n_val : Option ℕ
  pub type : Option Bytes

abbrev pub new_rpb_get_req : RpbGetReq
new_rpb_get_req = record {
  bucket = none;
  key = none;
  r = none;
  pr = none;
  basic_quorum = none;
  notfound_ok = none;
  if_modified = none;
  head = none;
  deletedvclock = none;
  timeout = none;
  sloppy_quorum = none;
  n_val = none;
  type = none;
}

instance abbrev pub rpb_get_req_locatable : RpbLocatable RpbGetReq
rpb_get_req_locatable = record {
  location = λ m. record {
    bucket_type = get_bytes m.type;
    bucket_is_required = true;
    bucket = get_bytes m.bucket;
    key_is_required = true;
    key = get_bytes m.key;
  };
  set_type = λ bt m. record m { type = some bt };
}

pub record RpbGetResp : Type 0 where
  pub content : List RpbContent
  pub vclock : Option Bytes
  pub unchanged : Option Bool

abbrev pub new_rpb_get_resp : RpbGetResp
new_rpb_get_resp = record { content = []; vclock = none; unchanged = none }

pub record RpbPutReq : Type 0 where
  pub bucket : Option Bytes
  pub key : Option Bytes
  pub vclock : Option Bytes
  pub content : Option RpbContent
  pub w : Option ℕ
  pub dw : Option ℕ
  pub return_body : Option Bool
  pub pw : Option ℕ
  pub if_not_modified : Option Bool
  pub if_none_match : Option Bool
  pub return_head : Option Bool
  pub timeout : Option ℕ
  pub asis : Option Bool
  pub sloppy_quorum : Option Bool
  pub n_val : Option ℕ
  pub type : Option Bytes

abbrev pub new_rpb_put_req : RpbPutReq
new_rpb_put_req = record {
  bucket = none;
  key = none;
  vclock = none;
  content = none;
  w = none;
  dw = none;
  return_body = none;
  pw = none;
  if_not_modified = none;
  if_none_match = none;
  return_head = none;
  timeout = none;
  asis = none;
  sloppy_quorum = none;
  n_val = none;
  type = none;
}

instance abbrev pub rpb_put_req_locatable : RpbLocatable RpbPutReq
rpb_put_req_locatable = record {
  location = λ m. record {
    bucket_type = get_bytes m.type;
    bucket_is_required = true;
    bucket = get_bytes m.bucket;
    key_is_required = false;
    key = get_bytes m.key;
  };
  set_type = λ bt m. record m { type = some bt };
}

pub record RpbPutResp : Type 0 where
  pub content : List RpbContent
  pub vclock : Option Bytes
  pub key : Option Bytes

abbrev pub new_rpb_put_resp : RpbPutResp
new_rpb_put_resp = record { content = []; vclock = none; key = none }

pub record RpbDelReq : Type 0 where
  pub bucket : Option Bytes
  pub key : Option Bytes
  pub rw : Option ℕ
  pub vclock : Option Bytes
  pub r : Option ℕ
  pub w : Option ℕ
  pub pr : Option ℕ
  pub pw : Option ℕ
  pub dw : Option ℕ
  pub timeout : Option ℕ
  pub sloppy_quorum : Option Bool
  pub n_val : Option ℕ
  pub type : Option Bytes

abbrev pub new_rpb_del_req : RpbDelReq
new_rpb_del_req = record {
  bucket = none;
  key = none;
  rw = none;
  vclock = none;
  r = none;
  w = none;
  pr = none;
  pw = none;
  dw = none;
  timeout = none;
  sloppy_quorum = none;
  n_val = none;
  type = none;
}

instance abbrev pub rpb_del_req_locatable : RpbLocatable RpbDelReq
rpb_del_req_locatable = record {
  location = λ m. record {
    bucket_type = get_bytes m.type;
    bucket_is_required = true;
    bucket = get_bytes m.bucket;
    key_is_required = true;
    key = get_bytes m.key;
  };
  set_type = λ bt m. record m { type = some bt };
}
