-- ===== src/Rpb/Riak.antt =====
-- rpb/riak: the messages of the server and of bucket properties, and where their methods say that
-- each request lies.
use riak_go_client.Prelude.{ℕ, Bool, true, false, Option, none, some, List, []}
use riak_go_client.Object.{Bytes}
use riak_go_client.Rpb.Fields.{RpbLocatable, get_bytes}

pub data RpbReplMode : Type 0 where
  repl_false repl_realtime repl_fullsync repl_true : RpbReplMode

pub record RpbGetServerInfoResp : Type 0 where
  pub node : Option Bytes
  pub server_version : Option Bytes

abbrev pub new_rpb_get_server_info_resp : RpbGetServerInfoResp
new_rpb_get_server_info_resp = record { node = none; server_version = none }

pub record RpbModFun : Type 0 where
  pub module_name : Bytes
  pub function : Bytes

pub record RpbCommitHook : Type 0 where
  pub modfun : Option RpbModFun
  pub name : Option Bytes

pub record RpbBucketProps : Type 0 where
  pub n_val : Option ℕ
  pub allow_mult : Option Bool
  pub last_write_wins : Option Bool
  pub precommit : List RpbCommitHook
  pub has_precommit : Option Bool
  pub postcommit : List RpbCommitHook
  pub has_postcommit : Option Bool
  pub chash_keyfun : Option RpbModFun
  pub linkfun : Option RpbModFun
  pub old_vclock : Option ℕ
  pub young_vclock : Option ℕ
  pub big_vclock : Option ℕ
  pub small_vclock : Option ℕ
  pub pr : Option ℕ
  pub r : Option ℕ
  pub w : Option ℕ
  pub pw : Option ℕ
  pub dw : Option ℕ
  pub rw : Option ℕ
  pub basic_quorum : Option Bool
  pub notfound_ok : Option Bool
  pub backend : Option Bytes
  pub search : Option Bool
  pub repl : Option RpbReplMode
  pub search_index : Option Bytes
  pub datatype : Option Bytes
  pub consistent : Option Bool
  pub write_once : Option Bool
  pub hll_precision : Option ℕ

abbrev pub new_rpb_bucket_props : RpbBucketProps
new_rpb_bucket_props = record {
  n_val = none;
  allow_mult = none;
  last_write_wins = none;
  precommit = [];
  has_precommit = none;
  postcommit = [];
  has_postcommit = none;
  chash_keyfun = none;
  linkfun = none;
  old_vclock = none;
  young_vclock = none;
  big_vclock = none;
  small_vclock = none;
  pr = none;
  r = none;
  w = none;
  pw = none;
  dw = none;
  rw = none;
  basic_quorum = none;
  notfound_ok = none;
  backend = none;
  search = none;
  repl = none;
  search_index = none;
  datatype = none;
  consistent = none;
  write_once = none;
  hll_precision = none;
}

pub record RpbGetBucketTypeReq : Type 0 where
  pub type : Option Bytes

abbrev pub new_rpb_get_bucket_type_req : RpbGetBucketTypeReq
new_rpb_get_bucket_type_req = record { type = none }

instance abbrev pub rpb_get_bucket_type_req_locatable : RpbLocatable RpbGetBucketTypeReq
rpb_get_bucket_type_req_locatable = record {
  location = λ m. record {
    bucket_type = get_bytes m.type;
    bucket_is_required = false;
    bucket = [];
    key_is_required = false;
    key = [];
  };
  set_type = λ bt m. record m { type = some bt };
}

pub record RpbGetBucketReq : Type 0 where
  pub bucket : Option Bytes
  pub type : Option Bytes

abbrev pub new_rpb_get_bucket_req : RpbGetBucketReq
new_rpb_get_bucket_req = record { bucket = none; type = none }

instance abbrev pub rpb_get_bucket_req_locatable : RpbLocatable RpbGetBucketReq
rpb_get_bucket_req_locatable = record {
  location = λ m. record {
    bucket_type = get_bytes m.type;
    bucket_is_required = true;
    bucket = get_bytes m.bucket;
    key_is_required = false;
    key = [];
  };
  set_type = λ bt m. record m { type = some bt };
}

pub record RpbGetBucketResp : Type 0 where
  pub props : RpbBucketProps

abbrev pub new_rpb_get_bucket_resp : RpbGetBucketResp
new_rpb_get_bucket_resp = record { props = new_rpb_bucket_props }

pub record RpbSetBucketTypeReq : Type 0 where
  pub type : Option Bytes
  pub props : Option RpbBucketProps

abbrev pub new_rpb_set_bucket_type_req : RpbSetBucketTypeReq
new_rpb_set_bucket_type_req = record { type = none; props = none }

instance abbrev pub rpb_set_bucket_type_req_locatable : RpbLocatable RpbSetBucketTypeReq
rpb_set_bucket_type_req_locatable = record {
  location = λ m. record {
    bucket_type = get_bytes m.type;
    bucket_is_required = false;
    bucket = [];
    key_is_required = false;
    key = [];
  };
  set_type = λ bt m. record m { type = some bt };
}

pub record RpbSetBucketReq : Type 0 where
  pub bucket : Option Bytes
  pub props : Option RpbBucketProps
  pub type : Option Bytes

abbrev pub new_rpb_set_bucket_req : RpbSetBucketReq
new_rpb_set_bucket_req = record { bucket = none; props = none; type = none }

instance abbrev pub rpb_set_bucket_req_locatable : RpbLocatable RpbSetBucketReq
rpb_set_bucket_req_locatable = record {
  location = λ m. record {
    bucket_type = get_bytes m.type;
    bucket_is_required = true;
    bucket = get_bytes m.bucket;
    key_is_required = false;
    key = [];
  };
  set_type = λ bt m. record m { type = some bt };
}

pub record RpbResetBucketReq : Type 0 where
  pub bucket : Option Bytes
  pub type : Option Bytes

abbrev pub new_rpb_reset_bucket_req : RpbResetBucketReq
new_rpb_reset_bucket_req = record { bucket = none; type = none }

instance abbrev pub rpb_reset_bucket_req_locatable : RpbLocatable RpbResetBucketReq
rpb_reset_bucket_req_locatable = record {
  location = λ m. record {
    bucket_type = get_bytes m.type;
    bucket_is_required = true;
    bucket = get_bytes m.bucket;
    key_is_required = false;
    key = [];
  };
  set_type = λ bt m. record m { type = some bt };
}
