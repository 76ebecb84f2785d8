-- ===== src/Rpb/Search.antt =====
-- rpb/riak_yokozuna and rpb/riak_search: the messages of the search commands. A float is the
-- natural number of its bits.
use riak_go_client.Prelude.{ℕ, Option, none, List, []}
use riak_go_client.Object.{Bytes, Pair}

pub record RpbYokozunaIndex : Type 0 where
  pub name : Option Bytes
  pub schema : Option Bytes
  pub n_val : Option ℕ

abbrev pub new_rpb_yokozuna_index : RpbYokozunaIndex
new_rpb_yokozuna_index = record { name = none; schema = none; n_val = none }

pub record RpbYokozunaIndexGetReq : Type 0 where
  pub name : Option Bytes

abbrev pub new_rpb_yokozuna_index_get_req : RpbYokozunaIndexGetReq
new_rpb_yokozuna_index_get_req = record { name = none }

pub record RpbYokozunaIndexGetResp : Type 0 where
  pub index : List RpbYokozunaIndex

abbrev pub new_rpb_yokozuna_index_get_resp : RpbYokozunaIndexGetResp
new_rpb_yokozuna_index_get_resp = record { index = [] }

pub record RpbYokozunaIndexPutReq : Type 0 where
  pub index : Option RpbYokozunaIndex
  pub timeout : Option ℕ

abbrev pub new_rpb_yokozuna_index_put_req : RpbYokozunaIndexPutReq
new_rpb_yokozuna_index_put_req = record { index = none; timeout = none }

pub record RpbYokozunaIndexDeleteReq : Type 0 where
  pub name : Option Bytes

abbrev pub new_rpb_yokozuna_index_delete_req : RpbYokozunaIndexDeleteReq
new_rpb_yokozuna_index_delete_req = record { name = none }

pub record RpbYokozunaSchema : Type 0 where
  pub name : Option Bytes
  pub content : Option Bytes

abbrev pub new_rpb_yokozuna_schema : RpbYokozunaSchema
new_rpb_yokozuna_schema = record { name = none; content = none }

pub record RpbYokozunaSchemaPutReq : Type 0 where
  pub schema : Option RpbYokozunaSchema

abbrev pub new_rpb_yokozuna_schema_put_req : RpbYokozunaSchemaPutReq
new_rpb_yokozuna_schema_put_req = record { schema = none }

pub record RpbYokozunaSchemaGetReq : Type 0 where
  pub name : Option Bytes

abbrev pub new_rpb_yokozuna_schema_get_req : RpbYokozunaSchemaGetReq
new_rpb_yokozuna_schema_get_req = record { name = none }

pub record RpbYokozunaSchemaGetResp : Type 0 where
  pub schema : Option RpbYokozunaSchema

abbrev pub new_rpb_yokozuna_schema_get_resp : RpbYokozunaSchemaGetResp
new_rpb_yokozuna_schema_get_resp = record { schema = none }

pub record RpbSearchDoc : Type 0 where
  pub fields : List Pair

pub record RpbSearchQueryReq : Type 0 where
  pub q : Option Bytes
  pub index : Option Bytes
  pub rows : Option ℕ
  pub start : Option ℕ
  pub sort : Option Bytes
  pub filter : Option Bytes
  pub df : Option Bytes
  pub op : Option Bytes
  pub fl : List Bytes
  pub presort : Option Bytes

abbrev pub new_rpb_search_query_req : RpbSearchQueryReq
new_rpb_search_query_req = record {
  q = none;
  index = none;
  rows = none;
  start = none;
  sort = none;
  filter = none;
  df = none;
  op = none;
  fl = [];
  presort = none;
}

pub record RpbSearchQueryResp : Type 0 where
  pub docs : List RpbSearchDoc
  pub max_score : Option ℕ
  pub num_found : Option ℕ

abbrev pub new_rpb_search_query_resp : RpbSearchQueryResp
new_rpb_search_query_resp = record { docs = []; max_score = none; num_found = none }
