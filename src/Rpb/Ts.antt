-- ===== src/Rpb/Ts.antt =====
-- rpb/riak_ts: the messages of the time series commands. Required fields are always there. A
-- 64-bit number is the natural number of its bits, a double too.
use riak_go_client.Prelude.{ℕ, Bool, Option, none, List, []}
use riak_go_client.Object.{Bytes, Pair}

pub data TsColumnType : Type 0 where
  varchar sint64 double timestamp boolean blob : TsColumnType

pub record RpbTsCell : Type 0 where
  pub varchar_value : Option Bytes
  pub sint64_value : Option ℕ
  pub timestamp_value : Option ℕ
  pub boolean_value : Option Bool
  pub double_value : Option ℕ

abbrev pub new_rpb_ts_cell : RpbTsCell
new_rpb_ts_cell = record {
  varchar_value = none;
  sint64_value = none;
  timestamp_value = none;
  boolean_value = none;
  double_value = none;
}

pub record TsRow : Type 0 where
  pub cells : List RpbTsCell

pub record RpbTsColumnDescription : Type 0 where
  pub name : Bytes
  pub type : TsColumnType

pub record TsInterpolation : Type 0 where
  pub base : Option Bytes
  pub interpolations : List Pair

pub record TsQueryReq : Type 0 where
  pub query : Option TsInterpolation
  pub stream : Option Bool
  pub cover_context : Option Bytes

abbrev pub new_ts_query_req : TsQueryReq
new_ts_query_req = record { query = none; stream = none; cover_context = none }

pub record TsQueryResp : Type 0 where
  pub columns : List RpbTsColumnDescription
  pub rows : List TsRow
  pub done : Option Bool

abbrev pub new_ts_query_resp : TsQueryResp
new_ts_query_resp = record { columns = []; rows = []; done = none }

pub record TsGetReq : Type 0 where
  pub table : Option Bytes
  pub key : List RpbTsCell
  pub timeout : Option ℕ

abbrev pub new_ts_get_req : TsGetReq
new_ts_get_req = record { table = none; key = []; timeout = none }

pub record TsGetResp : Type 0 where
  pub columns : List RpbTsColumnDescription
  pub rows : List TsRow

abbrev pub new_ts_get_resp : TsGetResp
new_ts_get_resp = record { columns = []; rows = [] }

pub record TsPutReq : Type 0 where
  pub table : Option Bytes
  pub columns : List RpbTsColumnDescription
  pub rows : List TsRow

abbrev pub new_ts_put_req : TsPutReq
new_ts_put_req = record { table = none; columns = []; rows = [] }

pub record TsDelReq : Type 0 where
  pub table : Option Bytes
  pub key : List RpbTsCell
  pub vclock : Option Bytes
  pub timeout : Option ℕ

abbrev pub new_ts_del_req : TsDelReq
new_ts_del_req = record { table = none; key = []; vclock = none; timeout = none }

pub record TsListKeysReq : Type 0 where
  pub table : Option Bytes
  pub timeout : Option ℕ

abbrev pub new_ts_list_keys_req : TsListKeysReq
new_ts_list_keys_req = record { table = none; timeout = none }

pub record TsListKeysResp : Type 0 where
  pub keys : List TsRow
  pub done : Option Bool

abbrev pub new_ts_list_keys_resp : TsListKeysResp
new_ts_list_keys_resp = record { keys = []; done = none }
