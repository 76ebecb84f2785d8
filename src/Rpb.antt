-- ===== src/Rpb.antt =====
-- rpb: the protobuf messages, as far as the client reads or writes them; and their sum, which is
-- what `proto.Message` holds. A byte slice that may be nil is an option; a list is nil where it is
-- empty.
pub mod Fields
pub mod Kv
pub mod Query
pub mod Dt
pub mod Riak
pub mod Ts
pub mod Search
use riak_go_client.Rpb.Kv.{RpbGetReq, RpbGetResp, RpbPutReq, RpbPutResp, RpbDelReq}
use riak_go_client.Rpb.Query.{
  RpbListBucketsReq, RpbListBucketsResp, RpbListKeysReq, RpbListKeysResp,
  RpbGetBucketKeyPreflistReq, RpbGetBucketKeyPreflistResp, RpbIndexReq, RpbIndexResp, RpbMapRedReq,
  RpbMapRedResp, RpbCounterUpdateReq, RpbCounterUpdateResp,
}
use riak_go_client.Rpb.Dt.{DtUpdateReq, DtUpdateResp, DtFetchReq, DtFetchResp}
use riak_go_client.Rpb.Riak.{
  RpbGetServerInfoResp, RpbGetBucketTypeReq, RpbGetBucketReq, RpbGetBucketResp, RpbSetBucketTypeReq,
  RpbSetBucketReq, RpbResetBucketReq,
}
use riak_go_client.Rpb.Ts.{
  TsQueryReq, TsQueryResp, TsGetReq, TsGetResp, TsPutReq, TsDelReq, TsListKeysReq, TsListKeysResp,
}
use riak_go_client.Rpb.Search.{
  RpbYokozunaIndexGetReq, RpbYokozunaIndexGetResp, RpbYokozunaIndexPutReq,
  RpbYokozunaIndexDeleteReq, RpbYokozunaSchemaPutReq, RpbYokozunaSchemaGetReq,
  RpbYokozunaSchemaGetResp, RpbSearchQueryReq, RpbSearchQueryResp,
}

pub data Message : Type 0 where
  rpb_get_req : RpbGetReq → Message
  rpb_get_resp : RpbGetResp → Message
  rpb_put_req : RpbPutReq → Message
  rpb_put_resp : RpbPutResp → Message
  rpb_del_req : RpbDelReq → Message
  rpb_list_buckets_req : RpbListBucketsReq → Message
  rpb_list_buckets_resp : RpbListBucketsResp → Message
  rpb_list_keys_req : RpbListKeysReq → Message
  rpb_list_keys_resp : RpbListKeysResp → Message
  rpb_get_bucket_key_preflist_req : RpbGetBucketKeyPreflistReq → Message
  rpb_get_bucket_key_preflist_resp : RpbGetBucketKeyPreflistResp → Message
  rpb_index_req : RpbIndexReq → Message
  rpb_index_resp : RpbIndexResp → Message
  rpb_map_red_req : RpbMapRedReq → Message
  rpb_map_red_resp : RpbMapRedResp → Message
  rpb_counter_update_req : RpbCounterUpdateReq → Message
  rpb_counter_update_resp : RpbCounterUpdateResp → Message
  dt_update_req : DtUpdateReq → Message
  dt_update_resp : DtUpdateResp → Message
  dt_fetch_req : DtFetchReq → Message
  dt_fetch_resp : DtFetchResp → Message
  rpb_get_server_info_resp : RpbGetServerInfoResp → Message
  rpb_get_bucket_type_req : RpbGetBucketTypeReq → Message
  rpb_get_bucket_req : RpbGetBucketReq → Message
  rpb_get_bucket_resp : RpbGetBucketResp → Message
  rpb_set_bucket_type_req : RpbSetBucketTypeReq → Message
  rpb_set_bucket_req : RpbSetBucketReq → Message
  rpb_reset_bucket_req : RpbResetBucketReq → Message
  ts_query_req : TsQueryReq → Message
  ts_query_resp : TsQueryResp → Message
  ts_get_req : TsGetReq → Message
  ts_get_resp : TsGetResp → Message
  ts_put_req : TsPutReq → Message
  ts_del_req : TsDelReq → Message
  ts_list_keys_req : TsListKeysReq → Message
  ts_list_keys_resp : TsListKeysResp → Message
  rpb_yokozuna_index_get_req : RpbYokozunaIndexGetReq → Message
  rpb_yokozuna_index_get_resp : RpbYokozunaIndexGetResp → Message
  rpb_yokozuna_index_put_req : RpbYokozunaIndexPutReq → Message
  rpb_yokozuna_index_delete_req : RpbYokozunaIndexDeleteReq → Message
  rpb_yokozuna_schema_put_req : RpbYokozunaSchemaPutReq → Message
  rpb_yokozuna_schema_get_req : RpbYokozunaSchemaGetReq → Message
  rpb_yokozuna_schema_get_resp : RpbYokozunaSchemaGetResp → Message
  rpb_search_query_req : RpbSearchQueryReq → Message
  rpb_search_query_resp : RpbSearchQueryResp → Message
  ts_del_resp : Message
