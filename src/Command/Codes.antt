-- ===== src/Command/Codes.antt =====
-- messages.go: the codes of the messages that the commands send and expect.
use riak_go_client.Prelude.{ℕ}

abbrev pub rpb_code_rpb_ping_req : ℕ
rpb_code_rpb_ping_req = 1

abbrev pub rpb_code_rpb_ping_resp : ℕ
rpb_code_rpb_ping_resp = 2

abbrev pub rpb_code_rpb_get_server_info_req : ℕ
rpb_code_rpb_get_server_info_req = 7

abbrev pub rpb_code_rpb_get_server_info_resp : ℕ
rpb_code_rpb_get_server_info_resp = 8

abbrev pub rpb_code_rpb_get_req : ℕ
rpb_code_rpb_get_req = 9

abbrev pub rpb_code_rpb_get_resp : ℕ
rpb_code_rpb_get_resp = 10

abbrev pub rpb_code_rpb_put_req : ℕ
rpb_code_rpb_put_req = 11

abbrev pub rpb_code_rpb_put_resp : ℕ
rpb_code_rpb_put_resp = 12

abbrev pub rpb_code_rpb_del_req : ℕ
rpb_code_rpb_del_req = 13

abbrev pub rpb_code_rpb_del_resp : ℕ
rpb_code_rpb_del_resp = 14

abbrev pub rpb_code_rpb_list_buckets_req : ℕ
rpb_code_rpb_list_buckets_req = 15

abbrev pub rpb_code_rpb_list_buckets_resp : ℕ
rpb_code_rpb_list_buckets_resp = 16

abbrev pub rpb_code_rpb_list_keys_req : ℕ
rpb_code_rpb_list_keys_req = 17

abbrev pub rpb_code_rpb_list_keys_resp : ℕ
rpb_code_rpb_list_keys_resp = 18

abbrev pub rpb_code_rpb_get_bucket_req : ℕ
rpb_code_rpb_get_bucket_req = 19

abbrev pub rpb_code_rpb_get_bucket_resp : ℕ
rpb_code_rpb_get_bucket_resp = 20

abbrev pub rpb_code_rpb_set_bucket_req : ℕ
rpb_code_rpb_set_bucket_req = 21

abbrev pub rpb_code_rpb_set_bucket_resp : ℕ
rpb_code_rpb_set_bucket_resp = 22

abbrev pub rpb_code_rpb_map_red_req : ℕ
rpb_code_rpb_map_red_req = 23

abbrev pub rpb_code_rpb_map_red_resp : ℕ
rpb_code_rpb_map_red_resp = 24

abbrev pub rpb_code_rpb_index_req : ℕ
rpb_code_rpb_index_req = 25

abbrev pub rpb_code_rpb_index_resp : ℕ
rpb_code_rpb_index_resp = 26

abbrev pub rpb_code_rpb_search_query_req : ℕ
rpb_code_rpb_search_query_req = 27

abbrev pub rpb_code_rpb_search_query_resp : ℕ
rpb_code_rpb_search_query_resp = 28

abbrev pub rpb_code_rpb_reset_bucket_req : ℕ
rpb_code_rpb_reset_bucket_req = 29

abbrev pub rpb_code_rpb_reset_bucket_resp : ℕ
rpb_code_rpb_reset_bucket_resp = 30

abbrev pub rpb_code_rpb_get_bucket_type_req : ℕ
rpb_code_rpb_get_bucket_type_req = 31

abbrev pub rpb_code_rpb_set_bucket_type_req : ℕ
rpb_code_rpb_set_bucket_type_req = 32

abbrev pub rpb_code_rpb_get_bucket_key_preflist_req : ℕ
rpb_code_rpb_get_bucket_key_preflist_req = 33

abbrev pub rpb_code_rpb_get_bucket_key_preflist_resp : ℕ
rpb_code_rpb_get_bucket_key_preflist_resp = 34

abbrev pub rpb_code_rpb_counter_update_req : ℕ
rpb_code_rpb_counter_update_req = 50

abbrev pub rpb_code_rpb_counter_update_resp : ℕ
rpb_code_rpb_counter_update_resp = 51

abbrev pub rpb_code_rpb_yokozuna_index_get_req : ℕ
rpb_code_rpb_yokozuna_index_get_req = 54

abbrev pub rpb_code_rpb_yokozuna_index_get_resp : ℕ
rpb_code_rpb_yokozuna_index_get_resp = 55

abbrev pub rpb_code_rpb_yokozuna_index_put_req : ℕ
rpb_code_rpb_yokozuna_index_put_req = 56

abbrev pub rpb_code_rpb_yokozuna_index_delete_req : ℕ
rpb_code_rpb_yokozuna_index_delete_req = 57

abbrev pub rpb_code_rpb_yokozuna_schema_get_req : ℕ
rpb_code_rpb_yokozuna_schema_get_req = 58

abbrev pub rpb_code_rpb_yokozuna_schema_get_resp : ℕ
rpb_code_rpb_yokozuna_schema_get_resp = 59

abbrev pub rpb_code_rpb_yokozuna_schema_put_req : ℕ
rpb_code_rpb_yokozuna_schema_put_req = 60

abbrev pub rpb_code_dt_fetch_req : ℕ
rpb_code_dt_fetch_req = 80

abbrev pub rpb_code_dt_fetch_resp : ℕ
rpb_code_dt_fetch_resp = 81

abbrev pub rpb_code_dt_update_req : ℕ
rpb_code_dt_update_req = 82

abbrev pub rpb_code_dt_update_resp : ℕ
rpb_code_dt_update_resp = 83

abbrev pub rpb_code_ts_query_req : ℕ
rpb_code_ts_query_req = 90

abbrev pub rpb_code_ts_query_resp : ℕ
rpb_code_ts_query_resp = 91

abbrev pub rpb_code_ts_put_req : ℕ
rpb_code_ts_put_req = 92

abbrev pub rpb_code_ts_put_resp : ℕ
rpb_code_ts_put_resp = 93

abbrev pub rpb_code_ts_del_req : ℕ
rpb_code_ts_del_req = 94

abbrev pub rpb_code_ts_del_resp : ℕ
rpb_code_ts_del_resp = 95

abbrev pub rpb_code_ts_get_req : ℕ
rpb_code_ts_get_req = 96

abbrev pub rpb_code_ts_get_resp : ℕ
rpb_code_ts_get_resp = 97

abbrev pub rpb_code_ts_list_keys_req : ℕ
rpb_code_ts_list_keys_req = 98

abbrev pub rpb_code_ts_list_keys_resp : ℕ
rpb_code_ts_list_keys_resp = 99
