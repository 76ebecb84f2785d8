-- ===== src/Search/Query.antt =====
-- yz_commands.go: Search. A score is the number of its bits.
use riak_go_client.Prelude.{ℕ, false, Option, none, some, ◌⊎◌, inr, List, [], map, Run, ok}
use riak_go_client.Errors.{Error, could_not_convert}
use riak_go_client.Command.{CommandImpl, CommandApi, on_error, on_retry}
use riak_go_client.Command.Building.{new_impl, succeeded}
use riak_go_client.Command.Codes.{rpb_code_rpb_search_query_req, rpb_code_rpb_search_query_resp}
use riak_go_client.Object.{Bytes}
use riak_go_client.Rpb.{Message, rpb_search_query_req, rpb_search_query_resp}
use riak_go_client.Rpb.Fields.{get_number}
use riak_go_client.Rpb.Search.{
  RpbSearchQueryReq, new_rpb_search_query_req, new_rpb_search_query_resp,
}
use riak_go_client.Search.Docs.{SearchDoc, read_doc}

pub record SearchResponse : Type 0 where
  pub docs : List SearchDoc
  pub max_score : ℕ
  pub num_found : ℕ

pub record SearchCommand : Type 0 where
  pub impl : CommandImpl
  pub response : Option SearchResponse
  pub protobuf : RpbSearchQueryReq

pub record SearchCommandBuilder : Type 0 where
  pub protobuf : RpbSearchQueryReq

abbrev pub new_search_command_builder : SearchCommandBuilder
new_search_command_builder = record { protobuf = new_rpb_search_query_req }

unfoldable with_index_name : Bytes → SearchCommandBuilder → SearchCommandBuilder
with_index_name index builder = record builder {
  protobuf = record builder.protobuf { index = some index };
}

unfoldable with_query : Bytes → SearchCommandBuilder → SearchCommandBuilder
with_query query builder = record builder { protobuf = record builder.protobuf { q = some query } }

unfoldable with_num_rows : ℕ → SearchCommandBuilder → SearchCommandBuilder
with_num_rows num_rows builder = record builder {
  protobuf = record builder.protobuf { rows = some num_rows };
}

unfoldable with_start : ℕ → SearchCommandBuilder → SearchCommandBuilder
with_start start builder = record builder {
  protobuf = record builder.protobuf { start = some start };
}

unfoldable with_sort_field : Bytes → SearchCommandBuilder → SearchCommandBuilder
with_sort_field sort_field builder = record builder {
  protobuf = record builder.protobuf { sort = some sort_field };
}

unfoldable with_filter_query : Bytes → SearchCommandBuilder → SearchCommandBuilder
with_filter_query filter_query builder = record builder {
  protobuf = record builder.protobuf { filter = some filter_query };
}

unfoldable with_default_field : Bytes → SearchCommandBuilder → SearchCommandBuilder
with_default_field default_field builder = record builder {
  protobuf = record builder.protobuf { df = some default_field };
}

unfoldable with_default_operation : Bytes → SearchCommandBuilder → SearchCommandBuilder
with_default_operation op builder = record builder {
  protobuf = record builder.protobuf { op = some op };
}

unfoldable with_return_fields : List Bytes → SearchCommandBuilder → SearchCommandBuilder
with_return_fields fields builder = record builder {
  protobuf = record builder.protobuf { fl = fields };
}

unfoldable with_presort : Bytes → SearchCommandBuilder → SearchCommandBuilder
with_presort presort builder = record builder {
  protobuf = record builder.protobuf { presort = some presort };
}

unfoldable pub build : SearchCommandBuilder → Error ⊎ SearchCommand
build builder = inr (record { impl = new_impl; response = none; protobuf = builder.protobuf })

unfoldable pub construct_pb_request : SearchCommand → Run (SearchCommand × (Error ⊎ Option Message))
construct_pb_request cmd = ok (cmd, inr (some (rpb_search_query_req cmd.protobuf)))

abbrev pub new_search_response : SearchResponse
new_search_response = record { docs = []; max_score = 0; num_found = 0 }

unfoldable pub on_success : SearchCommand → Option Message → Run (SearchCommand × Option Error)
unfolding read_doc
on_success cmd none =
    ok (record cmd { impl = succeeded cmd.impl; response = some new_search_response }, none)
on_success cmd (some (rpb_search_query_resp m)) = ok (
  record cmd {
    impl = succeeded cmd.impl;
    response = some (record {
      docs = map read_doc m.docs;
      max_score = get_number m.max_score;
      num_found = get_number m.num_found;
    });
  },
  none,
)
on_success cmd (some other) = ok (
  record cmd { impl = succeeded cmd.impl; response = some new_search_response },
  some (could_not_convert "SearchCommand"),
)

abbrev pub get_request_code : SearchCommand → ℕ
get_request_code cmd = rpb_code_rpb_search_query_req

abbrev pub get_response_code : SearchCommand → ℕ
get_response_code cmd = rpb_code_rpb_search_query_resp

abbrev pub get_response_protobuf_message : SearchCommand → Option Message
get_response_protobuf_message cmd = some (rpb_search_query_resp new_rpb_search_query_resp)

abbrev pub api : CommandApi SearchCommand Message
api = record {
  get_request_code = get_request_code;
  get_response_code = get_response_code;
  construct_pb_request = construct_pb_request;
  get_response_protobuf_message = get_response_protobuf_message;
  success = λ k. k.impl.success;
  error = λ k. k.impl.error;
  handle_error = λ k e. record k { impl = on_error k.impl e };
  handle_retry = λ k. record k { impl = on_retry k.impl };
  handle_success = on_success;
  allow_listing = λ k. none;
  get_timeout = λ k. none;
  is_done = λ k. none;
  is_retryable = λ k. false;
  get_last_node = λ k. none;
  record_last_node = λ k node. k;
}
