-- ===== src/Kv/SecondaryIndexQuery.antt =====
-- kv_commands.go: SecondaryIndexQuery. `strconv` is a parameter: what FormatInt and Itoa print of a
-- number in base 10, which is given by its bits.
use riak_go_client.Prelude.{
  ℕ, Bool, true, false, ◌&&◌, ◌||◌, Option, none, some, ◌⊎◌, inr, List, [], ◌∷◌, ◌++◌, map,
  if◌then◌else◌, Run, ok,
}
use riak_go_client.Errors.{
  Error, ◌>>=◌, ◌>>◌, refuse, client_error, could_not_convert, requires_callback,
  key_or_range_required,
}
use riak_go_client.Command.{CommandImpl, CommandApi, on_error, on_retry}
use riak_go_client.Command.Building.{
  new_impl, succeeded, milliseconds, is_none, Callback, call, answered,
}
use riak_go_client.Command.Codes.{rpb_code_rpb_index_req, rpb_code_rpb_index_resp}
use riak_go_client.Object.{Bytes, Pair}
use riak_go_client.Rpb.{Message, rpb_index_req, rpb_index_resp}
use riak_go_client.Rpb.Fields.{get_bool, validate}
use riak_go_client.Rpb.Query.{
  RpbIndexReq, new_rpb_index_req, rpb_index_req_locatable, new_rpb_index_resp, eq, range,
}

pub record SecondaryIndexQueryResult : Type 0 where
  pub index_key : Option Bytes
  pub object_key : Option Bytes

pub record SecondaryIndexQueryResponse : Type 0 where
  pub results : List SecondaryIndexQueryResult
  pub continuation : Option Bytes

pub record SecondaryIndexQueryCommand : Type 0 where
  pub impl : CommandImpl
  pub timeout : ℕ
  pub response : Option SecondaryIndexQueryResponse
  pub protobuf : RpbIndexReq
  pub callback : Option (Callback (List SecondaryIndexQueryResult))
  pub calls : List (List SecondaryIndexQueryResult)
  pub done : Bool

pub record SecondaryIndexQueryCommandBuilder : Type 0 where
  pub timeout : ℕ
  pub protobuf : RpbIndexReq
  pub callback : Option (Callback (List SecondaryIndexQueryResult))

abbrev pub new_secondary_index_query_command_builder : SecondaryIndexQueryCommandBuilder
new_secondary_index_query_command_builder = record {
  timeout = 0;
  protobuf = new_rpb_index_req;
  callback = none;
}

unfoldable with_bucket_type :
    Bytes → SecondaryIndexQueryCommandBuilder → SecondaryIndexQueryCommandBuilder
with_bucket_type bucket_type builder = record builder {
  protobuf = record builder.protobuf { type = some bucket_type };
}

unfoldable pub with_bucket :
    Bytes → SecondaryIndexQueryCommandBuilder → SecondaryIndexQueryCommandBuilder
with_bucket bucket builder = record builder {
  protobuf = record builder.protobuf { bucket = some bucket };
}

unfoldable with_index_name :
    Bytes → SecondaryIndexQueryCommandBuilder → SecondaryIndexQueryCommandBuilder
with_index_name index_name builder = record builder {
  protobuf = record builder.protobuf { index = some index_name };
}

unfoldable pub with_range :
    Bytes → Bytes → SecondaryIndexQueryCommandBuilder → SecondaryIndexQueryCommandBuilder
with_range min max builder = record builder {
  protobuf = record builder.protobuf { range_min = some min; range_max = some max };
}

unfoldable with_int_range :
    (ℕ → Bytes) → ℕ → ℕ → SecondaryIndexQueryCommandBuilder → SecondaryIndexQueryCommandBuilder
unfolding with_range
with_int_range format_int min max builder = with_range (format_int min) (format_int max) builder

unfoldable pub with_index_key :
    Bytes → SecondaryIndexQueryCommandBuilder → SecondaryIndexQueryCommandBuilder
with_index_key key builder = record builder {
  protobuf = record builder.protobuf { key = some key };
}

unfoldable with_int_index_key :
    (ℕ → Bytes) → ℕ → SecondaryIndexQueryCommandBuilder → SecondaryIndexQueryCommandBuilder
unfolding with_index_key
with_int_index_key itoa key builder = with_index_key (itoa key) builder

unfoldable with_return_key_and_index :
    Bool → SecondaryIndexQueryCommandBuilder → SecondaryIndexQueryCommandBuilder
with_return_key_and_index val builder = record builder {
  protobuf = record builder.protobuf { return_terms = some val };
}

unfoldable pub with_streaming :
    Bool → SecondaryIndexQueryCommandBuilder → SecondaryIndexQueryCommandBuilder
with_streaming streaming builder = record builder {
  protobuf = record builder.protobuf { stream = some streaming };
}

unfoldable with_callback :
    Option (Callback (List SecondaryIndexQueryResult))
    → SecondaryIndexQueryCommandBuilder
    → SecondaryIndexQueryCommandBuilder
with_callback callback builder = record builder { callback = callback }

unfoldable with_pagination_sort :
    Bool → SecondaryIndexQueryCommandBuilder → SecondaryIndexQueryCommandBuilder
with_pagination_sort pagination_sort builder = record builder {
  protobuf = record builder.protobuf { pagination_sort = some pagination_sort };
}

unfoldable with_max_results :
    ℕ → SecondaryIndexQueryCommandBuilder → SecondaryIndexQueryCommandBuilder
with_max_results max_results builder = record builder {
  protobuf = record builder.protobuf { max_results = some max_results };
}

unfoldable with_continuation :
    Option Bytes → SecondaryIndexQueryCommandBuilder → SecondaryIndexQueryCommandBuilder
with_continuation cont builder = record builder {
  protobuf = record builder.protobuf { continuation = cont };
}

unfoldable with_term_regex :
    Bytes → SecondaryIndexQueryCommandBuilder → SecondaryIndexQueryCommandBuilder
with_term_regex regex builder = record builder {
  protobuf = record builder.protobuf { term_regex = some regex };
}

unfoldable pub with_timeout :
    ℕ → SecondaryIndexQueryCommandBuilder → SecondaryIndexQueryCommandBuilder
unfolding milliseconds
with_timeout timeout builder = record builder {
  timeout = timeout;
  protobuf = record builder.protobuf { timeout = some (milliseconds timeout) };
}

unfoldable pub build : SecondaryIndexQueryCommandBuilder → Error ⊎ SecondaryIndexQueryCommand
unfolding validate
build builder = do
  protobuf ← validate builder.protobuf
  refuse (is_none protobuf.key && (is_none protobuf.range_min || is_none protobuf.range_max))
      (client_error key_or_range_required)
  refuse (get_bool protobuf.stream && is_none builder.callback)
      (client_error (requires_callback "SecondaryIndexQueryCommand"))
  inr (record {
    impl = new_impl;
    timeout = builder.timeout;
    response = none;
    protobuf = protobuf;
    callback = builder.callback;
    calls = [];
    done = false;
  })

unfoldable pub construct_pb_request :
    SecondaryIndexQueryCommand → Run (SecondaryIndexQueryCommand × (Error ⊎ Option Message))
construct_pb_request cmd =
    let qtype = if is_none cmd.protobuf.key then range else eq in
    let protobuf = record cmd.protobuf { qtype = some qtype } in
    ok (record cmd { protobuf = protobuf }, inr (some (rpb_index_req protobuf)))

abbrev pub results_before : SecondaryIndexQueryCommand → List SecondaryIndexQueryResult
results_before cmd = elim cmd.response [ none ↦ [] | some r ↦ r.results ]

-- A response has pairs of terms and keys, or keys alone; the term is then the one that was asked for.
abbrev pub result_of_pair : Pair → SecondaryIndexQueryResult
result_of_pair p = record { index_key = some p.key; object_key = some p.value }

abbrev pub result_of_key : Option Bytes → Bytes → SecondaryIndexQueryResult
result_of_key term key = record { index_key = term; object_key = some key }

unfoldable pub results_of : RpbIndexReq → List Pair → List Bytes → List SecondaryIndexQueryResult
results_of req (p ∷ ps) keys = map result_of_pair (p ∷ ps)
results_of req [] keys =
    map (result_of_key (if get_bool req.return_terms then req.key else none)) keys

-- A streaming query calls its callback for each response, also for one that has no results.
unfoldable pub collect :
    SecondaryIndexQueryCommand
    → Option Bytes
    → List SecondaryIndexQueryResult
    → Run (SecondaryIndexQueryCommand × Option Error)
collect cmd continuation results =
    if get_bool cmd.protobuf.stream
    then answered
        (λ calls. record cmd {
          calls = calls;
          response = some (record { results = results_before cmd; continuation = continuation });
        })
        (λ calls. record cmd { calls = calls; response = none })
        (call cmd.callback cmd.calls results)
    else ok (
      record cmd {
        response =
            some (record { results = results_before cmd ++ results; continuation = continuation });
      },
      none,
    )

unfoldable pub on_success :
    SecondaryIndexQueryCommand → Option Message → Run (SecondaryIndexQueryCommand × Option Error)
unfolding collect results_of
on_success cmd none = ok (
  record cmd {
    impl = succeeded cmd.impl;
    response = some (record { results = []; continuation = none });
    done = true;
  },
  none,
)
on_success cmd (some (rpb_index_resp m)) =
    collect (record cmd { impl = succeeded cmd.impl; done = get_bool m.done }) m.continuation
      (results_of cmd.protobuf m.results m.keys)
on_success cmd (some other) = ok (
  record cmd { impl = succeeded cmd.impl; done = true },
  some (could_not_convert "SecondaryIndexQueryCommand"),
)

abbrev pub get_request_code : SecondaryIndexQueryCommand → ℕ
get_request_code cmd = rpb_code_rpb_index_req

abbrev pub get_response_code : SecondaryIndexQueryCommand → ℕ
get_response_code cmd = rpb_code_rpb_index_resp

abbrev pub get_response_protobuf_message : SecondaryIndexQueryCommand → Option Message
get_response_protobuf_message cmd = some (rpb_index_resp new_rpb_index_resp)

unfoldable pub is_done : SecondaryIndexQueryCommand → Bool
is_done cmd = if get_bool cmd.protobuf.stream then cmd.done else true

abbrev pub api : CommandApi SecondaryIndexQueryCommand Message
api = record {
  get_request_code = get_request_code;
  get_response_code = get_response_code;
  construct_pb_request = construct_pb_request;
  get_response_protobuf_message = get_response_protobuf_message;
  success = λ k. k.impl.success;
  error = λ k. k.impl.error;
  handle_error = λ k e. record k { impl = on_error k.impl e };
  handle_retry = λ k. record k { impl = on_retry k.impl };
  handle_success = on_success;
  allow_listing = λ k. none;
  get_timeout = λ k. some k.timeout;
  is_done = λ k. some (is_done k);
  is_retryable = λ k. false;
  get_last_node = λ k. none;
  record_last_node = λ k node. k;
}
