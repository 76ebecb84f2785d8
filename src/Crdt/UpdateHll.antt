-- ===== src/Crdt/UpdateHll.antt =====
-- crdt_commands.go: UpdateHll.
use riak_go_client.Prelude.{ℕ, Bool, true, Option, none, some, ◌⊎◌, inr, List, [], ◌++◌, Run, ok}
use riak_go_client.Errors.{Error, ◌>>=◌, could_not_convert}
use riak_go_client.Command.{CommandImpl, CommandApi, on_error, on_retry}
use riak_go_client.Command.Building.{new_impl, succeeded, milliseconds}
use riak_go_client.Command.Codes.{rpb_code_dt_update_req, rpb_code_dt_update_resp}
use riak_go_client.Object.{Bytes}
use riak_go_client.Rpb.{Message, dt_update_req, dt_update_resp}
use riak_go_client.Rpb.Fields.{get_bytes, get_number, validate}
use riak_go_client.Rpb.Dt.{
  HllOp, new_dt_op, DtUpdateReq, new_dt_update_req, dt_update_req_locatable, new_dt_update_resp,
}

pub record UpdateHllResponse : Type 0 where
  pub generated_key : Bytes
  pub cardinality : ℕ

pub record UpdateHllCommand : Type 0 where
  pub impl : CommandImpl
  pub timeout : ℕ
  pub last_node : Option ℕ
  pub response : Option UpdateHllResponse
  pub protobuf : DtUpdateReq

pub record UpdateHllCommandBuilder : Type 0 where
  pub timeout : ℕ
  pub protobuf : DtUpdateReq
  pub hll_op : HllOp

abbrev pub new_update_hll_command_builder : UpdateHllCommandBuilder
new_update_hll_command_builder = record {
  timeout = 0;
  protobuf = new_dt_update_req;
  hll_op = record { adds = [] };
}

unfoldable with_bucket_type : Bytes → UpdateHllCommandBuilder → UpdateHllCommandBuilder
with_bucket_type bucket_type builder = record builder {
  protobuf = record builder.protobuf { type = some bucket_type };
}

unfoldable with_bucket : Bytes → UpdateHllCommandBuilder → UpdateHllCommandBuilder
with_bucket bucket builder = record builder {
  protobuf = record builder.protobuf { bucket = some bucket };
}

unfoldable with_key : Bytes → UpdateHllCommandBuilder → UpdateHllCommandBuilder
with_key key builder = record builder { protobuf = record builder.protobuf { key = some key } }

unfoldable with_additions : List Bytes → UpdateHllCommandBuilder → UpdateHllCommandBuilder
with_additions adds builder = record builder {
  hll_op = record builder.hll_op { adds = builder.hll_op.adds ++ adds };
}

unfoldable with_w : ℕ → UpdateHllCommandBuilder → UpdateHllCommandBuilder
with_w w builder = record builder { protobuf = record builder.protobuf { w = some w } }

unfoldable with_pw : ℕ → UpdateHllCommandBuilder → UpdateHllCommandBuilder
with_pw pw builder = record builder { protobuf = record builder.protobuf { pw = some pw } }

unfoldable with_dw : ℕ → UpdateHllCommandBuilder → UpdateHllCommandBuilder
with_dw dw builder = record builder { protobuf = record builder.protobuf { dw = some dw } }

unfoldable with_return_body : Bool → UpdateHllCommandBuilder → UpdateHllCommandBuilder
with_return_body return_body builder = record builder {
  protobuf = record builder.protobuf { return_body = some return_body };
}

unfoldable with_timeout : ℕ → UpdateHllCommandBuilder → UpdateHllCommandBuilder
unfolding milliseconds
with_timeout timeout builder = record builder {
  timeout = timeout;
  protobuf = record builder.protobuf { timeout = some (milliseconds timeout) };
}

-- `protobuf.Op` points to the operation that the builder collects.
unfoldable pub build : UpdateHllCommandBuilder → Error ⊎ UpdateHllCommand
unfolding validate
build builder = do
  protobuf ←
      validate
        (record builder.protobuf { op = some (record new_dt_op { hll_op = some builder.hll_op }) })
  inr (record {
    impl = new_impl;
    timeout = builder.timeout;
    last_node = none;
    response = none;
    protobuf = protobuf;
  })

unfoldable pub construct_pb_request :
    UpdateHllCommand → Run (UpdateHllCommand × (Error ⊎ Option Message))
construct_pb_request cmd = ok (cmd, inr (some (dt_update_req cmd.protobuf)))

unfoldable pub on_success :
    UpdateHllCommand → Option Message → Run (UpdateHllCommand × Option Error)
on_success cmd none = ok (record cmd { impl = succeeded cmd.impl }, none)
on_success cmd (some (dt_update_resp m)) = ok (
  record cmd {
    impl = succeeded cmd.impl;
    response =
        some (record { generated_key = get_bytes m.key; cardinality = get_number m.hll_value });
  },
  none,
)
on_success cmd (some other) =
    ok (record cmd { impl = succeeded cmd.impl }, some (could_not_convert "UpdateHllCommand"))

abbrev pub get_request_code : UpdateHllCommand → ℕ
get_request_code cmd = rpb_code_dt_update_req

abbrev pub get_response_code : UpdateHllCommand → ℕ
get_response_code cmd = rpb_code_dt_update_resp

abbrev pub get_response_protobuf_message : UpdateHllCommand → Option Message
get_response_protobuf_message cmd = some (dt_update_resp new_dt_update_resp)

abbrev pub api : CommandApi UpdateHllCommand Message
api = record {
  get_request_code = get_request_code;
  get_response_code = get_response_code;
  construct_pb_request = construct_pb_request;
  get_response_protobuf_message = get_response_protobuf_message;
  success = λ k. k.impl.success;
  error = λ k. k.impl.error;
  handle_error = λ k e. record k { impl = on_error k.impl e };
  handle_retry = λ k. record k { impl = on_retry k.impl };
  handle_success = on_success;
  allow_listing = λ k. none;
  get_timeout = λ k. some k.timeout;
  is_done = λ k. none;
  is_retryable = λ k. true;
  get_last_node = λ k. k.last_node;
  record_last_node = λ k node. record k { last_node = some node };
}
