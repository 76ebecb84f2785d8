-- ===== src/Kv/StoreValue.antt =====
-- kv_commands.go: StoreValue.
use riak_go_client.Prelude.{
  ℕ, Bool, true, Option, none, some, ◌⊎◌, inr, List, [], ◌∷◌, map, Run, ok, panic, nil_dereference,
}
use riak_go_client.Errors.{Error, ◌>>=◌, could_not_convert}
use riak_go_client.Command.{CommandImpl, CommandApi, on_error, on_retry}
use riak_go_client.Command.Building.{new_impl, succeeded, milliseconds}
use riak_go_client.Command.Codes.{rpb_code_rpb_put_req, rpb_code_rpb_put_resp}
use riak_go_client.Object.{Bytes, Object, RpbContent, from_rpb_content, to_rpb_content}
use riak_go_client.Rpb.{Message, rpb_put_req, rpb_put_resp}
use riak_go_client.Rpb.Fields.{get_bytes, validate}
use riak_go_client.Rpb.Kv.{RpbPutReq, new_rpb_put_req, rpb_put_req_locatable, new_rpb_put_resp}
use riak_go_client.Kv.FetchValue.{ConflictResolver, resolved}

pub record StoreValueResponse : Type 0 where
  pub generated_key : Bytes
  pub v_clock : Option Bytes
  pub values : List Object

-- `if from != "" { to = []byte(from) }`, and the same for a clock that is not nil.
abbrev pub overwrite : Bytes → Option Bytes → Option Bytes
overwrite [] to = to
overwrite (b ∷ bs) to = some (b ∷ bs)

abbrev pub overwrite_some : Option Bytes → Option Bytes → Option Bytes
overwrite_some none to = to
overwrite_some (some from) to = some from

unfoldable pub set_protobuf_from_value : RpbPutReq → Object → RpbPutReq
set_protobuf_from_value pb value = record pb {
  vclock = overwrite_some value.v_clock pb.vclock;
  type = overwrite value.bucket_type pb.type;
  bucket = overwrite value.bucket pb.bucket;
  key = overwrite value.key pb.key;
}

pub record StoreValueCommand : Type 0 where
  pub impl : CommandImpl
  pub timeout : ℕ
  pub last_node : Option ℕ
  pub response : Option StoreValueResponse
  pub value : Option Object
  pub protobuf : RpbPutReq
  pub resolver : Option ConflictResolver

pub record StoreValueCommandBuilder : Type 0 where
  pub value : Option Object
  pub timeout : ℕ
  pub protobuf : RpbPutReq
  pub resolver : Option ConflictResolver

abbrev pub new_store_value_command_builder : StoreValueCommandBuilder
new_store_value_command_builder = record {
  value = none;
  timeout = 0;
  protobuf = new_rpb_put_req;
  resolver = none;
}

unfoldable with_conflict_resolver :
    Option ConflictResolver → StoreValueCommandBuilder → StoreValueCommandBuilder
with_conflict_resolver resolver builder = record builder { resolver = resolver }

unfoldable pub with_bucket_type : Bytes → StoreValueCommandBuilder → StoreValueCommandBuilder
with_bucket_type bucket_type builder = record builder {
  protobuf = record builder.protobuf { type = some bucket_type };
}

unfoldable pub with_bucket : Bytes → StoreValueCommandBuilder → StoreValueCommandBuilder
with_bucket bucket builder = record builder {
  protobuf = record builder.protobuf { bucket = some bucket };
}

unfoldable pub with_key : Bytes → StoreValueCommandBuilder → StoreValueCommandBuilder
with_key key builder = record builder { protobuf = record builder.protobuf { key = some key } }

unfoldable with_v_clock : Option Bytes → StoreValueCommandBuilder → StoreValueCommandBuilder
with_v_clock vclock builder = record builder {
  protobuf = record builder.protobuf { vclock = vclock };
}

unfoldable pub with_content : Object → StoreValueCommandBuilder → StoreValueCommandBuilder
unfolding set_protobuf_from_value
with_content object builder = record builder {
  protobuf = set_protobuf_from_value builder.protobuf object;
  value = some object;
}

unfoldable with_w : ℕ → StoreValueCommandBuilder → StoreValueCommandBuilder
with_w w builder = record builder { protobuf = record builder.protobuf { w = some w } }

unfoldable with_dw : ℕ → StoreValueCommandBuilder → StoreValueCommandBuilder
with_dw dw builder = record builder { protobuf = record builder.protobuf { dw = some dw } }

unfoldable with_pw : ℕ → StoreValueCommandBuilder → StoreValueCommandBuilder
with_pw pw builder = record builder { protobuf = record builder.protobuf { pw = some pw } }

unfoldable with_n_val : ℕ → StoreValueCommandBuilder → StoreValueCommandBuilder
with_n_val nval builder = record builder {
  protobuf = record builder.protobuf { n_val = some nval };
}

unfoldable pub with_return_body : Bool → StoreValueCommandBuilder → StoreValueCommandBuilder
with_return_body return_body builder = record builder {
  protobuf = record builder.protobuf { return_body = some return_body };
}

unfoldable with_if_not_modified : Bool → StoreValueCommandBuilder → StoreValueCommandBuilder
with_if_not_modified if_not_modified builder = record builder {
  protobuf = record builder.protobuf { if_not_modified = some if_not_modified };
}

unfoldable with_if_none_match : Bool → StoreValueCommandBuilder → StoreValueCommandBuilder
with_if_none_match if_none_match builder = record builder {
  protobuf = record builder.protobuf { if_none_match = some if_none_match };
}

unfoldable with_return_head : Bool → StoreValueCommandBuilder → StoreValueCommandBuilder
with_return_head return_head builder = record builder {
  protobuf = record builder.protobuf { return_head = some return_head };
}

unfoldable pub with_timeout : ℕ → StoreValueCommandBuilder → StoreValueCommandBuilder
unfolding milliseconds
with_timeout timeout builder = record builder {
  timeout = timeout;
  protobuf = record builder.protobuf { timeout = some (milliseconds timeout) };
}

unfoldable with_asis : Bool → StoreValueCommandBuilder → StoreValueCommandBuilder
with_asis asis builder = record builder { protobuf = record builder.protobuf { asis = some asis } }

unfoldable with_sloppy_quorum : Bool → StoreValueCommandBuilder → StoreValueCommandBuilder
with_sloppy_quorum sloppy_quorum builder = record builder {
  protobuf = record builder.protobuf { sloppy_quorum = some sloppy_quorum };
}

unfoldable pub build : StoreValueCommandBuilder → Error ⊎ StoreValueCommand
unfolding validate
build builder = do
  protobuf ← validate builder.protobuf
  inr (record {
    impl = new_impl;
    timeout = builder.timeout;
    last_node = none;
    response = none;
    value = builder.value;
    protobuf = protobuf;
    resolver = builder.resolver;
  })

-- `value.VClock` of a nil value panics.
construct_from :
    StoreValueCommand → Option Object → Run (StoreValueCommand × (Error ⊎ Option Message))
unfolding set_protobuf_from_value
construct_from cmd none = panic nil_dereference
construct_from cmd (some value) =
    let protobuf = record (set_protobuf_from_value cmd.protobuf value) {
      content = some (to_rpb_content value);
    } in
    ok (record cmd { protobuf = protobuf }, inr (some (rpb_put_req protobuf)))

unfoldable pub construct_pb_request :
    StoreValueCommand → Run (StoreValueCommand × (Error ⊎ Option Message))
unfolding construct_from
construct_pb_request cmd = construct_from cmd cmd.value

abbrev pub stored_key : RpbPutReq → Bytes → Bytes
stored_key req [] = get_bytes req.key
stored_key req (b ∷ bs) = b ∷ bs

abbrev pub stored : RpbPutReq → Option Bytes → Bytes → RpbContent → Object
stored req vclock response_key content = record (from_rpb_content content) {
  v_clock = vclock;
  bucket_type = get_bytes req.type;
  bucket = get_bytes req.bucket;
  key = stored_key req response_key;
}

unfoldable pub values_of : StoreValueCommand → Option Bytes → Bytes → List RpbContent → List Object
values_of cmd vclock response_key [] = []
values_of cmd vclock response_key (content ∷ contents) =
    resolved cmd.resolver (map (stored cmd.protobuf vclock response_key) (content ∷ contents))

unfoldable pub on_success :
    StoreValueCommand → Option Message → Run (StoreValueCommand × Option Error)
unfolding values_of
on_success cmd none = ok (
  record cmd {
    impl = succeeded cmd.impl;
    response = some (record { generated_key = []; v_clock = none; values = [] });
  },
  none,
)
on_success cmd (some (rpb_put_resp m)) = ok (
  record cmd {
    impl = succeeded cmd.impl;
    response = some (record {
      generated_key = get_bytes m.key;
      v_clock = m.vclock;
      values = values_of cmd m.vclock (get_bytes m.key) m.content;
    });
  },
  none,
)
on_success cmd (some other) =
    ok (record cmd { impl = succeeded cmd.impl }, some (could_not_convert "StoreValueCommand"))

abbrev pub get_request_code : StoreValueCommand → ℕ
get_request_code cmd = rpb_code_rpb_put_req

abbrev pub get_response_code : StoreValueCommand → ℕ
get_response_code cmd = rpb_code_rpb_put_resp

abbrev pub get_response_protobuf_message : StoreValueCommand → Option Message
get_response_protobuf_message cmd = some (rpb_put_resp new_rpb_put_resp)

abbrev pub api : CommandApi StoreValueCommand Message
api = record {
  get_request_code = get_request_code;
  get_response_code = get_response_code;
  construct_pb_request = construct_pb_request;
  get_response_protobuf_message = get_response_protobuf_message;
  success = λ k. k.impl.success;
  error = λ k. k.impl.error;
  handle_error = λ k e. record k { impl = on_error k.impl e };
  handle_retry = λ k. record k { impl = on_retry k.impl };
  handle_success = on_success;
  allow_listing = λ k. none;
  get_timeout = λ k. some k.timeout;
  is_done = λ k. none;
  is_retryable = λ k. true;
  get_last_node = λ k. k.last_node;
  record_last_node = λ k node. record k { last_node = some node };
}
