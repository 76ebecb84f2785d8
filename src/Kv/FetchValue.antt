-- ===== src/Kv/FetchValue.antt =====
-- kv_commands.go: FetchValue.
use riak_go_client.Prelude.{
  ℕ, Bool, true, false, Option, none, some, ◌⊎◌, inr, List, [], ◌∷◌, map, Run, ok,
}
use riak_go_client.Errors.{Error, ◌>>=◌, could_not_convert}
use riak_go_client.Command.{CommandImpl, CommandApi, on_error, on_retry}
use riak_go_client.Command.Building.{new_impl, succeeded, milliseconds}
use riak_go_client.Command.Codes.{rpb_code_rpb_get_req, rpb_code_rpb_get_resp}
use riak_go_client.Object.{Bytes, Object, RpbContent, from_rpb_content}
use riak_go_client.Rpb.{Message, rpb_get_req, rpb_get_resp}
use riak_go_client.Rpb.Fields.{get_bytes, get_bool, validate}
use riak_go_client.Rpb.Kv.{RpbGetReq, new_rpb_get_req, rpb_get_req_locatable, new_rpb_get_resp}

-- A ConflictResolver is its method.
abbrev pub ConflictResolver : Type 0
ConflictResolver = List Object → List Object

pub record FetchValueResponse : Type 0 where
  pub is_not_found : Bool
  pub is_unchanged : Bool
  pub v_clock : Option Bytes
  pub values : List Object

pub record FetchValueCommand : Type 0 where
  pub impl : CommandImpl
  pub timeout : ℕ
  pub last_node : Option ℕ
  pub response : Option FetchValueResponse
  pub protobuf : RpbGetReq
  pub resolver : Option ConflictResolver

pub record FetchValueCommandBuilder : Type 0 where
  pub timeout : ℕ
  pub protobuf : RpbGetReq
  pub resolver : Option ConflictResolver

abbrev pub new_fetch_value_command_builder : FetchValueCommandBuilder
new_fetch_value_command_builder = record {
  timeout = 0;
  protobuf = new_rpb_get_req;
  resolver = none;
}

unfoldable with_conflict_resolver :
    Option ConflictResolver → FetchValueCommandBuilder → FetchValueCommandBuilder
with_conflict_resolver resolver builder = record builder { resolver = resolver }

unfoldable pub with_bucket_type : Bytes → FetchValueCommandBuilder → FetchValueCommandBuilder
with_bucket_type bucket_type builder = record builder {
  protobuf = record builder.protobuf { type = some bucket_type };
}

unfoldable pub with_bucket : Bytes → FetchValueCommandBuilder → FetchValueCommandBuilder
with_bucket bucket builder = record builder {
  protobuf = record builder.protobuf { bucket = some bucket };
}

unfoldable pub with_key : Bytes → FetchValueCommandBuilder → FetchValueCommandBuilder
with_key key builder = record builder { protobuf = record builder.protobuf { key = some key } }

unfoldable with_r : ℕ → FetchValueCommandBuilder → FetchValueCommandBuilder
with_r r builder = record builder { protobuf = record builder.protobuf { r = some r } }

unfoldable with_pr : ℕ → FetchValueCommandBuilder → FetchValueCommandBuilder
with_pr pr builder = record builder { protobuf = record builder.protobuf { pr = some pr } }

unfoldable with_n_val : ℕ → FetchValueCommandBuilder → FetchValueCommandBuilder
with_n_val nval builder = record builder {
  protobuf = record builder.protobuf { n_val = some nval };
}

unfoldable with_basic_quorum : Bool → FetchValueCommandBuilder → FetchValueCommandBuilder
with_basic_quorum basic_quorum builder = record builder {
  protobuf = record builder.protobuf { basic_quorum = some basic_quorum };
}

unfoldable with_not_found_ok : Bool → FetchValueCommandBuilder → FetchValueCommandBuilder
with_not_found_ok not_found_ok builder = record builder {
  protobuf = record builder.protobuf { notfound_ok = some not_found_ok };
}

unfoldable with_if_modified : Option Bytes → FetchValueCommandBuilder → FetchValueCommandBuilder
with_if_modified if_modified builder = record builder {
  protobuf = record builder.protobuf { if_modified = if_modified };
}

unfoldable with_head_only : Bool → FetchValueCommandBuilder → FetchValueCommandBuilder
with_head_only head_only builder = record builder {
  protobuf = record builder.protobuf { head = some head_only };
}

unfoldable with_return_deleted_v_clock : Bool → FetchValueCommandBuilder → FetchValueCommandBuilder
with_return_deleted_v_clock return_deleted_v_clock builder = record builder {
  protobuf = record builder.protobuf { deletedvclock = some return_deleted_v_clock };
}

unfoldable pub with_timeout : ℕ → FetchValueCommandBuilder → FetchValueCommandBuilder
unfolding milliseconds
with_timeout timeout builder = record builder {
  timeout = timeout;
  protobuf = record builder.protobuf { timeout = some (milliseconds timeout) };
}

unfoldable with_sloppy_quorum : Bool → FetchValueCommandBuilder → FetchValueCommandBuilder
with_sloppy_quorum sloppy_quorum builder = record builder {
  protobuf = record builder.protobuf { sloppy_quorum = some sloppy_quorum };
}

unfoldable pub build : FetchValueCommandBuilder → Error ⊎ FetchValueCommand
unfolding validate
build builder = do
  protobuf ← validate builder.protobuf
  inr (record {
    impl = new_impl;
    timeout = builder.timeout;
    last_node = none;
    response = none;
    protobuf = protobuf;
    resolver = builder.resolver;
  })

unfoldable pub construct_pb_request :
    FetchValueCommand → Run (FetchValueCommand × (Error ⊎ Option Message))
construct_pb_request cmd = ok (cmd, inr (some (rpb_get_req cmd.protobuf)))

-- The one sibling that stands for no content.
abbrev pub tombstone : RpbGetReq → Object
tombstone req = record {
  bucket_type = get_bytes req.type;
  bucket = get_bytes req.bucket;
  key = get_bytes req.key;
  is_tombstone = true;
  value = [];
  content_type = [];
  charset = [];
  content_encoding = [];
  v_tag = [];
  last_modified = (0, 0);
  user_meta = [];
  indexes = [];
  links = [];
  v_clock = none;
}

abbrev pub located : RpbGetReq → Option Bytes → RpbContent → Object
located req vclock content = record (from_rpb_content content) {
  v_clock = vclock;
  bucket_type = get_bytes req.type;
  bucket = get_bytes req.bucket;
  key = get_bytes req.key;
}

-- Also of StoreValue.
abbrev pub resolved : Option ConflictResolver → List Object → List Object
resolved none objects = objects
resolved (some resolve) objects = resolve objects

unfoldable pub values_of : FetchValueCommand → Option Bytes → List RpbContent → List Object
values_of cmd vclock [] = tombstone cmd.protobuf ∷ []
values_of cmd vclock (content ∷ contents) =
    resolved cmd.resolver (map (located cmd.protobuf vclock) (content ∷ contents))

unfoldable pub on_success :
    FetchValueCommand → Option Message → Run (FetchValueCommand × Option Error)
unfolding values_of
on_success cmd none = ok (
  record cmd {
    impl = succeeded cmd.impl;
    response =
        some (record { is_not_found = true; is_unchanged = false; v_clock = none; values = [] });
  },
  none,
)
on_success cmd (some (rpb_get_resp m)) = ok (
  record cmd {
    impl = succeeded cmd.impl;
    response = some (record {
      is_not_found = false;
      is_unchanged = get_bool m.unchanged;
      v_clock = m.vclock;
      values = values_of cmd m.vclock m.content;
    });
  },
  none,
)
on_success cmd (some other) =
    ok (record cmd { impl = succeeded cmd.impl }, some (could_not_convert "FetchValueCommand"))

abbrev pub get_request_code : FetchValueCommand → ℕ
get_request_code cmd = rpb_code_rpb_get_req

abbrev pub get_response_code : FetchValueCommand → ℕ
get_response_code cmd = rpb_code_rpb_get_resp

abbrev pub get_response_protobuf_message : FetchValueCommand → Option Message
get_response_protobuf_message cmd = some (rpb_get_resp new_rpb_get_resp)

abbrev pub api : CommandApi FetchValueCommand Message
api = record {
  get_request_code = get_request_code;
  get_response_code = get_response_code;
  construct_pb_request = construct_pb_request;
  get_response_protobuf_message = get_response_protobuf_message;
  success = λ k. k.impl.success;
  error = λ k. k.impl.error;
  handle_error = λ k e. record k { impl = on_error k.impl e };
  handle_retry = λ k. record k { impl = on_retry k.impl };
  handle_success = on_success;
  allow_listing = λ k. none;
  get_timeout = λ k. some k.timeout;
  is_done = λ k. none;
  is_retryable = λ k. true;
  get_last_node = λ k. k.last_node;
  record_last_node = λ k node. record k { last_node = some node };
}
