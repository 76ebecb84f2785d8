-- ===== src/Misc/StoreBucketProps.antt =====
-- misc_commands.go: StoreBucketProps. The Props of the builder's protobuf are the struct that `props` points to:
-- `build` puts them in. A hook or a function that is given is not nil.
use riak_go_client.Prelude.{ℕ, Bool, true, Option, none, some, ◌⊎◌, inr, Run, ok}
use riak_go_client.Errors.{Error, ◌>>=◌}
use riak_go_client.Command.{CommandImpl, CommandApi, on_error, on_retry}
use riak_go_client.Command.Building.{new_impl, succeeded}
use riak_go_client.Command.Codes.{rpb_code_rpb_set_bucket_req, rpb_code_rpb_set_bucket_resp}
use riak_go_client.Object.{Bytes}
use riak_go_client.Rpb.{Message, rpb_set_bucket_req}
use riak_go_client.Rpb.Fields.{validate}
use riak_go_client.Rpb.Riak.{
  RpbBucketProps, new_rpb_bucket_props, RpbSetBucketReq, new_rpb_set_bucket_req,
  rpb_set_bucket_req_locatable,
}
use riak_go_client.Misc.BucketProps.{
  CommitHook, ModFun, add_commit_hook_to, to_rpb_commit_hook, to_rpb_mod_fun,
}

pub record StoreBucketPropsCommand : Type 0 where
  pub impl : CommandImpl
  pub last_node : Option ℕ
  pub protobuf : RpbSetBucketReq

pub record StoreBucketPropsCommandBuilder : Type 0 where
  pub protobuf : RpbSetBucketReq
  pub props : RpbBucketProps

abbrev pub new_store_bucket_props_command_builder : StoreBucketPropsCommandBuilder
new_store_bucket_props_command_builder = record {
  protobuf = new_rpb_set_bucket_req;
  props = new_rpb_bucket_props;
}

unfoldable pub with_bucket_type :
    Bytes → StoreBucketPropsCommandBuilder → StoreBucketPropsCommandBuilder
with_bucket_type bucket_type builder = record builder {
  protobuf = record builder.protobuf { type = some bucket_type };
}

unfoldable pub with_bucket : Bytes → StoreBucketPropsCommandBuilder → StoreBucketPropsCommandBuilder
with_bucket bucket builder = record builder {
  protobuf = record builder.protobuf { bucket = some bucket };
}

unfoldable with_n_val : ℕ → StoreBucketPropsCommandBuilder → StoreBucketPropsCommandBuilder
with_n_val nval builder = record builder { props = record builder.props { n_val = some nval } }

unfoldable with_allow_mult : Bool → StoreBucketPropsCommandBuilder → StoreBucketPropsCommandBuilder
with_allow_mult allow_mult builder = record builder {
  props = record builder.props { allow_mult = some allow_mult };
}

unfoldable with_last_write_wins :
    Bool → StoreBucketPropsCommandBuilder → StoreBucketPropsCommandBuilder
with_last_write_wins lww builder = record builder {
  props = record builder.props { last_write_wins = some lww };
}

unfoldable with_old_v_clock : ℕ → StoreBucketPropsCommandBuilder → StoreBucketPropsCommandBuilder
with_old_v_clock old_v_clock builder = record builder {
  props = record builder.props { old_vclock = some old_v_clock };
}

unfoldable with_young_v_clock : ℕ → StoreBucketPropsCommandBuilder → StoreBucketPropsCommandBuilder
with_young_v_clock young_v_clock builder = record builder {
  props = record builder.props { young_vclock = some young_v_clock };
}

unfoldable with_big_v_clock : ℕ → StoreBucketPropsCommandBuilder → StoreBucketPropsCommandBuilder
with_big_v_clock big_v_clock builder = record builder {
  props = record builder.props { big_vclock = some big_v_clock };
}

unfoldable with_small_v_clock : ℕ → StoreBucketPropsCommandBuilder → StoreBucketPropsCommandBuilder
with_small_v_clock small_v_clock builder = record builder {
  props = record builder.props { small_vclock = some small_v_clock };
}

unfoldable with_r : ℕ → StoreBucketPropsCommandBuilder → StoreBucketPropsCommandBuilder
with_r r builder = record builder { props = record builder.props { r = some r } }

unfoldable with_pr : ℕ → StoreBucketPropsCommandBuilder → StoreBucketPropsCommandBuilder
with_pr pr builder = record builder { props = record builder.props { pr = some pr } }

unfoldable with_w : ℕ → StoreBucketPropsCommandBuilder → StoreBucketPropsCommandBuilder
with_w w builder = record builder { props = record builder.props { w = some w } }

unfoldable with_pw : ℕ → StoreBucketPropsCommandBuilder → StoreBucketPropsCommandBuilder
with_pw pw builder = record builder { props = record builder.props { pw = some pw } }

unfoldable with_dw : ℕ → StoreBucketPropsCommandBuilder → StoreBucketPropsCommandBuilder
with_dw dw builder = record builder { props = record builder.props { dw = some dw } }

unfoldable with_rw : ℕ → StoreBucketPropsCommandBuilder → StoreBucketPropsCommandBuilder
with_rw rw builder = record builder { props = record builder.props { rw = some rw } }

unfoldable with_basic_quorum :
    Bool → StoreBucketPropsCommandBuilder → StoreBucketPropsCommandBuilder
with_basic_quorum basic_quorum builder = record builder {
  props = record builder.props { basic_quorum = some basic_quorum };
}

unfoldable with_not_found_ok :
    Bool → StoreBucketPropsCommandBuilder → StoreBucketPropsCommandBuilder
with_not_found_ok not_found_ok builder = record builder {
  props = record builder.props { notfound_ok = some not_found_ok };
}

unfoldable with_search : Bool → StoreBucketPropsCommandBuilder → StoreBucketPropsCommandBuilder
with_search search builder = record builder {
  props = record builder.props { search = some search };
}

unfoldable with_backend : Bytes → StoreBucketPropsCommandBuilder → StoreBucketPropsCommandBuilder
with_backend backend builder = record builder {
  props = record builder.props { backend = some backend };
}

unfoldable with_search_index :
    Bytes → StoreBucketPropsCommandBuilder → StoreBucketPropsCommandBuilder
with_search_index search_index builder = record builder {
  props = record builder.props { search_index = some search_index };
}

unfoldable pub add_pre_commit :
    CommitHook → StoreBucketPropsCommandBuilder → StoreBucketPropsCommandBuilder
unfolding add_commit_hook_to to_rpb_commit_hook
add_pre_commit commit_hook builder = record builder {
  props = record builder.props {
    precommit = add_commit_hook_to builder.props.precommit (to_rpb_commit_hook commit_hook);
  };
}

unfoldable pub add_post_commit :
    CommitHook → StoreBucketPropsCommandBuilder → StoreBucketPropsCommandBuilder
unfolding add_commit_hook_to to_rpb_commit_hook
add_post_commit commit_hook builder = record builder {
  props = record builder.props {
    postcommit = add_commit_hook_to builder.props.postcommit (to_rpb_commit_hook commit_hook);
  };
}

unfoldable pub with_chash_key_fun :
    ModFun → StoreBucketPropsCommandBuilder → StoreBucketPropsCommandBuilder
unfolding to_rpb_mod_fun
with_chash_key_fun val builder = record builder {
  props = record builder.props { chash_keyfun = some (to_rpb_mod_fun val) };
}

unfoldable with_hll_precision : ℕ → StoreBucketPropsCommandBuilder → StoreBucketPropsCommandBuilder
with_hll_precision precision builder = record builder {
  props = record builder.props { hll_precision = some precision };
}

unfoldable pub build : StoreBucketPropsCommandBuilder → Error ⊎ StoreBucketPropsCommand
unfolding validate
build builder = do
  protobuf ← validate (record builder.protobuf { props = some builder.props })
  inr (record { impl = new_impl; last_node = none; protobuf = protobuf })

unfoldable pub construct_pb_request :
    StoreBucketPropsCommand → Run (StoreBucketPropsCommand × (Error ⊎ Option Message))
construct_pb_request cmd = ok (cmd, inr (some (rpb_set_bucket_req cmd.protobuf)))

unfoldable pub on_success :
    StoreBucketPropsCommand → Option Message → Run (StoreBucketPropsCommand × Option Error)
on_success cmd msg = ok (record cmd { impl = succeeded cmd.impl }, none)

abbrev pub get_request_code : StoreBucketPropsCommand → ℕ
get_request_code cmd = rpb_code_rpb_set_bucket_req

abbrev pub get_response_code : StoreBucketPropsCommand → ℕ
get_response_code cmd = rpb_code_rpb_set_bucket_resp

abbrev pub get_response_protobuf_message : StoreBucketPropsCommand → Option Message
get_response_protobuf_message cmd = none

abbrev pub api : CommandApi StoreBucketPropsCommand Message
api = record {
  get_request_code = get_request_code;
  get_response_code = get_response_code;
  construct_pb_request = construct_pb_request;
  get_response_protobuf_message = get_response_protobuf_message;
  success = λ k. k.impl.success;
  error = λ k. k.impl.error;
  handle_error = λ k e. record k { impl = on_error k.impl e };
  handle_retry = λ k. record k { impl = on_retry k.impl };
  handle_success = on_success;
  allow_listing = λ k. none;
  get_timeout = λ k. none;
  is_done = λ k. none;
  is_retryable = λ k. true;
  get_last_node = λ k. k.last_node;
  record_last_node = λ k node. record k { last_node = some node };
}
