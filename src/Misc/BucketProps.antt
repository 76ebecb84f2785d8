-- ===== src/Misc/BucketProps.antt =====
-- misc_commands.go: bucket properties and commit hooks, in and out of messages. `repl` is the number
-- of its mode.
use riak_go_client.Prelude.{ℕ, Bool, Option, none, some, List, [], ◌∷◌, ◌++◌, if◌then◌else◌}
use riak_go_client.Object.{Bytes}
use riak_go_client.Rpb.Fields.{get_bytes, get_number, get_bool}
use riak_go_client.Rpb.Riak.{
  RpbModFun, RpbCommitHook, RpbGetBucketResp, RpbReplMode, repl_false, repl_realtime, repl_fullsync,
  repl_true,
}

pub record ModFun : Type 0 where
  pub module_name : Bytes
  pub function : Bytes

pub record CommitHook : Type 0 where
  pub name : Bytes
  pub mod_fun : Option ModFun

-- Of a function that is there.
abbrev get_fun : RpbModFun → ModFun
get_fun f = record { module_name = f.module_name; function = f.function }

unfoldable pub get_fun_from : Option RpbModFun → Option ModFun
get_fun_from none = none
get_fun_from (some f) = some (get_fun f)

unfoldable pub get_hook : RpbCommitHook → CommitHook
unfolding get_fun_from
get_hook hook = record { name = get_bytes hook.name; mod_fun = get_fun_from hook.modfun }

unfoldable pub get_hooks_from : List RpbCommitHook → List CommitHook
unfolding get_hook
get_hooks_from [] = []
get_hooks_from (hook ∷ hooks) = get_hook hook ∷ get_hooks_from hooks

abbrev repl_mode : Option RpbReplMode → ℕ
repl_mode none = 0
repl_mode (some repl_false) = 0
repl_mode (some repl_realtime) = 1
repl_mode (some repl_fullsync) = 2
repl_mode (some repl_true) = 3

pub record FetchBucketPropsResponse : Type 0 where
  pub n_val : ℕ
  pub allow_mult : Bool
  pub last_write_wins : Bool
  pub has_precommit : Bool
  pub has_postcommit : Bool
  pub old_v_clock : ℕ
  pub young_v_clock : ℕ
  pub big_v_clock : ℕ
  pub small_v_clock : ℕ
  pub r : ℕ
  pub pr : ℕ
  pub w : ℕ
  pub pw : ℕ
  pub dw : ℕ
  pub rw : ℕ
  pub basic_quorum : Bool
  pub not_found_ok : Bool
  pub search : Bool
  pub consistent : Bool
  pub repl : ℕ
  pub backend : Bytes
  pub search_index : Bytes
  pub data_type : Bytes
  pub pre_commit : List CommitHook
  pub post_commit : List CommitHook
  pub chash_key_fun : Option ModFun
  pub link_fun : Option ModFun
  pub hll_precision : ℕ

unfoldable pub process_rpb_get_bucket_resp : RpbGetBucketResp → FetchBucketPropsResponse
unfolding get_hooks_from get_fun_from
process_rpb_get_bucket_resp rsp =
    let p = rsp.props in
    record {
      n_val = get_number p.n_val;
      allow_mult = get_bool p.allow_mult;
      last_write_wins = get_bool p.last_write_wins;
      has_precommit = get_bool p.has_precommit;
      has_postcommit = get_bool p.has_postcommit;
      old_v_clock = get_number p.old_vclock;
      young_v_clock = get_number p.young_vclock;
      big_v_clock = get_number p.big_vclock;
      small_v_clock = get_number p.small_vclock;
      r = get_number p.r;
      pr = get_number p.pr;
      w = get_number p.w;
      pw = get_number p.pw;
      dw = get_number p.dw;
      rw = get_number p.rw;
      basic_quorum = get_bool p.basic_quorum;
      not_found_ok = get_bool p.notfound_ok;
      search = get_bool p.search;
      consistent = get_bool p.consistent;
      repl = repl_mode p.repl;
      backend = get_bytes p.backend;
      search_index = get_bytes p.search_index;
      data_type = get_bytes p.datatype;
      pre_commit = if get_bool p.has_precommit then get_hooks_from p.precommit else [];
      post_commit = if get_bool p.has_postcommit then get_hooks_from p.postcommit else [];
      chash_key_fun = get_fun_from p.chash_keyfun;
      link_fun = get_fun_from p.linkfun;
      hll_precision = get_number p.hll_precision;
    }

unfoldable pub to_rpb_mod_fun : ModFun → RpbModFun
to_rpb_mod_fun f = record { module_name = f.module_name; function = f.function }

unfoldable pub to_rpb_fun : Option ModFun → Option RpbModFun
unfolding to_rpb_mod_fun
to_rpb_fun none = none
to_rpb_fun (some f) = some (to_rpb_mod_fun f)

unfoldable pub to_rpb_commit_hook : CommitHook → RpbCommitHook
unfolding to_rpb_fun
to_rpb_commit_hook hook = record { name = some hook.name; modfun = to_rpb_fun hook.mod_fun }

unfoldable pub add_commit_hook_to : List RpbCommitHook → RpbCommitHook → List RpbCommitHook
add_commit_hook_to hooks hook = hooks ++ hook ∷ []
