-- ===== src/Misc/Hooks.antt =====
-- misc_commands.go: the hooks and the hash function that are stored, and what is fetched of them.
use riak_go_client.Prelude.{
  ◌≡◌, refl, ◌∙◌, ap, true, Option, none, some, inr, List, [], ◌∷◌, ◌++◌, arith,
}
use mathlib.Core.List.{append-nil}
use riak_go_client.Rpb.Fields.{validate}
use riak_go_client.Rpb.Riak.{
  RpbCommitHook, RpbBucketProps, RpbGetBucketResp, rpb_set_bucket_req_locatable,
}
use riak_go_client.Misc.BucketProps.{
  CommitHook, ModFun, get_hook, get_hooks_from, get_fun_from, process_rpb_get_bucket_resp,
  to_rpb_commit_hook, to_rpb_fun, to_rpb_mod_fun, add_commit_hook_to,
}
use riak_go_client.Misc.StoreBucketProps.{
  StoreBucketPropsCommand, StoreBucketPropsCommandBuilder, build, add_pre_commit, add_post_commit,
  with_chash_key_fun,
}

-- The hooks are added to the builder, one after the other.
abbrev pub add_pre_commits :
    List CommitHook → StoreBucketPropsCommandBuilder → StoreBucketPropsCommandBuilder
add_pre_commits [] b = b
add_pre_commits (h ∷ hs) b = add_pre_commits hs (add_pre_commit h b)

abbrev pub add_post_commits :
    List CommitHook → StoreBucketPropsCommandBuilder → StoreBucketPropsCommandBuilder
add_post_commits [] b = b
add_post_commits (h ∷ hs) b = add_post_commits hs (add_post_commit h b)

-- What a server answers that has stored the properties, and says that there are hooks.
abbrev pub given_back : RpbBucketProps → RpbGetBucketResp
given_back p = record { props = record p { has_precommit = some true; has_postcommit = some true } }

get_hook-to_rpb_commit_hook : (h : CommitHook) → get_hook (to_rpb_commit_hook h) ≡ h
unfolding get_hook to_rpb_commit_hook to_rpb_fun to_rpb_mod_fun get_fun_from
get_hook-to_rpb_commit_hook h = by_fun h.mod_fun
  where
    by_fun :
        (f : Option ModFun)
        → get_hook (to_rpb_commit_hook (record h { mod_fun = f })) ≡ record h { mod_fun = f }
    by_fun none = refl
    by_fun (some f) = refl

get_hooks_from-added :
    (old : List RpbCommitHook) (h : CommitHook) (hs : List CommitHook)
    → get_hooks_from (add_commit_hook_to old (to_rpb_commit_hook h)) ++ hs
      ≡ get_hooks_from old ++ h ∷ hs
unfolding get_hooks_from add_commit_hook_to
get_hooks_from-added [] h hs = rw (get_hook-to_rpb_commit_hook h) refl
get_hooks_from-added (o ∷ old) h hs = ap (λ l. get_hook o ∷ l) (get_hooks_from-added old h hs)

pre_commits_lem :
    (hs : List CommitHook) (b : StoreBucketPropsCommandBuilder)
    → (get_hooks_from (add_pre_commits hs b).props.precommit
        ≡ get_hooks_from b.props.precommit ++ hs)
      × ((add_pre_commits hs b).props.postcommit ≡ b.props.postcommit)
unfolding add_pre_commit
pre_commits_lem [] b = (rw append-nil refl, refl)
pre_commits_lem (h ∷ hs) b =
    let (e, f) = pre_commits_lem hs (add_pre_commit h b) in
    (e ∙ get_hooks_from-added b.props.precommit h hs, f)

post_commits_lem :
    (hs : List CommitHook) (b : StoreBucketPropsCommandBuilder)
    → (get_hooks_from (add_post_commits hs b).props.postcommit
        ≡ get_hooks_from b.props.postcommit ++ hs)
      × ((add_post_commits hs b).props.precommit ≡ b.props.precommit)
unfolding add_post_commit
post_commits_lem [] b = (rw append-nil refl, refl)
post_commits_lem (h ∷ hs) b =
    let (e, f) = post_commits_lem hs (add_post_commit h b) in
    (e ∙ get_hooks_from-added b.props.postcommit h hs, f)

build_lem :
    (b : StoreBucketPropsCommandBuilder) (cmd : StoreBucketPropsCommand)
    → build b ≡ inr cmd
    → cmd.protobuf.props ≡ some b.props
unfolding build validate
build_lem b cmd built = ground arith

-- The hooks that are added to a builder, and the hash function that it is given, are in the
-- properties that the command sends where `Build` accepts it; and from a server that gives these
-- back and says that there are hooks they are fetched as they were, in the order in which they were
-- added, behind those that the builder had.
pub fetch_hooks-store_hooks :
    (pre post : List CommitHook) (f : ModFun) (b : StoreBucketPropsCommandBuilder)
    (cmd : StoreBucketPropsCommand)
    → build (with_chash_key_fun f (add_post_commits post (add_pre_commits pre b))) ≡ inr cmd
    → (p : RpbBucketProps) × (cmd.protobuf.props ≡ some p)
      × ((process_rpb_get_bucket_resp (given_back p)).pre_commit
          ≡ get_hooks_from b.props.precommit ++ pre)
      × ((process_rpb_get_bucket_resp (given_back p)).post_commit
          ≡ get_hooks_from b.props.postcommit ++ post)
      × ((process_rpb_get_bucket_resp (given_back p)).chash_key_fun ≡ some f)
unfolding process_rpb_get_bucket_resp with_chash_key_fun get_fun_from to_rpb_mod_fun
fetch_hooks-store_hooks pre post f b cmd built =
    let (before, kept) = pre_commits_lem pre b in
    let (behind, same) = post_commits_lem post (add_pre_commits pre b) in
    (
      (with_chash_key_fun f (add_post_commits post (add_pre_commits pre b))).props,
      build_lem _ cmd built,
      ap get_hooks_from same ∙ before,
      behind ∙ ap (λ l. get_hooks_from l ++ post) kept,
      refl,
    )
