-- ===== src/Misc/Examples.antt =====
-- misc_commands.go: tests and examples.
use riak_go_client.Prelude.{◌≡◌, refl, none, some, inr, [], ◌∷◌, ◌++◌}
use riak_go_client.Command.Building.{new_impl}
use riak_go_client.Object.{validate_locatable}
use riak_go_client.Rpb.Fields.{validate}
use riak_go_client.Rpb.Riak.{RpbBucketProps, new_rpb_set_bucket_req}
use riak_go_client.Misc.BucketProps.{
  CommitHook, ModFun, get_hooks_from, process_rpb_get_bucket_resp,
}
use riak_go_client.Misc.StoreBucketProps.{
  StoreBucketPropsCommand, StoreBucketPropsCommandBuilder, build, add_pre_commit, add_post_commit,
  with_chash_key_fun, new_store_bucket_props_command_builder,
}
use riak_go_client.Misc.Hooks.{
  add_pre_commits, add_post_commits, given_back, fetch_hooks-store_hooks,
}

abbrev hash : ModFun
hash = record { module_name = 1 ∷ []; function = 2 ∷ [] }

abbrev named : CommitHook
named = record { name = 3 ∷ []; mod_fun = none }

abbrev calling : CommitHook
calling = record { name = 4 ∷ []; mod_fun = some hash }

abbrev builder : StoreBucketPropsCommandBuilder
builder = record new_store_bucket_props_command_builder {
  protobuf = record new_rpb_set_bucket_req { bucket = some (98 ∷ []); type = some (116 ∷ []) };
}

abbrev hooked : StoreBucketPropsCommandBuilder
hooked =
    with_chash_key_fun hash
      (add_post_commits (calling ∷ []) (add_pre_commits (named ∷ calling ∷ []) builder))

abbrev store : StoreBucketPropsCommand
store = record {
  impl = new_impl;
  last_node = none;
  protobuf = record builder.protobuf { props = some hooked.props };
}

build_hooked_lem : build hooked ≡ inr store
unfolding build validate validate_locatable with_chash_key_fun add_pre_commit add_post_commit
build_hooked_lem = refl

fetch_hooks-store_hooks_example :
    (p : RpbBucketProps) × (store.protobuf.props ≡ some p)
    × ((process_rpb_get_bucket_resp (given_back p)).pre_commit
        ≡ get_hooks_from [] ++ named ∷ calling ∷ [])
    × ((process_rpb_get_bucket_resp (given_back p)).post_commit ≡ get_hooks_from [] ++ calling ∷ [])
    × ((process_rpb_get_bucket_resp (given_back p)).chash_key_fun ≡ some hash)
fetch_hooks-store_hooks_example =
    fetch_hooks-store_hooks (named ∷ calling ∷ []) (calling ∷ []) hash builder store
      build_hooked_lem
