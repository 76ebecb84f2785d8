-- ===== src/Command/Examples.antt =====
-- command.go: tests and examples.
use riak_go_client.Prelude.{◌≡◌, refl, [], ◌∷◌}
use riak_go_client.Command.{build_riak_message}

build_riak_message_test : build_riak_message 9 (10 ∷ 11 ∷ []) ≡ 0 ∷ 0 ∷ 0 ∷ 3 ∷ 9 ∷ 10 ∷ 11 ∷ []
unfolding build_riak_message
build_riak_message_test = refl
