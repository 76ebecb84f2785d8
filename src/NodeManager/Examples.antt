-- ===== src/NodeManager/Examples.antt =====
-- node_manager.go: tests and examples.
use riak_go_client.Prelude.{
  ℕ, ◌+◌, ◌≡◌, refl, Bool, true, false, Option, none, some, inl, inr, List, [], ◌∷◌, arith, ◌==◌,
  Run, ok, spins,
}
use riak_go_client.Errors.{Error}
use riak_go_client.NodeManager.{DefaultNodeManager, execute_on_node}
use riak_go_client.NodeManager.RoundRobin.{Executed, execute_on_node-Executed}
use riak_go_client.NodeManager.Spinning.{execute_on_node-spins}

abbrev nodes : List ℕ
nodes = 10 ∷ 20 ∷ 30 ∷ []

-- Node 20 executes, the others refuse; the world counts the calls.
abbrev exec : ℕ → ℕ → Run (Bool × Option Error × ℕ)
exec n w = ok (n == 20, none, w + 1)

-- Every node refuses.
abbrev refuse : ℕ → ℕ → Run (Bool × Option Error × ℕ)
refuse n w = ok (false, none, w + 1)

abbrev at_index : ℕ → DefaultNodeManager
at_index i = record { node_index = i }

execute_on_node_test :
    execute_on_node exec 3 (at_index 2) (some nodes) (some 30) 0 ≡ ok (at_index 2, true, none, 2)
unfolding execute_on_node
execute_on_node_test = refl

execute_on_node-Executed_example :
    Executed exec (execute_on_node exec 3 (at_index 2) (some nodes) (some 30) 0)
execute_on_node-Executed_example =
    execute_on_node-Executed exec (at_index 2) nodes (some 30) 0 1 20 3
      (λ n w. ((n == 20, none, w + 1), refl)) refl (omega arith) refl (λ w. (none, w + 1, refl))
      (omega arith)

execute_on_node-spins_example : execute_on_node refuse 100 (at_index 0) (some nodes) none 0 ≡ spins
execute_on_node-spins_example =
    execute_on_node-spins refuse (at_index 0) nodes none 0 100 (omega arith) (inl refl)
      (λ i n at. inr (λ w. (none, w + 1, refl)))
