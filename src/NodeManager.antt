-- ===== src/NodeManager.antt =====
-- node_manager.go: the round robin over the nodes. A node is known by a number, which stands for
-- its pointer; the slice is nil or holds no nil, as the cluster sees to. One call is modelled with
-- no other call in between, so `nodeIndex` changes by this call only. `exec` is `Node.execute`, on
-- a world that holds the nodes.
use riak_go_client.Prelude.{
  ℕ, zero, suc, ◌+◌, Bool, true, false, Option, none, some, List, [], ◌∷◌, ltb, leb, ◌==◌, ◌&&◌,
  if◌then◌else◌, length, get_elem?, Run, ok, panic, spins, ◌>>=◌, nil_nodes, index_out_of_range,
}
use riak_go_client.Errors.{Error, client_error, node_manager_requires_node}
pub mod Ring
pub mod RoundRobin
pub mod Spinning
pub mod Examples

-- `nodeIndex`.
pub record DefaultNodeManager : Type 0 where
  pub node_index : ℕ

abbrev pub is_previous : Option ℕ → ℕ → Bool
is_previous none node = false
is_previous (some p) node = p == node

-- `len(nodes) > 1 && previous != nil && previous == node`.
abbrev pub skips : List ℕ → Option ℕ → ℕ → Bool
skips nodes previous node = ltb 1 (length nodes) && is_previous previous node

-- `if nm.nodeIndex >= len(nodes) { nm.nodeIndex = 0 }`.
abbrev pub wrap_index : List ℕ → ℕ → ℕ
wrap_index nodes index = if leb (length nodes) index then 0 else index

-- The manager, `executed`, `err`, and the world.
abbrev pub Outcome : Type 0 → Type 0
Outcome W = DefaultNodeManager × Bool × Option Error × W

module _ {W : Type 0} (exec : ℕ → W → Run (Bool × Option Error × W)) where
  module _ (nodes : List ℕ) (previous : Option ℕ) (start : ℕ) where
    -- After `node.execute`: done if it executed, or if the index is back where it started.
    after_execute :
        (ℕ → Bool → Option Error → W → Run (Outcome W))
        → ℕ
        → Bool × Option Error × W
        → Run (Outcome W)
    after_execute more index (executed, err, w) =
        let rest = more index executed err w in
        if executed
        then ok (record { node_index = index }, executed, err, w)
        else if start == index
        then ok (record { node_index = index }, executed, err, w)
        else rest

    at_node :
        (ℕ → Bool → Option Error → W → Run (Outcome W))
        → ℕ
        → Option ℕ
        → Bool
        → Option Error
        → W
        → Run (Outcome W)
    unfolding after_execute
    at_node more index none executed err w = panic index_out_of_range
    at_node more index (some node) executed err w =
        let again = more index executed err w in
        if skips nodes previous node then again else (exec node w >>= after_execute more index)

    -- The `for` loop, on fuel. `index` is `nm.nodeIndex`.
    loop : ℕ → ℕ → Bool → Option Error → W → Run (Outcome W)
    unfolding at_node
    loop zero index executed err w = spins
    loop (suc fuel) index executed err w =
        let i = wrap_index nodes index in
        at_node (loop fuel) (i + 1) (get_elem? nodes i) executed err w

  checked : ℕ → DefaultNodeManager → List ℕ → Option ℕ → W → Run (Outcome W)
  unfolding loop
  checked fuel nm [] previous w = ok (nm, false, some (client_error node_manager_requires_node), w)
  checked fuel nm (n ∷ ns) previous w =
      loop (n ∷ ns) previous nm.node_index fuel nm.node_index false none w

  pub execute_on_node : ℕ → DefaultNodeManager → Option (List ℕ) → Option ℕ → W → Run (Outcome W)
  unfolding checked
  execute_on_node fuel nm none previous w = panic nil_nodes
  execute_on_node fuel nm (some nodes) previous w = checked fuel nm nodes previous w
