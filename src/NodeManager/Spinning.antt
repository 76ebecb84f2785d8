-- ===== src/NodeManager/Spinning.antt =====
-- node_manager.go: when the round robin ends although no node executes, and when it never does.
use riak_go_client.Prelude.{
  ℕ, zero, suc, ◌+◌, ◌-◌, ◌≤◌, ◌<◌, ◌≡◌, ◌≢◌, refl, Bool, true, false, Option, none, some, ◌⊎◌, inl,
  inr, List, [], ◌∷◌, arith, ◌==◌, length, get_elem?, Run, ok, panic, spins, Bool-cases,
}
use riak_go_client.Errors.{Error}
use riak_go_client.NodeManager.{
  DefaultNodeManager, Outcome, skips, wrap_index, after_execute, at_node, loop, execute_on_node,
}
use riak_go_client.NodeManager.RoundRobin.{Answers}
use riak_go_client.NodeManager.Ring.{get_elem?-lt, dist, wrapped, wrapped-lt, dist_zero, dist_next}

module _ {W : Type 0} (exec : ℕ → W → Run (Bool × Option Error × W)) where
  -- A node that executes nothing, as when it is not running or no connection can be had.
  abbrev pub Refuses : ℕ → Type 0
  Refuses n = (w : W) → (e : Option Error) × (w' : W) × (exec n w ≡ ok (false, e, w'))

  -- All nodes that are not skipped refuse.
  abbrev pub AllRefuse : List ℕ → Option ℕ → Type 0
  AllRefuse nodes previous =
      (i n : ℕ) → get_elem? nodes i ≡ some n → (skips nodes previous n ≡ true) ⊎ Refuses n

  abbrev pub Ended : Run (Outcome W) → Type 0
  Ended (ok o) = Unit
  Ended (panic p) = ⊥
  Ended spins = ⊥

  module _ (nodes : List ℕ) (previous : Option ℕ) (start : ℕ) where
    at_refusing :
        (more : ℕ → Bool → Option Error → W → Run (Outcome W)) (index n : ℕ) (executed : Bool)
        (err : Option Error) (w : W)
        → (skips nodes previous n ≡ true) ⊎ ((start ≢ index) × Refuses n)
        → ((executed : Bool) (err : Option Error) (w : W) → more index executed err w ≡ spins)
        → at_node exec nodes previous start more index (some n) executed err w ≡ spins
    unfolding at_node after_execute
    at_refusing more index n executed err w (inl skipped) on = rw skipped (on executed err w)
    at_refusing more index n executed err w (inr (ne, refuses)) on =
        let (e, w', runs) = refuses w in
        let off : (start == index) ≡ false = ground arith in
        elim (Bool-cases (skips nodes previous n)) [
          | inl skipped ↦ rw skipped (on executed err w)
          | inr asked ↦ rw (asked, runs, off) (on false e w')
        ]

    -- The test `startingIndex == nm.nodeIndex` is never passed: the index before it is not behind a
    -- node, or is behind the node that is skipped.
    abbrev pub NeverStops : Type 0
    NeverStops =
        (start ≡ 0)
        ⊎ (length nodes < start)
        ⊎ ((n : ℕ) × (get_elem? nodes (start - 1) ≡ some n) × (skips nodes previous n ≡ true))

    passes :
        NeverStops
        → AllRefuse nodes previous
        → (i n : ℕ) → i < length nodes
        → get_elem? nodes i ≡ some n
        → (skips nodes previous n ≡ true) ⊎ ((start ≢ i + 1) × Refuses n)
    passes never refuse i n lt at = go (refuse i n at) never
      where
        go :
            (skips nodes previous n ≡ true) ⊎ Refuses n
            → NeverStops
            → (skips nodes previous n ≡ true) ⊎ ((start ≢ i + 1) × Refuses n)
        go (inl skipped) _ = inl skipped
        go (inr r) (inl z) = inr (omega arith, r)
        go (inr r) (inr (inl b)) = inr (omega arith, r)
        go (inr r) (inr (inr (p, found, skipped))) = elim (Bool-cases (start == i + 1)) [
          | inl e ↦ inl (ground arith)
          | inr ne ↦ inr (ground arith, r)
        ]

    loop-spins :
        (fuel index : ℕ) (executed : Bool) (err : Option Error) (w : W)
        → 0 < length nodes
        → NeverStops
        → AllRefuse nodes previous
        → loop exec nodes previous start fuel index executed err w ≡ spins
    unfolding loop
    loop-spins zero index executed err w some_node never refuse = refl
    loop-spins (suc fuel) index executed err w some_node never refuse =
        let i = wrap_index nodes index in
        let inside = wrapped-lt (length nodes) index some_node in
        let (m, found) = get_elem?-lt nodes i inside in
        rw found (
          at_refusing (loop exec nodes previous start fuel) (i + 1) m executed err w
            (passes never refuse i m inside found)
            (λ x e w'. loop-spins fuel (i + 1) x e w' some_node never refuse))

    at_node-Ended :
        (more : ℕ → Bool → Option Error → W → Run (Outcome W)) (index n : ℕ) (executed : Bool)
        (err : Option Error) (w : W)
        → Answers exec
        → ((executed : Bool) (err : Option Error) (w : W) → Ended (more index executed err w))
          ⊎ ((skips nodes previous n ≡ false) × (start ≡ index))
        → Ended (at_node exec nodes previous start more index (some n) executed err w)
    unfolding at_node
    at_node-Ended more index n executed err w answers on =
        elim (Bool-cases (skips nodes previous n)) [
          | inl skipped ↦ rw skipped (more_ends skipped on)
          | inr asked ↦ let ((x, e, w'), runs) = answers n w in rw (asked, runs) (step x e w' on)
        ]
      where
        more_ends :
            skips nodes previous n ≡ true
            → ((executed : Bool) (err : Option Error) (w : W) → Ended (more index executed err w))
              ⊎ ((skips nodes previous n ≡ false) × (start ≡ index))
            → Ended (more index executed err w)
        more_ends skipped (inl h) = h executed err w
        more_ends skipped (inr (asked, _)) = absurd (ground arith)

        step :
            (x : Bool) (e : Option Error) (w' : W)
            → ((executed : Bool) (err : Option Error) (w : W) → Ended (more index executed err w))
              ⊎ ((skips nodes previous n ≡ false) × (start ≡ index))
            → Ended (after_execute exec nodes previous start more index (x, e, w'))
        step true e w' on = tt
        step false e w' (inl h) = elim (Bool-cases (start == index)) [
          | inl stop ↦ rw (stop, after_execute) tt
          | inr go_on ↦ rw (go_on, after_execute) (h false e w')
        ]
        step false e w' (inr (_, same)) =
            let stop : (start == index) ≡ true = ground arith in rw (stop, after_execute) tt

    loop-Ended :
        (fuel d n index : ℕ) (executed : Bool) (err : Option Error) (w : W)
        → Answers exec
        → 0 < start
        → start ≤ length nodes
        → get_elem? nodes (start - 1) ≡ some n
        → skips nodes previous n ≡ false
        → d < fuel
        → dist (length nodes) (wrap_index nodes index) (start - 1) ≡ d
        → Ended (loop exec nodes previous start fuel index executed err w)
    unfolding loop
    loop-Ended zero d n index executed err w answers pos within at asked f e = absurd (omega arith)
    loop-Ended (suc fuel) zero n index executed err w answers pos within at asked f e =
        let inside = wrapped-lt (length nodes) index (omega arith) in
        let here = dist_zero (length nodes) (wrap_index nodes index) (start - 1) inside e in
        rw (here, at)
          (at_node-Ended (loop exec nodes previous start fuel) (start - 1 + 1) n executed err w
            answers (inr (asked, omega arith)))
    loop-Ended (suc fuel) (suc d) n index executed err w answers pos within at asked f e =
        let i = wrap_index nodes index in
        let inside = wrapped-lt (length nodes) index (omega arith) in
        let (m, found) = get_elem?-lt nodes i inside in
        let e' = dist_next (length nodes) i (start - 1) d inside (omega arith) e in
        rw found (
          at_node-Ended (loop exec nodes previous start fuel) (i + 1) m executed err w answers (
            inl (λ x e'' w'.
              loop-Ended fuel d n (i + 1) x e'' w' answers pos within at asked (omega arith) e')))

  -- With at least one node the loop never ends, on any fuel, where every node that is not
  -- skipped refuses and the index at the start is 0, as in a new manager, or beyond the nodes,
  -- as after a removal, or just behind a node that is skipped, as when the last call executed on
  -- it.
  pub execute_on_node-spins :
      (nm : DefaultNodeManager) (nodes : List ℕ) (previous : Option ℕ) (w : W) (fuel : ℕ)
      → 0 < length nodes
      → NeverStops nodes previous nm.node_index
      → AllRefuse nodes previous
      → execute_on_node exec fuel nm (some nodes) previous w ≡ spins
  unfolding execute_on_node
  execute_on_node-spins nm [] previous w fuel h never refuse = absurd (omega arith)
  execute_on_node-spins nm (a ∷ rest) previous w fuel h never refuse =
      loop-spins (a ∷ rest) previous nm.node_index fuel nm.node_index false none w h never refuse

  -- The loop ends in at most as many rounds as there are nodes, whatever the nodes return, where
  -- the index at the start is just behind a node that is not skipped.
  pub execute_on_node-Ended :
      (nm : DefaultNodeManager) (nodes : List ℕ) (previous : Option ℕ) (w : W) (n fuel : ℕ)
      → Answers exec
      → 0 < nm.node_index
      → nm.node_index ≤ length nodes
      → get_elem? nodes (nm.node_index - 1) ≡ some n
      → skips nodes previous n ≡ false
      → length nodes ≤ fuel
      → Ended (execute_on_node exec fuel nm (some nodes) previous w)
  unfolding execute_on_node
  execute_on_node-Ended nm [] previous w n fuel answers pos within at asked f = absurd (omega arith)
  execute_on_node-Ended nm (a ∷ rest) previous w n fuel answers pos within at asked f =
      let len = length (a ∷ rest) in
      let close : dist len (wrapped len nm.node_index) (nm.node_index - 1) < len =
        ground (arith, wrapped-lt len nm.node_index) in
      loop-Ended (a ∷ rest) previous nm.node_index fuel _ n nm.node_index false none w answers pos
        within at asked (omega arith) refl
