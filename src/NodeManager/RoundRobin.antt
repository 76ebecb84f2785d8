-- ===== src/NodeManager/RoundRobin.antt =====
-- node_manager.go: the loop finds a node that executes, and when it ends without one.
use riak_go_client.Prelude.{
  ℕ, zero, suc, ◌+◌, ◌≤◌, ◌<◌, ◌≡◌, ◌≢◌, refl, Bool, true, false, Option, none, some, inl, inr,
  List, [], ◌∷◌, arith, ◌==◌, length, get_elem?, Run, ok, panic, spins, Bool-cases,
}
use riak_go_client.Errors.{Error}
use riak_go_client.NodeManager.{
  DefaultNodeManager, Outcome, skips, wrap_index, after_execute, at_node, loop, execute_on_node,
}
use riak_go_client.NodeManager.Ring.{
  dist, wrapped, wrapped-lt, dist_zero, dist_next, Outlasts, Outlasts-next, Outlasts-start,
  get_elem?-lt,
}

module _ {W : Type 0} (exec : ℕ → W → Run (Bool × Option Error × W)) where
  -- A node's `execute` never panics.
  abbrev pub Answers : Type 0
  Answers = (n : ℕ) (w : W) → (r : Bool × Option Error × W) × (exec n w ≡ ok r)

  -- A node that executes whatever command it is given.
  abbrev pub Executes : ℕ → Type 0
  Executes n = (w : W) → (e : Option Error) × (w' : W) × (exec n w ≡ ok (true, e, w'))

  -- The call ends, having executed the command.
  abbrev pub Executed : Run (Outcome W) → Type 0
  Executed (ok (nm, executed, err, w)) = executed ≡ true
  Executed (panic p) = ⊥
  Executed spins = ⊥

  module _ (nodes : List ℕ) (previous : Option ℕ) (start : ℕ) where
    at_node-Executed :
        (more : ℕ → Bool → Option Error → W → Run (Outcome W)) (index n : ℕ) (executed : Bool)
        (err : Option Error) (w : W)
        → Answers
        → start ≢ index
        → ((executed : Bool) (err : Option Error) (w : W) → Executed (more index executed err w))
        → Executed (at_node exec nodes previous start more index (some n) executed err w)
    unfolding at_node
    at_node-Executed more index n executed err w answers on found =
        elim (Bool-cases (skips nodes previous n)) [
          | inl skipped ↦ rw skipped (found executed err w)
          | inr asked ↦
              let ((x, e, w'), runs) = answers n w in rw (asked, runs) (step x e w' (found x e w'))
        ]
      where
        step :
            (x : Bool) (e : Option Error) (w' : W)
            → Executed (more index x e w')
            → Executed (after_execute exec nodes previous start more index (x, e, w'))
        step true e w' f = refl
        step false e w' f = rw off f
          where
            off : (start == index) ≡ false
            off = ground arith

    at_target-Executed :
        (more : ℕ → Bool → Option Error → W → Run (Outcome W)) (index n : ℕ) (executed : Bool)
        (err : Option Error) (w : W)
        → skips nodes previous n ≡ false
        → Executes n
        → Executed (at_node exec nodes previous start more index (some n) executed err w)
    unfolding at_node after_execute
    at_target-Executed more index n executed err w asked works =
        let (e, w', runs) = works w in rw (asked, runs) refl

    loop-Executed :
        (fuel d t n index : ℕ) (executed : Bool) (err : Option Error) (w : W)
        → Answers
        → get_elem? nodes t ≡ some n
        → t < length nodes
        → skips nodes previous n ≡ false
        → Executes n
        → d < fuel
        → dist (length nodes) (wrap_index nodes index) t ≡ d
        → Outlasts (length nodes) start (wrap_index nodes index) d
        → Executed (loop exec nodes previous start fuel index executed err w)
    unfolding loop
    loop-Executed zero d t n index executed err w answers at lt asked works f e o =
        absurd (omega arith)
    loop-Executed (suc fuel) zero t n index executed err w answers at lt asked works f e o =
        let here : wrap_index nodes index ≡ t =
          dist_zero (length nodes) _ t (wrapped-lt (length nodes) index (omega arith)) e in
        rw (here, at)
          (at_target-Executed (loop exec nodes previous start fuel) (t + 1) n executed err w asked
            works)
    loop-Executed (suc fuel) (suc d) t n index executed err w answers at lt asked works f e o =
        let i = wrap_index nodes index in
        let inside = wrapped-lt (length nodes) index (omega arith) in
        let (off, o') = Outlasts-next (length nodes) start i d inside o in
        let (m, found) = get_elem?-lt nodes i inside in
        rw found (
          at_node-Executed (loop exec nodes previous start fuel) (i + 1) m executed err w answers
            off
            (λ x e' w'.
              loop-Executed fuel d t n (i + 1) x e' w' answers at lt asked works (omega arith)
                (dist_next (length nodes) i t d inside lt e) o'))

  -- Where one of the nodes executes every command and is not to be avoided, and every node's
  -- `execute` returns, the round robin reaches a node that executes the command, wherever the
  -- index stands, in at most as many rounds as there are nodes.
  pub execute_on_node-Executed :
      (nm : DefaultNodeManager) (nodes : List ℕ) (previous : Option ℕ) (w : W) (t n fuel : ℕ)
      → Answers
      → get_elem? nodes t ≡ some n
      → t < length nodes
      → skips nodes previous n ≡ false
      → Executes n
      → length nodes ≤ fuel
      → Executed (execute_on_node exec fuel nm (some nodes) previous w)
  unfolding execute_on_node
  execute_on_node-Executed nm [] previous w t n fuel answers at lt asked works f =
      absurd (omega arith)
  execute_on_node-Executed nm (a ∷ rest) previous w t n fuel answers at lt asked works f =
      let len = length (a ∷ rest) in
      let i = wrapped len nm.node_index in
      let close : dist len i t < len = ground (arith, wrapped-lt len nm.node_index) in
      loop-Executed (a ∷ rest) previous nm.node_index fuel (dist len i t) t n nm.node_index false
        none w answers at lt asked works (omega arith) refl
        (Outlasts-start len nm.node_index _ close)
