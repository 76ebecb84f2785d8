-- ===== src/Cluster/Fleet.antt =====
-- cluster.go and node.go together: `Start` and `Stop` of a cluster over nodes of node.go.
use mathlib.Core.Logic.Or
use mathlib.Core.List.{
  Mem, Mem-prop, Nodup, Nodup-cons, eq-or-mem_of_mem-cons, not-mem-nil, mem-cons_self,
  mem-cons_of_mem,
}
use riak_go_client.Prelude.{
  ℕ, ◌≡◌, ◌≢◌, refl, sym, subst, ◌∙◌, true, Option, none, inl, inr, List, [], ◌∷◌, arith, ◌==◌,
  ==_refl, if◌then◌else◌, Bool-cases, Run, ok, ok-injective, ◌>>=◌,
}
use riak_go_client.Errors.{Error}
use riak_go_client.ConnectionManager.{ConnApi}
use riak_go_client.ConnectionManager.Shutdown.{close_all}
use riak_go_client.ConnectionManager.Starting.{dialled}
use riak_go_client.Node.{Node, node_shutdown}
use riak_go_client.Node.Lifecycle as Nodes
use riak_go_client.Node.Lifecycle.{IsFresh, IsUp, running_with, start-IsUp, stop-shutdown}
use riak_go_client.Cluster.{NodeApi}
use riak_go_client.Cluster.Lifecycle.{start_nodes, stop_nodes, all_stopped}

module _ {C W : Type 0} (api : ConnApi C W) where
  -- The nodes by their numbers, and the world.
  abbrev pub Fleet : Type 0
  Fleet = (ℕ → Node C) × W

  abbrev pub put_node : ℕ → Node C → (ℕ → Node C) → ℕ → Node C
  put_node n x ns m = if m == n then x else ns m

  abbrev pub landed : ℕ → (ℕ → Node C) → Node C × Option Error × W → Option Error × Fleet
  landed n ns (x, e, w) = (e, (put_node n x ns, w))

  -- The nodes of node.go as the cluster calls them.
  abbrev pub node_api : NodeApi Fleet
  node_api = record {
    start = λ n (ns, w). Nodes.start api (ns n) w >>= λ r. ok (landed n ns r);
    stop = λ n (ns, w). Nodes.stop api (ns n) w >>= λ r. ok (landed n ns r);
    get_state = λ n (ns, w). (ns n).state_data.state_val;
  }

  abbrev pub Each : (Node C → Type 0) → List ℕ → (ℕ → Node C) → Type 0
  Each P l ns = (n : ℕ) → Mem n l → P (ns n)

  -- A loop that gives every node of `l` the property and leaves the others as they were.
  pub record Swept (P : Node C → Type 0) (run : Run (Option Error × Fleet)) (l : List ℕ)
      (ns : ℕ → Node C) : Type 0 where
    pub nodes : ℕ → Node C
    pub world : W
    pub runs : run ≡ ok (none, (nodes, world))
    pub each : Each P l nodes
    pub others : (n : ℕ) → (Mem n l → ⊥) → nodes n ≡ ns n

  put_node_other : (n m : ℕ) (x : Node C) (ns : ℕ → Node C) → m ≢ n → put_node n x ns m ≡ ns m
  put_node_other n m x ns d = elim (Bool-cases (m == n)) [
    | inl same ↦ absurd (ground arith)
    | inr other ↦ rw other refl
  ]

  put_node_here : (n : ℕ) (x : Node C) (ns : ℕ → Node C) → put_node n x ns n ≡ x
  put_node_here n x ns = rw (==_refl n) refl

  -- What held of the nodes of `l` still does when another one is put in place.
  Each-put_node :
      (P : ℕ → Node C → Type 0) (n : ℕ) (l : List ℕ) (x : Node C) (ns : ℕ → Node C)
      → (Mem n l → ⊥)
      → ((m : ℕ) → Mem m l → P m (ns m))
      → (m : ℕ) → Mem m l
      → P m (put_node n x ns m)
  Each-put_node P n l x ns fresh p m i =
      subst (P m) (sym (put_node_other n m x ns (λ e. fresh (subst (λ k. Mem k l) e i)))) (p m i)

  Mem-tail : (m n : ℕ) (l : List ℕ) → m ≢ n → Mem m (n ∷ l) → Mem m l
  Mem-tail m n l d i = Or.elim Mem-prop (eq-or-mem_of_mem-cons i) (λ e. absurd (d e)) (λ j. j)

  cons-Swept :
      (P : Node C → Type 0) (run rest : Run (Option Error × Fleet)) (n : ℕ) (l : List ℕ)
      (x : Node C) (ns : ℕ → Node C)
      → (Mem n l → ⊥)
      → P x
      → run ≡ rest
      → Swept P rest l (put_node n x ns)
      → Swept P run (n ∷ l) ns
  cons-Swept P run rest n l x ns fresh p e r = record {
    nodes = r.nodes;
    world = r.world;
    runs = e ∙ r.runs;
    each = λ m i. elim (Bool-cases (m == n)) [
      | inl same ↦
          subst (λ k. P (r.nodes k)) {x = n} {y = m} (ground arith)
            (subst P (sym (r.others n fresh ∙ put_node_here n x ns)) p)
      | inr other ↦ r.each m (Mem-tail m n l (λ z. absurd (ground arith)) i)
    ];
    others = λ m o.
        r.others m (λ i. o (mem-cons_of_mem n i))
        ∙ put_node_other n m x ns (λ z. o (subst (λ k. Mem k (n ∷ l)) (sym z) mem-cons_self));
  }

  -- The fleet after its nodes have been started one after the other: each dials as often as its
  -- `minConnections` says, in the world that those before it left, and runs with the connections that
  -- it gets.
  abbrev pub fleet_with : List ℕ → (ℕ → Node C) → W → Fleet
  fleet_with [] ns w = (ns, w)
  fleet_with (n ∷ l) ns w =
      let (cs, w') = dialled api (ns n).cm w in
      fleet_with l (put_node n (running_with api (ns n) cs) ns) w'

  start_nodes_runs :
      (l : List ℕ) (ns : ℕ → Node C) (w : W)
      → Nodup l
      → Each (IsFresh api) l ns
      → start_nodes node_api l (ns, w) ≡ ok (none, fleet_with l ns w)
  unfolding start_nodes
  start_nodes_runs [] ns w d f = refl
  start_nodes_runs (n ∷ l) ns w d f =
      let (cs, w') = dialled api (ns n).cm w in
      let x = running_with api (ns n) cs in
      let (runs, up) = start-IsUp api (ns n) w (f n mem-cons_self) in
      let (fresh, d') = Nodup-cons.0 d in
      rw runs (
        start_nodes_runs l (put_node n x ns) w' d'
          (Each-put_node (λ m. IsFresh api) n l x ns fresh (λ m i. f m (mem-cons_of_mem n i))))

  start_nodes-Swept :
      (l : List ℕ) (ns : ℕ → Node C) (w : W)
      → Nodup l
      → Each (IsFresh api) l ns
      → Swept (λ x. IsUp api x 0) (start_nodes node_api l (ns, w)) l ns
  unfolding start_nodes
  start_nodes-Swept [] ns w d f = record {
    nodes = ns;
    world = w;
    runs = refl;
    each = λ n m. absurd (not-mem-nil m);
    others = λ n o. refl;
  }
  start_nodes-Swept (n ∷ l) ns w d f =
      let (cs, w') = dialled api (ns n).cm w in
      let x = running_with api (ns n) cs in
      let (runs, up) = start-IsUp api (ns n) w (f n mem-cons_self) in
      let (fresh, d') = Nodup-cons.0 d in
      cons-Swept (λ x. IsUp api x 0) _ _ n l x ns fresh up (rw runs refl)
        (start_nodes-Swept l (put_node n x ns) w' d'
          (Each-put_node (λ m. IsFresh api) n l x ns fresh (λ m i. f m (mem-cons_of_mem n i))))

  pub start_nodes-fleet_with :
      (l : List ℕ) (ns : ℕ → Node C) (w : W)
      → Nodup l
      → Each (IsFresh api) l ns
      → (start_nodes node_api l (ns, w) ≡ ok (none, fleet_with l ns w))
        × Each (λ x. IsUp api x 0) l (fleet_with l ns w).0
  start_nodes-fleet_with l ns w d f =
      let runs = start_nodes_runs l ns w d f in
      let s = start_nodes-Swept l ns w d f in
      (
        runs,
        subst (λ r. Each (λ x. IsUp api x 0) l r.1.0) (ok-injective (sym s.runs ∙ runs)) s.each,
      )

  pub stop_nodes-Swept :
      (l : List ℕ) (ns : ℕ → Node C) (w : W) (out : ℕ → ℕ)
      → Nodup l
      → ((n : ℕ) → Mem n l → IsUp api (ns n) (out n))
      → Swept
          (λ x. x.state_data.state_val ≡ node_shutdown)
          (stop_nodes node_api none l (ns, w))
          l
          ns
  unfolding stop_nodes
  stop_nodes-Swept [] ns w out d up = record {
    nodes = ns;
    world = w;
    runs = refl;
    each = λ n m. absurd (not-mem-nil m);
    others = λ n o. refl;
  }
  stop_nodes-Swept (n ∷ l) ns w out d up =
      let (x, runs, down, _, _, _) = stop-shutdown api (ns n) (out n) w (up n mem-cons_self) in
      let (fresh, d') = Nodup-cons.0 d in
      let w' = close_all api (ns n).cm.q.queue_chan w in
      cons-Swept (λ x. x.state_data.state_val ≡ node_shutdown)
        (stop_nodes node_api none (n ∷ l) (ns, w))
        (stop_nodes node_api none l (put_node n x ns, w')) n l x ns fresh down (rw runs refl)
        (stop_nodes-Swept l (put_node n x ns) w' out d' (
          Each-put_node (λ m y. IsUp api y (out m)) n l x ns fresh
            (λ m i. up m (mem-cons_of_mem n i))))

  pub all_stopped-Each :
      (l : List ℕ) (ns : ℕ → Node C) (w : W)
      → Each (λ x. x.state_data.state_val ≡ node_shutdown) l ns
      → all_stopped node_api l (ns, w) ≡ true
  unfolding all_stopped
  all_stopped-Each [] ns w f = refl
  all_stopped-Each (n ∷ l) ns w f =
      rw (f n mem-cons_self) (all_stopped-Each l ns w (λ m i. f m (mem-cons_of_mem n i)))
