-- ===== src/Cluster/Members.antt =====
-- cluster.go: the list of the cluster's nodes under `AddNode` and `RemoveNode`.
use mathlib.Core.Bool.{Bool-set}
use mathlib.Core.Logic.Or
use mathlib.Core.List.{
  Perm, Mem, Nodup, Nodup-cons, perm_middle, eq-or-mem_of_mem-cons, not-mem-nil, append-nil,
}
use mathlib.Core.List.Perm
use riak_go_client.Prelude.{
  ℕ, ◌≡◌, refl, subst, true, false, Option, none, some, inl, inr, List, [], ◌∷◌, ◌++◌, arith, ◌==◌,
  Bool-cases, ok,
}
use riak_go_client.Errors.{Error}
use riak_go_client.States.{is_current_state}
use riak_go_client.Cluster.{
  Cluster, NodeApi, contains, last, without_last, swap_remove, add_node, add_started, remove_node,
  cluster_running,
}
use riak_go_client.Node.{node_created}

last-Perm : (m : ℕ) (ms : List ℕ) → Perm (m ∷ ms) (last m ms ∷ without_last m ms)
last-Perm m [] = Perm.refl _
last-Perm m (x ∷ ms) = Perm.trans (Perm.cons m (last-Perm x ms)) (Perm.swap _ _ _)

-- The removal takes one occurrence of the node and no other node.
swap_remove-Perm : (n : ℕ) (ns : List ℕ) → contains n ns ≡ true → Perm ns (n ∷ swap_remove n ns)
swap_remove-Perm n [] h = absurd (ground arith)
swap_remove-Perm n (m ∷ []) h = elim (Bool-cases (n == m)) [
  | inl same ↦
      rw same (subst (λ x. Perm (m ∷ []) (x ∷ [])) {x = m} {y = n} (ground arith) (Perm.refl _))
  | inr other ↦ absurd (ground arith)
]
swap_remove-Perm n (m ∷ m' ∷ ms) h = elim (Bool-cases (n == m)) [
  | inl same ↦ rw same (
      subst (λ x. Perm (m ∷ m' ∷ ms) (x ∷ last m' ms ∷ without_last m' ms)) {x = m} {y = n}
        (ground arith) (Perm.cons m (last-Perm m' ms)))
  | inr other ↦
      rw other
        (Perm.trans (Perm.cons m (swap_remove-Perm n (m' ∷ ms) (ground arith))) (Perm.swap _ _ _))
]

contains-append : (n : ℕ) (ns : List ℕ) → contains n (ns ++ n ∷ []) ≡ true
contains-append n [] = ground arith
contains-append n (m ∷ ns) = elim (Bool-cases (n == m)) [
  | inl same ↦ rw same refl
  | inr other ↦ rw other (contains-append n ns)
]

module _ {W : Type 0} (api : NodeApi W) where
  -- The nodes' `start` and `stop` return.
  pub record Returns : Type 0 where
    pub starts : (n : ℕ) (w : W) → (r : Option Error × W) × (api.start n w ≡ ok r)
    pub stops : (n : ℕ) (w : W) → (r : Option Error × W) × (api.stop n w ≡ ok r)

contains-Mem : (n : ℕ) (ns : List ℕ) → Mem n ns → contains n ns ≡ true
contains-Mem n [] m = absurd (not-mem-nil m)
contains-Mem n (x ∷ ns) m = elim (Bool-cases (n == x)) [
  | inl same ↦ rw same refl
  | inr other ↦ rw other (
      Or.elim (Bool-set _ _) (eq-or-mem_of_mem-cons m) (λ e. absurd (ground arith))
        (λ m'. contains-Mem n ns m'))
]

Nodup-append : (n : ℕ) (ns : List ℕ) → contains n ns ≡ false → Nodup ns → Nodup (ns ++ n ∷ [])
Nodup-append n ns h d =
    Perm.nodup
      (Perm.symm (subst (λ l. Perm (ns ++ n ∷ []) (n ∷ l)) (append-nil ns) (perm_middle ns [])))
      (Nodup-cons.1 (λ m. absurd (ground (arith, contains-Mem n ns m)), d))

module _ {K W : Type 0} (api : NodeApi W) where
  -- Where stopping nodes returns, removing a member takes out that node once and no other,
  -- whatever stopping it answers, and a node that was never started is not stopped.
  pub remove_node-Perm :
      (c : Cluster K) (n : ℕ) (w : W)
      → Returns api
      → contains n c.nodes ≡ true
      → (c' : Cluster K) × (e : Option Error) × (w' : W) × (remove_node api c (some n) w
          ≡ ok (c', e, w'))
        × Perm c.nodes (n ∷ c'.nodes)
        × (api.get_state n w ≡ node_created → w' ≡ w)
  unfolding remove_node
  remove_node-Perm c n w r h = elim (Bool-cases (api.get_state n w == node_created)) [
    | inl fresh ↦ (
      record c { nodes = swap_remove n c.nodes },
      none,
      w,
      rw (h, fresh) refl,
      swap_remove-Perm n c.nodes h,
      λ _. refl,
    )
    | inr started ↦
        let ((e, w'), stops) = r.stops n w in
        (
          record c { nodes = swap_remove n c.nodes },
          e,
          w',
          rw (h, started, stops) refl,
          swap_remove-Perm n c.nodes h,
          λ z. absurd (ground arith),
        )
  ]

  abbrev pub Member : Cluster K → ℕ → Cluster K → Option Error → Type 0
  Member c n c' none = contains n c'.nodes ≡ true
  Member c n c' (some e) = c' ≡ c

  -- Where starting nodes returns, adding a node to a cluster that holds no node twice leaves one
  -- that holds no node twice: the node is a member then, or its start failed and nothing changed.
  pub add_node-Nodup :
      (c : Cluster K) (n : ℕ) (w : W)
      → Returns api
      → Nodup c.nodes
      → (c' : Cluster K) × (e : Option Error) × (w' : W) × (add_node api c (some n) w
          ≡ ok (c', e, w'))
        × Nodup c'.nodes
        × Member c n c' e
  unfolding add_node add_started
  add_node-Nodup c n w r d = elim (Bool-cases (contains n c.nodes)) [
    | inl there ↦ (c, none, w, rw there refl, d, there)
    | inr new ↦ elim (Bool-cases (is_current_state c.state_data cluster_running)) [
      | inr idle ↦ (
        record c { nodes = c.nodes ++ n ∷ [] },
        none,
        w,
        rw (new, idle) refl,
        Nodup-append n c.nodes new d,
        contains-append n c.nodes,
      )
      | inl running ↦ started new running (r.starts n w)
    ]
  ]
    where
      started :
          contains n c.nodes ≡ false
          → is_current_state c.state_data cluster_running ≡ true
          → (r : Option Error × W) × (api.start n w ≡ ok r)
          → (c' : Cluster K) × (e : Option Error) × (w' : W) × (add_node api c (some n) w
              ≡ ok (c', e, w'))
            × Nodup c'.nodes
            × Member c n c' e
      started new running ((some e, w'), starts) =
          (c, some e, w', rw (new, running, starts) refl, d, refl)
      started new running ((none, w'), starts) = (
        record c { nodes = c.nodes ++ n ∷ [] },
        none,
        w',
        rw (new, running, starts) refl,
        Nodup-append n c.nodes new d,
        contains-append n c.nodes,
      )
