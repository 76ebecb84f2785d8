-- ===== src/Object/Indexes.antt =====
-- object.go: the map of indexes, written to a message and read from it.
use mathlib.Core.List.{append_assoc, append-nil}
use riak_go_client.Prelude.{◌≡◌, refl, ap, ◌∙◌, true, false, List, [], ◌∷◌, ◌++◌, arith}
use riak_go_client.Object.{
  Bytes, Pair, Indexes, same, add_index, read_indexes, index_pairs, all_pairs,
}

pub same_refl : (n : Bytes) → same n n ≡ true
same_refl [] = refl
same_refl (a ∷ n) = ground (arith, same_refl n)

-- No entry has the name.
abbrev pub Absent : Bytes → Indexes → Type 0
Absent n [] = Unit
Absent n ((m, vs) ∷ rest) = (same n m ≡ false) × Absent n rest

-- Every name has values, and no name stands twice.
abbrev pub Proper : Indexes → Indexes → Type 0
Proper before [] = Unit
Proper before ((n, []) ∷ rest) = ⊥
Proper before ((n, v ∷ vs) ∷ rest) = Absent n before × Proper (before ++ (n, v ∷ vs) ∷ []) rest

add_index-Absent :
    (n v : Bytes) (m : Indexes) → Absent n m → add_index n v m ≡ m ++ (n, v ∷ []) ∷ []
unfolding add_index
add_index-Absent n v [] h = refl
add_index-Absent n v ((k, vs) ∷ m) (d, h) = rw (d, add_index-Absent n v m h) refl

add_index-last :
    (n v : Bytes) (vs : List Bytes) (m : Indexes)
    → Absent n m
    → add_index n v (m ++ (n, vs) ∷ []) ≡ m ++ (n, vs ++ v ∷ []) ∷ []
unfolding add_index
add_index-last n v vs [] h = rw (same_refl n) refl
add_index-last n v vs ((k, ws) ∷ m) (d, h) = rw (d, add_index-last n v vs m h) refl

-- The values of the last name are read behind those that it has.
read_values :
    (n : Bytes) (vs ws : List Bytes) (ps : List Pair) (m : Indexes)
    → Absent n m
    → read_indexes (index_pairs n ws ++ ps) (m ++ (n, vs) ∷ [])
      ≡ read_indexes ps (m ++ (n, vs ++ ws) ∷ [])
unfolding read_indexes index_pairs
read_values n vs [] ps m h = rw (append-nil vs) refl
read_values n vs (w ∷ ws) ps m h =
    ap (read_indexes (index_pairs n ws ++ ps)) (add_index-last n w vs m h)
    ∙ read_values n (vs ++ w ∷ []) ws ps m h
    ∙ rw append_assoc refl

pub read-all_pairs :
    (m rest : Indexes) → Proper m rest → read_indexes (all_pairs rest) m ≡ m ++ rest
unfolding read_indexes all_pairs index_pairs
read-all_pairs m [] h = rw (append-nil m) refl
read-all_pairs m ((n, []) ∷ rest) h = elim h [ ]
read-all_pairs m ((n, v ∷ vs) ∷ rest) (a, h) =
    ap (read_indexes (index_pairs n vs ++ all_pairs rest)) (add_index-Absent n v m a)
    ∙ read_values n (v ∷ []) vs (all_pairs rest) m a
    ∙ read-all_pairs (m ++ (n, v ∷ vs) ∷ []) rest h
    ∙ rw append_assoc refl
