-- ===== src/NodeManager/Ring.antt =====
-- node_manager.go: positions on the ring of nodes.
use riak_go_client.Prelude.{
  ℕ, zero, suc, ◌+◌, ◌-◌, ◌≤◌, ◌<◌, ◌≡◌, ◌≢◌, refl, some, ◌⊎◌, inl, inr, List, [], ◌∷◌, arith, leb,
  if◌then◌else◌, length, get_elem?, Bool-cases,
}

-- Steps from position `i` forward to position `t` on a ring of `len`.
abbrev pub dist : ℕ → ℕ → ℕ → ℕ
dist len i t = if leb i t then t - i else (len - i) + t

-- The next position on the ring.
abbrev pub wrapped : ℕ → ℕ → ℕ
wrapped len index = if leb len index then 0 else index

-- `start` never comes up as an index, or only after `d` more steps from `i`.
abbrev pub Outlasts : ℕ → ℕ → ℕ → ℕ → Type 0
Outlasts len start i d =
    (start ≡ 0) ⊎ (len < start) ⊎ ((1 ≤ start) × (start ≤ len) × (d ≤ dist len i (start - 1)))

pub wrapped-lt : (len index : ℕ) → 0 < len → wrapped len index < len
wrapped-lt len index h = ground arith

pub dist_zero : (len i t : ℕ) → i < len → dist len i t ≡ 0 → i ≡ t
dist_zero len i t h e = ground arith

pub dist_next :
    (len i t d : ℕ)
    → i < len
    → t < len
    → dist len i t ≡ suc d
    → dist len (wrapped len (i + 1)) t ≡ d
dist_next len i t d h k e = ground arith

pub Outlasts-next :
    (len start i d : ℕ)
    → i < len
    → Outlasts len start i (suc d)
    → (start ≢ i + 1) × Outlasts len start (wrapped len (i + 1)) d
Outlasts-next len start i d h (inl z) = (omega arith, inl z)
Outlasts-next len start i d h (inr (inl b)) = (omega arith, inr (inl b))
Outlasts-next len start i d h (inr (inr (l, m, k))) = (ground arith, inr (inr (l, m, ground arith)))

pub Outlasts-start : (len start d : ℕ) → d < len → Outlasts len start (wrapped len start) d
Outlasts-start len zero d h = inl refl
Outlasts-start len (suc s) d h = elim (Bool-cases (leb (suc s) len)) [
  | inl small ↦ inr (inr (ground arith, ground arith, ground arith))
  | inr big ↦ inr (inl (ground arith))
]

pub get_elem?-lt : (xs : List ℕ) (i : ℕ) → i < length xs → (x : ℕ) × (get_elem? xs i ≡ some x)
get_elem?-lt [] i h = elim h [ ]
get_elem?-lt (x ∷ xs) zero h = (x, refl)
get_elem?-lt (x ∷ xs) (suc i) h = get_elem?-lt xs i (omega arith)
