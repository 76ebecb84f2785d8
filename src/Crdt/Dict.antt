-- ===== src/Crdt/Dict.antt =====
-- Go's maps with strings as keys: a list of the entries, in an order in which a range over them
-- may visit them. A map that is nil is empty.
use riak_go_client.Prelude.{
  ◌≡◌, refl, Bool, true, false, ◌||◌, Option, none, some, List, [], ◌∷◌, if◌then◌else◌, arith, ap,
  Bool-cases, inl, inr,
}
use riak_go_client.Object.{Bytes, same}
use riak_go_client.Object.Indexes.{same_refl}

abbrev pub Dict : Type 0 → Type 0
Dict V = List (Bytes × V)

-- A map to `bool` whose values are all true: the names that it has.
abbrev pub Names : Type 0
Names = List Bytes

module _ {V : Type 0} where
  unfoldable pub lookup : Bytes → Dict V → Option V
  lookup k [] = none
  lookup k ((j, v) ∷ d) = if same j k then some v else lookup k d

  unfoldable pub put : Bytes → V → Dict V → Dict V
  put k v [] = (k, v) ∷ []
  put k v ((j, w) ∷ d) = if same j k then (j, v) ∷ d else (j, w) ∷ put k v d

  unfoldable pub delete : Bytes → Dict V → Dict V
  delete k [] = []
  delete k ((j, v) ∷ d) = if same j k then delete k d else (j, v) ∷ delete k d

unfoldable pub has_name : Bytes → Names → Bool
has_name k [] = false
has_name k (j ∷ d) = same j k || has_name k d

unfoldable pub put_name : Bytes → Names → Names
unfolding has_name
put_name k d = if has_name k d then d else k ∷ d

unfoldable pub delete_name : Bytes → Names → Names
delete_name k [] = []
delete_name k (j ∷ d) = if same j k then delete_name k d else j ∷ delete_name k d

pub same_eq : (a b : Bytes) → same a b ≡ true → a ≡ b
same_eq [] [] h = refl
same_eq [] (b ∷ bs) h = cc
same_eq (a ∷ cs) [] h = cc
same_eq (a ∷ cs) (b ∷ bs) h = ground (arith, same_eq cs bs)

-- `same` at two names that are compared with a third.
same_trans : (j k i : Bytes) → same j k ≡ true → same j i ≡ same k i
same_trans j k i h = ap (λ x. same x i) (same_eq j k h)

pub same_sym : (a b : Bytes) → same a b ≡ same b a
same_sym [] [] = refl
same_sym [] (b ∷ bs) = refl
same_sym (a ∷ cs) [] = refl
same_sym (a ∷ cs) (b ∷ bs) = ground (arith, same_sym cs bs)

module _ {V : Type 0} where
  pub lookup-put :
      (k j : Bytes) (v : V) (d : Dict V)
      → lookup j (put k v d) ≡ (if same k j then some v else lookup j d)
  unfolding lookup put
  lookup-put k j v [] = refl
  lookup-put k j v ((i, w) ∷ d) = elim (Bool-cases (same i k)) [
    | inl e ↦ rw (e, same_trans i k j e) (again k j v w (lookup j d))
    | inr e ↦
        rw (e, lookup-put k j v d)
          (ground (arith, same_eq i j, same_eq k j, same_sym i k, same_refl k, same_refl j))
  ]
    where
      again :
          (k j : Bytes) (v w : V) (o : Option V)
          → (if same k j then some v else o)
            ≡ (if same k j then some v else if same k j then some w else o)
      again k j v w o = ground arith

  pub lookup-delete :
      (k j : Bytes) (d : Dict V) → lookup j (delete k d) ≡ (if same k j then none else lookup j d)
  unfolding lookup delete
  lookup-delete k j [] = ground arith
  lookup-delete k j ((i, w) ∷ d) = elim (Bool-cases (same i k)) [
    | inl e ↦ rw (e, lookup-delete k j d, same_trans i k j e) (ground arith)
    | inr e ↦
        rw (e, lookup-delete k j d)
          (ground (arith, same_eq i j, same_eq k j, same_sym i k, same_refl k, same_refl j))
  ]

pub has_name-put_name :
    (k j : Bytes) (d : Names) → has_name j (put_name k d) ≡ (same k j || has_name j d)
unfolding has_name put_name
has_name-put_name k j d = elim (Bool-cases (has_name k d)) [
  | inl e ↦ rw e (ground (arith, same_eq k j))
  | inr e ↦ rw e refl
]

pub has_name-delete_name :
    (k j : Bytes) (d : Names)
    → has_name j (delete_name k d) ≡ (if same k j then false else has_name j d)
unfolding has_name delete_name
has_name-delete_name k j [] = ground arith
has_name-delete_name k j (i ∷ d) = elim (Bool-cases (same i k)) [
  | inl e ↦ rw (e, has_name-delete_name k j d, same_trans i k j e) (ground arith)
  | inr e ↦
      rw (e, has_name-delete_name k j d)
        (ground (arith, same_eq i j, same_eq k j, same_sym i k, same_refl k, same_refl j))
]
