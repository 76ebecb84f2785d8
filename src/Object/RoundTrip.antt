-- ===== src/Object/RoundTrip.antt =====
-- object.go: an object that is written to a message and read back.
use riak_go_client.Prelude.{◌≡◌, refl, true, false, none, List, [], ◌∷◌, if◌then◌else◌}
use riak_go_client.Object.{
  Object, Pair, Link, Indexes, from_rpb_content, to_rpb_content, all_pairs, read_indexes,
}
use riak_go_client.Object.Indexes.{Proper, read-all_pairs}

-- What a message carries of an object that a client sends.
abbrev pub sent : Object → Object
sent o = record o {
  bucket_type = [];
  bucket = [];
  key = [];
  is_tombstone = false;
  v_tag = [];
  last_modified = (0, 0);
  v_clock = none;
}

-- An object whose indexes have values and distinct names, written to a message's content and read
-- back, keeps its value, content type, charset, encoding, user metadata, indexes and links; what a
-- content does not carry from the client, its location, clock and times, is empty.
pub from-to_rpb_content :
    (o : Object) → Proper [] o.indexes → from_rpb_content (to_rpb_content o) ≡ sent o
unfolding from_rpb_content to_rpb_content all_pairs
from-to_rpb_content o h = λ i. record (sent o) {
  user_meta = meta o.user_meta i;
  indexes = index o.indexes h i;
  links = link o.links i;
}
  where
    meta : (l : List Pair) → (if elim l [ [] ↦ false | x ∷ xs ↦ true ] then l else []) ≡ l
    meta [] = refl
    meta (x ∷ xs) = refl

    link : (l : List Link) → (if elim l [ [] ↦ false | x ∷ xs ↦ true ] then l else []) ≡ l
    link [] = refl
    link (x ∷ xs) = refl

    index :
        (m : Indexes)
        → Proper [] m
        → read_indexes (if elim m [ [] ↦ false | x ∷ xs ↦ true ] then all_pairs m else []) [] ≡ m
    index [] h = read-all_pairs [] [] h
    index (x ∷ xs) h = read-all_pairs [] (x ∷ xs) h
