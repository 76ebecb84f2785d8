-- ===== src/Search/Examples.antt =====
-- yz_commands.go: tests and examples.
use riak_go_client.Prelude.{◌≡◌, refl, none, List, [], ◌∷◌}
use riak_go_client.Object.{Bytes, Pair}
use riak_go_client.Rpb.Search.{RpbSearchDoc}
use riak_go_client.Crdt.Dict.{lookup, put}
use riak_go_client.Search.Docs.{
  set_known, read_field, read_fields, read_doc, yz_bucket_type_fld, yz_bucket_fld, yz_key_fld,
  yz_id_fld, yz_score_fld,
}
use riak_go_client.Search.Docs.Fields.{values, last_value, read_doc-values}

-- A field with two values, the key, and the score twice.
abbrev sent : List Pair
sent =
    record { key = 1 ∷ []; value = 7 ∷ [] }
    ∷ record { key = yz_key_fld; value = 107 ∷ [] }
    ∷ record { key = yz_score_fld; value = 49 ∷ [] }
    ∷ record { key = 1 ∷ []; value = 8 ∷ [] }
    ∷ record { key = yz_score_fld; value = 50 ∷ [] }
    ∷ []

abbrev doc : RpbSearchDoc
doc = record { fields = sent }

read_doc_test : read_doc doc ≡ record {
  bucket_type = [];
  bucket = [];
  key = 107 ∷ [];
  id = [];
  score = 50 ∷ [];
  fields =
      (1 ∷ [], (7 ∷ []) ∷ (8 ∷ []) ∷ [])
      ∷ (yz_key_fld, (107 ∷ []) ∷ [])
      ∷ (yz_score_fld, (49 ∷ []) ∷ (50 ∷ []) ∷ [])
      ∷ [];
}
unfolding read_doc read_fields read_field set_known lookup put
read_doc_test = refl

read_doc-values_example :
    ((j : Bytes) → lookup j (read_doc doc).fields ≡ values j sent none)
    × ((read_doc doc).bucket_type ≡ last_value yz_bucket_type_fld sent [])
    × ((read_doc doc).bucket ≡ last_value yz_bucket_fld sent [])
    × ((read_doc doc).key ≡ last_value yz_key_fld sent [])
    × ((read_doc doc).id ≡ last_value yz_id_fld sent [])
    × ((read_doc doc).score ≡ last_value yz_score_fld sent [])
read_doc-values_example = read_doc-values doc
