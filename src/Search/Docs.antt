-- ===== src/Search/Docs.antt =====
-- yz_commands.go: a document of a search, read from its fields. The map of its fields is a list of its
-- entries; nil and empty are one.
use riak_go_client.Prelude.{Option, none, some, List, [], ◌∷◌, ◌++◌, if◌then◌else◌}
use riak_go_client.Object.{Bytes, Pair, same}
use riak_go_client.Rpb.Search.{RpbSearchDoc}
use riak_go_client.Crdt.Dict.{Dict, lookup, put}
pub mod Fields

-- "_yz_rt", "_yz_rb", "_yz_rk", "_yz_id" and "score".
abbrev pub yz_bucket_type_fld : Bytes
yz_bucket_type_fld = 95 ∷ 121 ∷ 122 ∷ 95 ∷ 114 ∷ 116 ∷ []

abbrev pub yz_bucket_fld : Bytes
yz_bucket_fld = 95 ∷ 121 ∷ 122 ∷ 95 ∷ 114 ∷ 98 ∷ []

abbrev pub yz_key_fld : Bytes
yz_key_fld = 95 ∷ 121 ∷ 122 ∷ 95 ∷ 114 ∷ 107 ∷ []

abbrev pub yz_id_fld : Bytes
yz_id_fld = 95 ∷ 121 ∷ 122 ∷ 95 ∷ 105 ∷ 100 ∷ []

abbrev pub yz_score_fld : Bytes
yz_score_fld = 115 ∷ 99 ∷ 111 ∷ 114 ∷ 101 ∷ []

pub record SearchDoc : Type 0 where
  pub bucket_type : Bytes
  pub bucket : Bytes
  pub key : Bytes
  pub id : Bytes
  pub score : Bytes
  pub fields : Dict (List Bytes)

abbrev pub new_search_doc : SearchDoc
new_search_doc = record {
  bucket_type = [];
  bucket = [];
  key = [];
  id = [];
  score = [];
  fields = [];
}

-- The values under a key, with one more.
abbrev pub append_value : Option (List Bytes) → Bytes → List Bytes
append_value none val = val ∷ []
append_value (some vals) val = vals ++ val ∷ []

-- The switch on the key.
unfoldable pub set_known : Bytes → Bytes → SearchDoc → SearchDoc
set_known key val doc =
    if same key yz_bucket_type_fld
    then record doc { bucket_type = val }
    else if same key yz_bucket_fld
    then record doc { bucket = val }
    else if same key yz_key_fld
    then record doc { key = val }
    else if same key yz_id_fld
    then record doc { id = val }
    else if same key yz_score_fld
    then record doc { score = val }
    else doc

unfoldable pub read_field : Pair → SearchDoc → SearchDoc
unfolding set_known lookup put
read_field fld doc = set_known fld.key fld.value (record doc {
  fields = put fld.key (append_value (lookup fld.key doc.fields) fld.value) doc.fields;
})

unfoldable pub read_fields : List Pair → SearchDoc → SearchDoc
unfolding read_field
read_fields [] doc = doc
read_fields (fld ∷ flds) doc = read_fields flds (read_field fld doc)

unfoldable pub read_doc : RpbSearchDoc → SearchDoc
unfolding read_fields
read_doc doc = read_fields doc.fields new_search_doc
