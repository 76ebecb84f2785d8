-- ===== src/Search/Docs/Fields.antt =====
-- yz_commands.go: what a document of a search holds, against the fields that the server sent.
use riak_go_client.Prelude.{
  ◌≡◌, refl, ◌∙◌, ap, false, ◌&&◌, inl, inr, Bool-cases, Option, none, some, List, [], ◌∷◌,
  if◌then◌else◌, arith,
}
use riak_go_client.Object.{Bytes, Pair, same}
use riak_go_client.Rpb.Search.{RpbSearchDoc}
use riak_go_client.Crdt.Dict.{lookup, put, lookup-put, same_eq}
use riak_go_client.Search.Docs.{
  SearchDoc, new_search_doc, append_value, set_known, read_field, read_fields, read_doc,
  yz_bucket_type_fld, yz_bucket_fld, yz_key_fld, yz_id_fld, yz_score_fld,
}

-- The values that the server sent for a name, in order, behind those that there were.
abbrev pub values : Bytes → List Pair → Option (List Bytes) → Option (List Bytes)
values j [] had = had
values j (f ∷ fs) had = values j fs (if same f.key j then some (append_value had f.value) else had)

-- The last value that the server sent for a name, or the one that there was.
abbrev pub last_value : Bytes → List Pair → Bytes → Bytes
last_value j [] had = had
last_value j (f ∷ fs) had = last_value j fs (if same f.key j then f.value else had)

apart : (k a b : Bytes) → same a b ≡ false → (same k a && same k b) ≡ false
apart k a b h = elim (Bool-cases (same k a)) [
  | inl e ↦ rw e (ap (λ x. same x b) (same_eq k a e) ∙ h)
  | inr e ↦ rw e refl
]

fields-set_known : (k v : Bytes) (d : SearchDoc) → (set_known k v d).fields ≡ d.fields
unfolding set_known
fields-set_known k v d = ground arith

read_field_lem :
    (f : Pair) (d : SearchDoc) (j : Bytes)
    → lookup j (read_field f d).fields ≡ (
        if same f.key j then some (append_value (lookup j d.fields) f.value) else lookup j d.fields)
unfolding read_field
read_field_lem f d j =
    ap (lookup j) (fields-set_known f.key f.value _)
    ∙ lookup-put f.key j (append_value (lookup f.key d.fields) f.value) d.fields
    ∙ elim (Bool-cases (same f.key j)) [
      | inl e ↦ rw e (ap (λ x. some (append_value (lookup x d.fields) f.value)) (same_eq f.key j e))
      | inr e ↦ rw e refl
    ]

lookup-read_fields :
    (fs : List Pair) (d : SearchDoc) (j : Bytes)
    → lookup j (read_fields fs d).fields ≡ values j fs (lookup j d.fields)
unfolding read_fields
lookup-read_fields [] d j = refl
lookup-read_fields (f ∷ fs) d j =
    lookup-read_fields fs (read_field f d) j ∙ ap (values j fs) (read_field_lem f d j)

-- What the switch does to each field that it knows.
abbrev pub Known : Bytes → Bytes → SearchDoc → SearchDoc → Type 0
Known k v d e =
    (e.bucket_type ≡ (if same k yz_bucket_type_fld then v else d.bucket_type))
    × (e.bucket ≡ (if same k yz_bucket_fld then v else d.bucket))
    × (e.key ≡ (if same k yz_key_fld then v else d.key))
    × (e.id ≡ (if same k yz_id_fld then v else d.id))
    × (e.score ≡ (if same k yz_score_fld then v else d.score))

-- The switch, with its tests as booleans of which one at most is true.
set_known-Known : (k v : Bytes) (d : SearchDoc) → Known k v d (set_known k v d)
unfolding set_known
set_known-Known k v d =
    let tb = apart k yz_bucket_type_fld yz_bucket_fld refl in
    let tk = apart k yz_bucket_type_fld yz_key_fld refl in
    let ti = apart k yz_bucket_type_fld yz_id_fld refl in
    let ts = apart k yz_bucket_type_fld yz_score_fld refl in
    let bk = apart k yz_bucket_fld yz_key_fld refl in
    let bi = apart k yz_bucket_fld yz_id_fld refl in
    let bs = apart k yz_bucket_fld yz_score_fld refl in
    let ki = apart k yz_key_fld yz_id_fld refl in
    let ks = apart k yz_key_fld yz_score_fld refl in
    let is = apart k yz_id_fld yz_score_fld refl in
    (ground arith, ground arith, ground arith, ground arith, ground arith)

known_lem :
    (fs : List Pair) (d : SearchDoc)
    → ((read_fields fs d).bucket_type ≡ last_value yz_bucket_type_fld fs d.bucket_type)
      × ((read_fields fs d).bucket ≡ last_value yz_bucket_fld fs d.bucket)
      × ((read_fields fs d).key ≡ last_value yz_key_fld fs d.key)
      × ((read_fields fs d).id ≡ last_value yz_id_fld fs d.id)
      × ((read_fields fs d).score ≡ last_value yz_score_fld fs d.score)
unfolding read_fields read_field
known_lem [] d = (refl, refl, refl, refl, refl)
known_lem (f ∷ fs) d =
    let (t, b, k, i, s) = known_lem fs (read_field f d) in
    let (t', b', k', i', s') =
      set_known-Known f.key f.value
        (record d { fields = put f.key (append_value (lookup f.key d.fields) f.value) d.fields }) in
    (
      t ∙ ap (last_value yz_bucket_type_fld fs) t',
      b ∙ ap (last_value yz_bucket_fld fs) b',
      k ∙ ap (last_value yz_key_fld fs) k',
      i ∙ ap (last_value yz_id_fld fs) i',
      s ∙ ap (last_value yz_score_fld fs) s',
    )

-- A document of a search holds, under each name, all values that the server sent for that name, in
-- their order, and nothing under the names of which it sent none; and its bucket type, bucket, key,
-- id and score are the last values sent for the names of those, or empty where there are none.
pub read_doc-values :
    (doc : RpbSearchDoc)
    → ((j : Bytes) → lookup j (read_doc doc).fields ≡ values j doc.fields none)
      × ((read_doc doc).bucket_type ≡ last_value yz_bucket_type_fld doc.fields [])
      × ((read_doc doc).bucket ≡ last_value yz_bucket_fld doc.fields [])
      × ((read_doc doc).key ≡ last_value yz_key_fld doc.fields [])
      × ((read_doc doc).id ≡ last_value yz_id_fld doc.fields [])
      × ((read_doc doc).score ≡ last_value yz_score_fld doc.fields [])
unfolding read_doc lookup
read_doc-values doc =
    let (t, b, k, i, s) = known_lem doc.fields new_search_doc in
    ((λ j. lookup-read_fields doc.fields new_search_doc j), t, b, k, i, s)
