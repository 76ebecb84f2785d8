-- ===== src/Object.antt =====
-- object.go and locatable.go: a Riak object, its form in the protobuf messages, and the check of
-- where it lies. Strings and byte slices are lists of bytes. A map is a list of its entries, in
-- the order in which a range over it visits them; nil and empty are one, but for the clock.
use riak_go_client.Prelude.{
  ℕ, Bool, true, false, ◌&&◌, Option, none, some, List, [], ◌∷◌, ◌++◌, ◌==◌, if◌then◌else◌,
}
use riak_go_client.Errors.{Error, client_error, bucket_required, key_required}
pub mod Indexes
pub mod RoundTrip
pub mod Location
pub mod Examples

abbrev pub Bytes : Type 0
Bytes = List ℕ

pub record Link : Type 0 where
  pub bucket : Bytes
  pub key : Bytes
  pub tag : Bytes

pub record Pair : Type 0 where
  pub key : Bytes
  pub value : Bytes

abbrev pub Indexes : Type 0
Indexes = List (Bytes × List Bytes)

-- `last_modified` is what `time.Unix` is given, seconds and nanoseconds; a time that was never set
-- is two zeros too.
pub record Object : Type 0 where
  pub bucket_type : Bytes
  pub bucket : Bytes
  pub key : Bytes
  pub is_tombstone : Bool
  pub value : Bytes
  pub content_type : Bytes
  pub charset : Bytes
  pub content_encoding : Bytes
  pub v_tag : Bytes
  pub last_modified : ℕ × ℕ
  pub user_meta : List Pair
  pub indexes : Indexes
  pub links : List Link
  pub v_clock : Option Bytes

-- The fields of the generated message that the client reads or writes.
pub record RpbContent : Type 0 where
  pub deleted : Bool
  pub value : Bytes
  pub content_type : Bytes
  pub charset : Bytes
  pub content_encoding : Bytes
  pub vtag : Bytes
  pub last_mod : ℕ
  pub last_mod_usecs : ℕ
  pub usermeta : List Pair
  pub indexes : List Pair
  pub links : List Link

abbrev pub has_indexes : Object → Bool
has_indexes o = elim o.indexes [ [] ↦ false | x ∷ xs ↦ true ]

abbrev pub has_user_meta : Object → Bool
has_user_meta o = elim o.user_meta [ [] ↦ false | x ∷ xs ↦ true ]

abbrev pub has_links : Object → Bool
has_links o = elim o.links [ [] ↦ false | x ∷ xs ↦ true ]

-- Equality of strings.
abbrev pub same : Bytes → Bytes → Bool
same [] [] = true
same [] (b ∷ bs) = false
same (a ∷ cs) [] = false
same (a ∷ cs) (b ∷ bs) = (a == b) && same cs bs

-- The map with `value` appended under `name`.
pub add_index : Bytes → Bytes → Indexes → Indexes
add_index name value [] = (name, value ∷ []) ∷ []
add_index name value ((n, vs) ∷ rest) =
    if same name n then (n, vs ++ value ∷ []) ∷ rest else (n, vs) ∷ add_index name value rest

abbrev pub add_to_index : Bytes → Bytes → Object → Object
add_to_index name value o = record o { indexes = add_index name value o.indexes }

-- The loop over the message's indexes.
pub read_indexes : List Pair → Indexes → Indexes
read_indexes [] m = m
read_indexes (p ∷ ps) m = read_indexes ps (add_index p.key p.value m)

pub from_rpb_content : RpbContent → Object
unfolding read_indexes
from_rpb_content c = record {
  bucket_type = [];
  bucket = [];
  key = [];
  is_tombstone = c.deleted;
  value = if c.deleted then [] else c.value;
  content_type = c.content_type;
  charset = c.charset;
  content_encoding = c.content_encoding;
  v_tag = c.vtag;
  last_modified = (c.last_mod, c.last_mod_usecs);
  user_meta = c.usermeta;
  indexes = read_indexes c.indexes [];
  links = c.links;
  v_clock = none;
}

-- The pairs of one index, and of all.
index_pairs : Bytes → List Bytes → List Pair
index_pairs name [] = []
index_pairs name (v ∷ vs) = record { key = name; value = v } ∷ index_pairs name vs

pub all_pairs : Indexes → List Pair
unfolding index_pairs
all_pairs [] = []
all_pairs ((name, vs) ∷ rest) = index_pairs name vs ++ all_pairs rest

pub to_rpb_content : Object → RpbContent
unfolding all_pairs
to_rpb_content o = record {
  deleted = false;
  value = o.value;
  content_type = o.content_type;
  charset = o.charset;
  content_encoding = o.content_encoding;
  vtag = [];
  last_mod = 0;
  last_mod_usecs = 0;
  usermeta = if has_user_meta o then o.user_meta else [];
  indexes = if has_indexes o then all_pairs o.indexes else [];
  links = if has_links o then o.links else [];
}

-- The rpbLocatable interface, which generated messages implement.
pub record Locatable : Type 0 where
  pub bucket_type : Bytes
  pub bucket_is_required : Bool
  pub bucket : Bytes
  pub key_is_required : Bool
  pub key : Bytes

abbrev pub is_empty : Bytes → Bool
is_empty [] = true
is_empty (b ∷ bs) = false

-- "default", the bytes of defaultBucketType.
abbrev pub default_type : Bytes
default_type = 100 ∷ 101 ∷ 102 ∷ 97 ∷ 117 ∷ 108 ∷ 116 ∷ []

unfoldable pub validate_locatable : Locatable → Locatable × Option Error
validate_locatable l =
    if l.bucket_is_required && is_empty l.bucket
    then (l, some (client_error bucket_required))
    else if l.key_is_required && is_empty l.key
    then (l, some (client_error key_required))
    else if is_empty l.bucket_type
    then (record l { bucket_type = default_type }, none)
    else (l, none)
