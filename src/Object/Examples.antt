-- ===== src/Object/Examples.antt =====
-- object.go and locatable.go: tests and examples.
use riak_go_client.Prelude.{◌≡◌, refl, true, false, some, [], ◌∷◌}
use riak_go_client.Errors.{client_error, bucket_required}
use riak_go_client.Object.{
  Object, Locatable, add_index, from_rpb_content, to_rpb_content, validate_locatable, default_type,
}
use riak_go_client.Object.RoundTrip.{sent, from-to_rpb_content}

abbrev sample : Object
sample = record {
  bucket_type = [];
  bucket = 1 ∷ [];
  key = 2 ∷ [];
  is_tombstone = false;
  value = 104 ∷ 105 ∷ [];
  content_type = 116 ∷ [];
  charset = [];
  content_encoding = [];
  v_tag = 9 ∷ [];
  last_modified = (7, 8);
  user_meta = record { key = 1 ∷ []; value = 2 ∷ [] } ∷ [];
  indexes = (1 ∷ [], (3 ∷ []) ∷ (4 ∷ []) ∷ []) ∷ (2 ∷ [], (5 ∷ []) ∷ []) ∷ [];
  links = record { bucket = 1 ∷ []; key = 2 ∷ []; tag = 3 ∷ [] } ∷ [];
  v_clock = some (6 ∷ []);
}

from-to_rpb_content_test : from_rpb_content (to_rpb_content sample) ≡ sent sample
unfolding from_rpb_content to_rpb_content add_index
from-to_rpb_content_test = refl

from-to_rpb_content_example : from_rpb_content (to_rpb_content sample) ≡ sent sample
from-to_rpb_content_example = from-to_rpb_content sample (tt, ((refl, tt), tt))

abbrev nowhere : Locatable
nowhere = record {
  bucket_type = [];
  bucket_is_required = true;
  bucket = [];
  key_is_required = false;
  key = [];
}

validate_locatable_test :
    validate_locatable nowhere ≡ (nowhere, some (client_error bucket_required))
unfolding validate_locatable
validate_locatable_test = refl

validate_locatable_default_test :
    (validate_locatable (record nowhere { bucket = 1 ∷ [] })).0.bucket_type ≡ default_type
unfolding validate_locatable
validate_locatable_default_test = refl

abbrev found : Locatable
found = record nowhere { bucket = 1 ∷ [] }
