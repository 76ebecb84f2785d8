-- ===== src/Object/Location.antt =====
-- locatable.go: what `validateLocatable` accepts.
use riak_go_client.Prelude.{◌≡◌, true, false, none, arith}
use riak_go_client.Object.{Locatable, is_empty, validate_locatable}

-- The bucket type is there, and so are the bucket and the key where they are required.
pub record IsLocated (l : Locatable) : Type 0 where
  pub typed : is_empty l.bucket_type ≡ false
  pub in_bucket : l.bucket_is_required ≡ true → is_empty l.bucket ≡ false
  pub keyed : l.key_is_required ≡ true → is_empty l.key ≡ false

-- A message that is accepted lies somewhere after that, has kept its bucket and key, and is
-- accepted again without a change.
pub validate_locatable-IsLocated :
    (l l' : Locatable)
    → validate_locatable l ≡ (l', none)
    → IsLocated l'
      × (l'.bucket ≡ l.bucket)
      × (l'.key ≡ l.key)
      × (validate_locatable l' ≡ (l', none))
unfolding validate_locatable
validate_locatable-IsLocated l l' h = ground arith
