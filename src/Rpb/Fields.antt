-- ===== src/Rpb/Fields.antt =====
-- What the messages share: the getters of optional fields, and locatable.go over them.
use riak_go_client.Prelude.{ℕ, Bool, false, Option, none, some, ◌⊎◌, inl, inr, []}
use riak_go_client.Errors.{Error}
use riak_go_client.Object.{Bytes, Locatable, validate_locatable}

-- The generated getters answer the zero value for a field that is not there.
abbrev pub get_bytes : Option Bytes → Bytes
get_bytes none = []
get_bytes (some b) = b

abbrev pub get_number : Option ℕ → ℕ
get_number none = 0
get_number (some n) = n

abbrev pub get_bool : Option Bool → Bool
get_bool none = false
get_bool (some b) = b

-- The rpbLocatable interface: what its getters say, and SetType.
pub record RpbLocatable (M : Type 0) : Type 0 where
  pub location : M → Locatable
  pub set_type : Bytes → M → M

module _ {M : Type 0} ⦃l : RpbLocatable M⦄ where
  abbrev checked : M → Locatable × Option Error → Error ⊎ M
  checked m (at, some e) = inl e
  checked m (at, none) = inr (l.set_type at.bucket_type m)

  -- `validateLocatable`, which sets the type of the message itself: the bucket type that it already
  -- has, where it has one.
  unfoldable pub validate : M → Error ⊎ M
  unfolding validate_locatable
  validate m = checked m (validate_locatable (l.location m))
