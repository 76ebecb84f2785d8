-- ===== src/Errors.antt =====
-- error.go and net.go: the error values of the client.
use Prim.Native.String.{String}
use riak_go_client.Prelude.{ℕ, Bool, true, false, List, Option, none, some, ◌⊎◌, inl, inr}

-- The texts of the client errors, with the numbers that are formatted into them, and the command
-- that one of them names.
pub data ErrMsg : Type 0 where
  queue_full queue_closed : ErrMsg
  address_required auth_missing_config auth_tls_upgrade_failed bucket_required : ErrMsg
  key_required nil_options options_required zero_length table_required : ErrMsg
  query_required listing_disabled : ErrMsg
  cluster_command_required cluster_async_requires_channel_or_wait_group : ErrMsg
  cluster_enqueue_while_shutting_down cluster_is_shutting_down : ErrMsg
  cluster_node_must_be_non_nil cluster_nodes_must_be_non_nil : ErrMsg
  cluster_no_nodes_available : ErrMsg
  node_manager_requires_node : ErrMsg
  manager_requires_options manager_requires_address manager_max_greater_than_min : ErrMsg
  all_connections_in_use : ErrMsg
  unexpected_code : ℕ → ℕ → ErrMsg
  short_header : ℕ → ErrMsg
  short_message short_write : ℕ → ℕ → ErrMsg
  key_or_range_required map_operation_required context_required : ErrMsg
  requires_callback : String → ErrMsg

-- Go's `error` values. `client_error` has a nil inner error, `client_error_inner` has one.
-- `net_error` holds what `Temporary()` answers; `illegal_state`, `connection_in_use` and the two with
-- the name of a command are made by `fmt.Errorf`; `other_error` stands for the errors of packages that the client calls.
pub data Error : Type 0 where
  client_error : ErrMsg → Error
  client_error_inner : ErrMsg → Error → Error
  riak_error : ℕ → List ℕ → Error
  net_error : Bool → Error
  illegal_state : List ℕ → ℕ → Error
  could_not_convert could_not_retrieve_row : String → Error
  connection_in_use cannot_read cannot_write : Error
  other_error : ℕ → Error

unfoldable pub new_client_error : ErrMsg → Option Error → Error
new_client_error msg none = client_error msg
new_client_error msg (some e) = client_error_inner msg e

unfoldable pub is_temporary_net_error : Error → Bool
is_temporary_net_error (net_error temporary) = temporary
is_temporary_net_error _ = false

-- A chain of calls that may return an error.
infixl 5 ◌>>=◌ ◌>>◌
abbrev pub ◌>>=◌ : {A B : Type 0} → Error ⊎ A → (A → Error ⊎ B) → Error ⊎ B
inl e >>= f = inl e
inr a >>= f = f a

abbrev pub ◌>>◌ : {B : Type 0} → Error ⊎ Unit {0} → Error ⊎ B → Error ⊎ B
m >> k = m >>= λ _. k

-- `if test { return nil, err }`.
abbrev pub refuse : Bool → Error → Error ⊎ Unit {0}
refuse true e = inl e
refuse false e = inr tt
