-- ===== src/Prelude/Panics.antt =====
-- A Go computation returns a value or panics; a loop on fuel may also not end within its fuel.
use mathlib.Core.Path.{◌≡◌}

-- The panics of the source, and those of the runtime that the source can meet.
pub data Panic : Type 0 where
  zero_queue_size nil_enqueue send_on_closed_channel close_of_closed_channel : Panic
  index_out_of_range nil_connection nil_nodes nodes_still_running : Panic
  nil_dereference callback_required zero_request_code zero_response_code nil_last_node : Panic

pub data Run {ℓ} (A : Type ℓ) : Type ℓ where
  ok : A → Run A
  panic : Panic → Run A
  spins : Run A

infixl 5 ◌>>=◌
abbrev pub ◌>>=◌ {ℓ κ} : {A : Type ℓ} {B : Type κ} → Run A → (A → Run B) → Run B
ok a >>= f = f a
panic p >>= f = panic p
spins >>= f = spins

-- A run has one result.
pub ok-injective {ℓ} : {A : Type ℓ} {a b : A} → ok a ≡ ok b → a ≡ b
ok-injective h = cc
