-- ===== src/Command/Building.antt =====
-- command.go, and what the files of commands have in common: what the commands embed, the
-- callbacks of those that stream, and durations as the server wants them.
use riak_go_client.Prelude.{
  ℕ, ◌/◌, ◌%◌, Bool, true, false, Option, none, some, List, [], ◌∷◌, ◌++◌, Run, ok, panic, spins,
  callback_required,
}
use riak_go_client.Errors.{Error}
use riak_go_client.Config.{millisecond}
use riak_go_client.Command.{CommandImpl}

-- The commandImpl of a command that `Build` returns.
abbrev pub new_impl : CommandImpl
new_impl = record { error = none; success = false }

-- `cmd.success = true`.
abbrev pub succeeded : CommandImpl → CommandImpl
succeeded impl = record impl { success = true }

-- `cmd.success = false`, which is written for a missing message.
abbrev pub not_succeeded : CommandImpl → CommandImpl
not_succeeded impl = record impl { success = false }

-- `uint32(timeout / time.Millisecond)`, of a duration that is not negative.
unfoldable pub milliseconds : ℕ → ℕ
milliseconds timeout = timeout / millisecond % 4294967296

abbrev pub is_none : {A : Type 0} → Option A → Bool
is_none none = true
is_none (some a) = false

-- A callback may keep state between its calls: it answers each call from the calls before it, the
-- first one first.
abbrev pub Callback : Type 0 → Type 0
Callback A = List A → A → Option Error

-- The call of a callback that may be nil, by a command for which `calls` are those that it has made:
-- the calls with this one, and the answer.
abbrev pub call : {A : Type 0} → Option (Callback A) → List A → A → Run (List A × Option Error)
call none calls a = panic callback_required
call (some callback) calls a = ok (calls ++ a ∷ [], callback calls a)

-- After that call: the command that has told its callback, or that was refused.
abbrev pub answered :
    {K A : Type 0}
    → (List A → K)
    → (List A → K)
    → Run (List A × Option Error)
    → Run (K × Option Error)
answered tell give_up (ok (calls, none)) = ok (tell calls, none)
answered tell give_up (ok (calls, some e)) = ok (give_up calls, some e)
answered tell give_up (panic p) = panic p
answered tell give_up spins = spins
