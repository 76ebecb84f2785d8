-- ===== src/Kv/Events.antt =====
-- What may happen to a command, and commands that survive it; calls of a callback that is there.
use riak_go_client.Prelude.{
  ◌≡◌, refl, ◌&&◌, Bool, true, false, Option, none, some, List, [], ◌∷◌, ◌++◌, Run, ok, ◌>>=◌,
  if◌then◌else◌,
}
use riak_go_client.Errors.{Error}
use riak_go_client.Command.{CommandApi}
use riak_go_client.Command.Building.{Callback, call, answered, is_none}
use riak_go_client.Rpb.{Message}

-- What happens to a command: a response without or with a message, an error, a retry.
pub data Event : Type 0 where
  response : Option Message → Event
  failure : Error → Event
  retry : Event

module _ {K : Type 0} (cmds : CommandApi K Message) where
  abbrev pub happens : K → Event → Run K
  happens k (response msg) = cmds.handle_success k msg >>= λ a. ok a.0
  happens k (failure e) = ok (cmds.handle_error k e)
  happens k retry = ok (cmds.handle_retry k)

  abbrev pub all_happen : K → List Event → Run K
  all_happen k [] = ok k
  all_happen k (x ∷ xs) = happens k x >>= λ k'. all_happen k' xs

  -- The command ends in some state, and does not panic.
  abbrev pub Survives : K → List Event → Type 0
  Survives k xs = (k' : K) × (all_happen k xs ≡ ok k')

  module _ {Inv : K → Type 0}
      (safe : (k : K) (x : Event) → Inv k → (k' : K) × (happens k x ≡ ok k') × Inv k') where
    pub survives : (k : K) (xs : List Event) → Inv k → Survives k xs
    survives k [] h = (k, refl)
    survives k (x ∷ xs) h =
        let (k', e, h') = safe k x h in let (k'', e') = survives k' xs h' in (k'', rw e e')

-- A command that streams has a callback.
abbrev pub Calls : {A : Type 0} → Bool → Option (Callback A) → Type 0
Calls stream callback = (stream && is_none callback) ≡ false

-- The command after a message, without a panic, and such that `P` holds.
abbrev pub Yields : {K : Type 0} → (K → Type 0) → Run (K × Option Error) → Type 0
Yields {K} P m = (r : K × Option Error) × (m ≡ ok r) × P r.0

module _ {K A : Type 0} (P : K → Type 0) where
  pub answered_lem :
      (cb : Callback A) (calls : List A) (a : A) (tell give_up : List A → K) (e : Option Error)
      → cb calls a ≡ e
      → ((cs : List A) → P (tell cs))
      → ((cs : List A) → P (give_up cs))
      → Yields P (answered tell give_up (call (some cb) calls a))
  answered_lem cb calls a tell give_up none e t g =
      ((tell (calls ++ a ∷ []), none), rw e refl, t (calls ++ a ∷ []))
  answered_lem cb calls a tell give_up (some x) e t g =
      ((give_up (calls ++ a ∷ []), some x), rw e refl, g (calls ++ a ∷ []))

  -- What a response is made into: the callback's, where the command streams.
  pub streamed :
      (stream : Bool) (callback : Option (Callback A)) (calls : List A) (a : A)
      (tell give_up : List A → K) (other : Run (K × Option Error))
      → Calls stream callback
      → ((cs : List A) → P (tell cs))
      → ((cs : List A) → P (give_up cs))
      → Yields P other
      → Yields P (if stream then answered tell give_up (call callback calls a) else other)
  streamed false callback calls a tell give_up other h t g o = o
  streamed true none calls a tell give_up other h t g o = cc
  streamed true (some cb) calls a tell give_up other h t g o =
      answered_lem cb calls a tell give_up (cb calls a) refl t g

-- `happens`, of a response that is handled.
pub happens_lem :
    {K : Type 0} (cmds : CommandApi K Message) (P : K → Type 0) (k : K) (msg : Option Message)
    → Yields P (cmds.handle_success k msg)
    → (k' : K) × (happens cmds k (response msg) ≡ ok k') × P k'
happens_lem cmds P k msg (r, e, p) = (r.0, rw e refl, p)
