-- ===== src/Kv/Callbacks.antt =====
-- kv_commands.go: a ListKeys command that streams, and its callback.
use mathlib.Core.List.{append_assoc, append-nil}
use riak_go_client.Prelude.{
  ℕ, suc, ◌≤◌, ◌≡◌, refl, Bool, true, false, none, some, List, [], ◌∷◌, ◌++◌, map, length, ok,
}
use riak_go_client.Errors.{Error}
use riak_go_client.Command.{ProtoApi, on_error}
use riak_go_client.Command.Building.{Callback, succeeded}
use riak_go_client.Object.{Bytes}
use riak_go_client.Rpb.{Message, rpb_list_keys_resp}
use riak_go_client.Rpb.Fields.{get_bool}
use riak_go_client.Rpb.Query.{RpbListKeysResp}
use riak_go_client.Connection.{Connection, NetApi}
use riak_go_client.Connection.Exchange.{Sends}
use riak_go_client.Connection.Streaming.{Consumes, last, refused, more}
use riak_go_client.Kv.ListKeys.{ListKeysCommand, api, on_success, response_of, collect}
use riak_go_client.Kv.Listing.{IsFinal, Responds, Returns, execute-Returns}

-- What the callback is called with: the keys of each response that has any.
abbrev with_any : List Bytes → List (List Bytes) → List (List Bytes)
with_any [] rest = rest
with_any (k ∷ ks) rest = (k ∷ ks) ∷ rest

abbrev pub heard : List RpbListKeysResp → List (List Bytes)
heard [] = []
heard (r ∷ rs) = with_any r.keys (heard rs)

-- The callback answers the calls without an error, behind those that it has had.
abbrev pub Accepts : Callback (List Bytes) → List (List Bytes) → List (List Bytes) → Type 0
Accepts cb had [] = Unit
Accepts cb had (a ∷ later) = (cb had a ≡ none) × Accepts cb (had ++ a ∷ []) later

-- The command that has called its callback so often.
abbrev pub telling : ListKeysCommand → List (List Bytes) → Bool → ListKeysCommand
telling cmd calls done = record cmd {
  impl = succeeded cmd.impl;
  done = done;
  response = some (record { keys = response_of cmd });
  calls = calls;
}

collect_lem :
    (cmd : ListKeysCommand) (cb : Callback (List Bytes)) (keys : List Bytes)
    (rest : List (List Bytes))
    → cmd.streaming ≡ true
    → cmd.callback ≡ some cb
    → Accepts cb cmd.calls (with_any keys rest)
    → (collect cmd keys ≡ ok (record cmd { calls = cmd.calls ++ with_any keys [] }, none))
      × Accepts cb (cmd.calls ++ with_any keys []) rest
unfolding collect
collect_lem cmd cb [] rest on c a = (rw append-nil refl, rw append-nil a)
collect_lem cmd cb (k ∷ ks) rest on c (a, later) = (rw (on, c, a) refl, later)

on_success_lem :
    (cmd : ListKeysCommand) (cb : Callback (List Bytes)) (r : RpbListKeysResp)
    (rest : List (List Bytes))
    → cmd.streaming ≡ true
    → cmd.callback ≡ some cb
    → Accepts cb cmd.calls (with_any r.keys rest)
    → (on_success cmd (some (rpb_list_keys_resp r))
        ≡ ok (telling cmd (cmd.calls ++ with_any r.keys []) (get_bool r.done), none))
      × Accepts cb (cmd.calls ++ with_any r.keys []) rest
unfolding on_success
on_success_lem cmd cb r rest on c a =
    collect_lem (telling cmd cmd.calls (get_bool r.done)) cb r.keys rest on c a

calls-with_any :
    (calls : List (List Bytes)) (keys : List Bytes) (rest : List (List Bytes))
    → (calls ++ with_any keys []) ++ rest ≡ calls ++ with_any keys rest
calls-with_any calls [] rest = rw append-nil refl
calls-with_any calls (k ∷ ks) rest = rw append_assoc refl

pub Consumes-telling :
    (cmd : ListKeysCommand) (cb : Callback (List Bytes)) (rs : List RpbListKeysResp)
    → cmd.streaming ≡ true
    → cmd.callback ≡ some cb
    → Accepts cb cmd.calls (heard rs)
    → IsFinal rs
    → Consumes api cmd (map rpb_list_keys_resp rs) (telling cmd (cmd.calls ++ heard rs) true) none
Consumes-telling cmd cb [] on c a final = absurd final
Consumes-telling cmd cb (r ∷ []) on c a final =
    let (step, _) = on_success_lem cmd cb r [] on c a in
    last (rpb_list_keys_resp r) (rw final at step) refl
Consumes-telling cmd cb (r ∷ q ∷ rs) on c a (f, final) =
    let (step, a') = on_success_lem cmd cb r (heard (q ∷ rs)) on c a in
    let rest =
      Consumes-telling (telling cmd (cmd.calls ++ with_any r.keys []) false) cb (q ∷ rs) on c a'
        final in
    more (rpb_list_keys_resp r) (rw f at step) refl
      (rw (calls-with_any cmd.calls r.keys (heard (q ∷ rs))) at rest)

-- No response is marked as the last one.
abbrev pub Undone : List RpbListKeysResp → Type 0
Undone [] = Unit
Undone (r ∷ rs) = (get_bool r.done ≡ false) × Undone rs

-- The command whose callback has refused a call: the response is gone.
abbrev pub refusing : ListKeysCommand → List (List Bytes) → Bool → Error → ListKeysCommand
refusing cmd calls done e = record cmd {
  impl = on_error cmd.impl e;
  done = done;
  response = none;
  calls = calls;
}

on_success-refusing :
    (cmd : ListKeysCommand) (cb : Callback (List Bytes)) (r : RpbListKeysResp) (k : Bytes)
    (ks : List Bytes) (e : Error)
    → cmd.streaming ≡ true
    → cmd.callback ≡ some cb
    → r.keys ≡ k ∷ ks
    → cb cmd.calls (k ∷ ks) ≡ some e
    → Consumes api cmd
        (rpb_list_keys_resp r ∷ [])
        (refusing cmd (cmd.calls ++ (k ∷ ks) ∷ []) (get_bool r.done) e)
        (some e)
unfolding on_success collect
on_success-refusing cmd cb r k ks e on c keys err =
    refused
      {k' = record cmd {
        impl = succeeded cmd.impl;
        done = get_bool r.done;
        response = none;
        calls = cmd.calls ++ (k ∷ ks) ∷ [];
      }}
      (rpb_list_keys_resp r) e (rw (keys, on, c, err) refl)

pub Consumes-refusing :
    (cmd : ListKeysCommand) (cb : Callback (List Bytes)) (rs : List RpbListKeysResp)
    (r : RpbListKeysResp) (k : Bytes) (ks : List Bytes) (e : Error)
    → cmd.streaming ≡ true
    → cmd.callback ≡ some cb
    → Undone rs
    → Accepts cb cmd.calls (heard rs)
    → r.keys ≡ k ∷ ks
    → cb (cmd.calls ++ heard rs) (k ∷ ks) ≡ some e
    → Consumes api cmd
        (map rpb_list_keys_resp (rs ++ r ∷ []))
        (refusing cmd ((cmd.calls ++ heard rs) ++ (k ∷ ks) ∷ []) (get_bool r.done) e)
        (some e)
Consumes-refusing cmd cb [] r k ks e on c u a keys err =
    let err' = rw append-nil at err in
    rw append-nil (on_success-refusing cmd cb r k ks e on c keys err')
Consumes-refusing cmd cb (q ∷ rs) r k ks e on c (f, u) a keys err =
    let (step, a') = on_success_lem cmd cb q (heard rs) on c a in
    let same = calls-with_any cmd.calls q.keys (heard rs) in
    let rest =
      Consumes-refusing (telling cmd (cmd.calls ++ with_any q.keys []) false) cb rs r k ks e on c u
        a' keys (rw same err) in
    more (rpb_list_keys_resp q) (rw f at step) refl (rw same at rest)

module _ {W : Type 0} (net : NetApi W) (proto : ProtoApi Message) where
  -- Where the request of a ListKeys command that streams to a callback goes out, the socket of the
  -- available connection delivers responses of which the last one and no other is marked as done,
  -- and the callback answers no call with an error: `execute`, with fuel for one response each,
  -- returns without an error, and the callback has been called with the keys of each response that
  -- has any, in their order, and never else. The command is done and successful, and holds no keys
  -- but those that it had.
  pub execute_streaming :
      (rs : List RpbListKeysResp) (fuel : ℕ) (c : Connection) (cmd : ListKeysCommand)
      (cb : Callback (List Bytes)) (w w' : W) (s : Sends net proto api c cmd w) (sock : ℕ)
      → Responds net proto s sock rs w'
      → cmd.streaming ≡ true
      → cmd.callback ≡ some cb
      → Accepts cb cmd.calls (heard rs)
      → IsFinal rs
      → length rs ≤ suc fuel
      → Returns net proto s (suc fuel) (telling cmd (cmd.calls ++ heard rs) true) none w'
  execute_streaming rs fuel c cmd cb w w' s sock responds on has a final enough =
      execute-Returns net proto rs fuel c cmd _ none w w' s sock responds enough
        (Consumes-telling cmd cb rs on has a final)

  -- Where the request of a ListKeys command that streams to a callback goes out, and the socket of
  -- the available connection delivers responses that are not marked as done and whose keys the
  -- callback takes, and then one whose keys it answers with an error: `execute`, with fuel for one
  -- response each, returns that error. The command has failed with it and holds no response, and
  -- nothing behind that response has been read.
  pub execute_refused :
      (rs : List RpbListKeysResp) (r : RpbListKeysResp) (k : Bytes) (ks : List Bytes) (fuel : ℕ)
      (c : Connection) (cmd : ListKeysCommand) (cb : Callback (List Bytes)) (e : Error) (w w' : W)
      (s : Sends net proto api c cmd w) (sock : ℕ)
      → Responds net proto s sock (rs ++ r ∷ []) w'
      → cmd.streaming ≡ true
      → cmd.callback ≡ some cb
      → Undone rs
      → Accepts cb cmd.calls (heard rs)
      → r.keys ≡ k ∷ ks
      → cb (cmd.calls ++ heard rs) (k ∷ ks) ≡ some e
      → length (rs ++ r ∷ []) ≤ suc fuel
      → Returns net proto s
          (suc fuel)
          (refusing cmd ((cmd.calls ++ heard rs) ++ (k ∷ ks) ∷ []) (get_bool r.done) e)
          (some e)
          w'
  execute_refused rs r k ks fuel c cmd cb e w w' s sock responds on has u a keys err enough =
      execute-Returns net proto (rs ++ r ∷ []) fuel c cmd _ (some e) w w' s sock responds enough
        (Consumes-refusing cmd cb rs r k ks e on has u a keys err)
