-- ===== src/Kv/Listing.antt =====
-- kv_commands.go: what a ListKeys command makes of the responses that it reads, and its execution.
use mathlib.Core.List.{append_assoc, append-nil}
use riak_go_client.Prelude.{
  ℕ, suc, ◌≤◌, ◌≡◌, refl, ap, Bool, true, false, Option, none, some, List, [], ◌∷◌, ◌++◌, map,
  length, arith, ok,
}
use riak_go_client.Errors.{Error}
use riak_go_client.Command.{ProtoApi}
use riak_go_client.Command.Building.{succeeded}
use riak_go_client.Command.Requests.{get_riak_message-same}
use riak_go_client.Object.{Bytes}
use riak_go_client.Rpb.{Message, rpb_list_keys_resp, rpb_list_keys_req}
use riak_go_client.Rpb.Fields.{get_bool}
use riak_go_client.Rpb.Query.{RpbListKeysResp, new_rpb_list_keys_resp}
use riak_go_client.Connection.{Connection, NetApi, available}
use riak_go_client.Connection.Execute.{execute}
use riak_go_client.Connection.Exchange.{Sends, wait}
use riak_go_client.Connection.Streaming.{Feeds, Consumes, last, more, IsSteady, execute_stream}
use riak_go_client.Kv.ListKeys.{
  ListKeysCommand, api, on_success, construct_pb_request, response_of, collect,
}

-- The server marks the last response, and no response before it.
abbrev pub IsFinal : List RpbListKeysResp → Type 0
IsFinal [] = ⊥
IsFinal (r ∷ []) = get_bool r.done ≡ true
IsFinal (r ∷ q ∷ rs) = (get_bool r.done ≡ false) × IsFinal (q ∷ rs)

-- The keys of all responses.
abbrev pub all_keys : List RpbListKeysResp → List Bytes
all_keys [] = []
all_keys (r ∷ rs) = r.keys ++ all_keys rs

-- The command after the responses: it holds their keys behind those that it had.
abbrev pub holding : ListKeysCommand → List Bytes → Bool → ListKeysCommand
holding cmd keys done = record cmd {
  impl = succeeded cmd.impl;
  done = done;
  response = some (record { keys = keys });
}

collect_lem :
    (cmd : ListKeysCommand) (had keys : List Bytes)
    → cmd.streaming ≡ false
    → collect (record cmd { response = some (record { keys = had }) }) keys
      ≡ ok (record cmd { response = some (record { keys = had ++ keys }) }, none)
unfolding collect
collect_lem cmd had [] off = rw append-nil refl
collect_lem cmd had (k ∷ ks) off = rw off refl

on_success_lem :
    (cmd : ListKeysCommand) (r : RpbListKeysResp)
    → cmd.streaming ≡ false
    → on_success cmd (some (rpb_list_keys_resp r))
      ≡ ok (holding cmd (response_of cmd ++ r.keys) (get_bool r.done), none)
unfolding on_success
on_success_lem cmd r off =
    collect_lem (holding cmd [] (get_bool r.done)) (response_of cmd) r.keys off

pub Consumes-holding :
    (cmd : ListKeysCommand) (rs : List RpbListKeysResp)
    → cmd.streaming ≡ false
    → IsFinal rs
    → Consumes api cmd
        (map rpb_list_keys_resp rs)
        (holding cmd (response_of cmd ++ all_keys rs) true)
        none
Consumes-holding cmd [] off final = absurd final
Consumes-holding cmd (r ∷ []) off final =
    let step = on_success_lem cmd r off in
    rw append-nil (last (rpb_list_keys_resp r) (rw final at step) refl)
Consumes-holding cmd (r ∷ q ∷ rs) off (f, final) =
    let step = on_success_lem cmd r off in
    let rest =
      Consumes-holding (holding cmd (response_of cmd ++ r.keys) false) (q ∷ rs) off final in
    more (rpb_list_keys_resp r) (rw f at step) refl (rw append_assoc at rest)

pub list_keys-IsSteady : IsSteady api 18 (rpb_list_keys_resp new_rpb_list_keys_resp)
list_keys-IsSteady = record {
  byte = omega arith;
  not_error = λ e. absurd (omega arith);
  responds = λ k. refl;
  unmarshals = λ k. refl;
}

length-map : (rs : List RpbListKeysResp) → length (map rpb_list_keys_resp rs) ≡ length rs
length-map [] = refl
length-map (r ∷ rs) = ap suc (length-map rs)

module _ {W : Type 0} (net : NetApi W) (proto : ProtoApi Message) where
  pub built-same :
      (c : Connection) (cmd : ListKeysCommand) (w : W) (s : Sends net proto api c cmd w)
      → s.built ≡ cmd
  unfolding construct_pb_request
  built-same c cmd w s =
      get_riak_message-same proto api cmd s.built (some (rpb_list_keys_req cmd.protobuf)) s.message
        (λ e. absurd (omega arith)) refl s.builds

  -- The responses are delivered on the socket of the connection that waits for them.
  abbrev pub Responds :
      {c : Connection} {cmd : ListKeysCommand} {w : W}
      → Sends net proto api c cmd w
      → ℕ
      → List RpbListKeysResp
      → W
      → Type 0
  Responds s sock rs w' =
      (s.waiting.conn ≡ some sock)
      × (available s.waiting ≡ true)
      × Feeds net proto sock (wait net proto api s) 18 (rpb_list_keys_resp new_rpb_list_keys_resp)
          (map rpb_list_keys_resp rs) s.sent w'

  -- `execute` returned, with the connection free again.
  abbrev pub Returns :
      {c : Connection} {cmd : ListKeysCommand} {w : W}
      → Sends net proto api c cmd w
      → ℕ
      → ListKeysCommand
      → Option Error
      → W
      → Type 0
  Returns {c} {cmd} {w} s fuel cmd' e w' =
      (n : ℕ) × (execute net proto api fuel c cmd w
        ≡ ok (record s.waiting { data_buf_cap = n; in_flight = false }, cmd', e, w'))

  pub execute-Returns :
      (rs : List RpbListKeysResp) (fuel : ℕ) (c : Connection) (cmd cmd' : ListKeysCommand)
      (e : Option Error) (w w' : W) (s : Sends net proto api c cmd w) (sock : ℕ)
      → Responds s sock rs w'
      → length rs ≤ suc fuel
      → Consumes api cmd (map rpb_list_keys_resp rs) cmd' e
      → Returns s (suc fuel) cmd' e w'
  execute-Returns rs fuel c cmd cmd' e w w' s sock (conn, up, fs) enough takes =
      execute_stream net proto api (map rpb_list_keys_resp rs) fuel c cmd cmd' e w w' s sock
        list_keys-IsSteady conn up (omega (arith, length-map rs)) (rw (built-same c cmd w s) takes)
        fs

  -- Where the request of a ListKeys command that does not stream goes out, and the socket of the
  -- available connection delivers responses of which the last one and no other is marked as done:
  -- `execute`, with fuel for one response each, returns without an error. The command is done and
  -- successful and holds the keys of all responses, in the order in which they came, behind those
  -- that it had; and the connection is free again.
  pub execute_list_keys :
      (rs : List RpbListKeysResp) (fuel : ℕ) (c : Connection) (cmd : ListKeysCommand) (w w' : W)
      (s : Sends net proto api c cmd w) (sock : ℕ)
      → Responds s sock rs w'
      → cmd.streaming ≡ false
      → IsFinal rs
      → length rs ≤ suc fuel
      → Returns s (suc fuel) (holding cmd (response_of cmd ++ all_keys rs) true) none w'
  execute_list_keys rs fuel c cmd w w' s sock responds off final enough =
      execute-Returns rs fuel c cmd _ none w w' s sock responds enough
        (Consumes-holding cmd rs off final)
