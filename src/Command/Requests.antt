-- ===== src/Command/Requests.antt =====
-- command.go: a command that builds its request without changing.
use riak_go_client.Prelude.{
  ℕ, ◌≡◌, ◌≢◌, sym, false, Option, none, some, ◌⊎◌, inl, inr, List, ◌==◌, arith, ok,
}
use riak_go_client.Errors.{Error}
use riak_go_client.Command.{CommandApi, ProtoApi, framed, marshalled, get_riak_message}

module _ {K Msg : Type 0} (proto : ProtoApi Msg) (cmds : CommandApi K Msg) where
  framed_command :
      (code : ℕ) (k built : K) (m : Option Msg) (message : List ℕ)
      → marshalled proto cmds code (k, inr m) ≡ (built, inr message)
      → built ≡ k
  unfolding marshalled
  framed_command code k built none message e = cc
  framed_command code k built (some msg) message e = by_body (proto.marshal msg) e
    where
      by_body :
          (body : Error ⊎ List ℕ) → framed proto cmds code k body ≡ (built, inr message) → built ≡ k
      by_body (inl x) e = cc
      by_body (inr bytes) e = cc

  -- A command that builds its request without changing is the same after its message is made.
  pub get_riak_message-same :
      (k built : K) (m : Option Msg) (message : List ℕ)
      → cmds.get_request_code k ≢ 0
      → cmds.construct_pb_request k ≡ ok (k, inr m)
      → get_riak_message proto cmds k ≡ ok (built, inr message)
      → built ≡ k
  unfolding get_riak_message
  get_riak_message-same k built m message nz e g =
      let off : (cmds.get_request_code k == 0) ≡ false = ground arith in
      framed_command (cmds.get_request_code k) k built m message (cc (sym (rw (off, e) at g)))
