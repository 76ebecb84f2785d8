-- ===== src/Connection/Exchange.antt =====
-- connection.go: a request and its response, end to end.
use native.Mathlib.Nat.{mod-eq_of_lt}
use riak_go_client.Prelude.{
  ℕ, suc, ◌+◌, ◌<◌, ◌≡◌, ◌≢◌, refl, ◌∙◌, true, false, Option, none, some, inr, List, [], ◌∷◌, arith,
  ◌==◌, length, ok, panic, ◌>>=◌, index_out_of_range,
}
use riak_go_client.Errors.{Error, riak_error}
use riak_go_client.Command.{
  CommandApi, ProtoApi, get_riak_message, maybe_riak_error, decode_riak_message, rpb_validate_resp,
}
use riak_go_client.Connection.{Connection, NetApi, available, read, write}
use riak_go_client.Connection.Execute.{
  Executed, listing_refused, wants_more, request_timeout, after_success, after_decode,
  after_riak_error, after_response, respond, landed, execute,
}
use riak_go_client.Connection.Landing.{flying}
use riak_go_client.Connection.Reading.{Delivers, grown, read-build_riak_message}

module _ {W K Msg : Type 0} (net : NetApi W) (proto : ProtoApi Msg) (cmds : CommandApi K Msg) where
  -- The command's request goes out: the connection is free, listing is allowed, the request can be
  -- built and is written whole. `waiting` and `sent` are the connection and the world after that.
  pub record Sends (c : Connection) (k : K) (w : W) : Type 0 where
    pub idle : c.in_flight ≡ false
    pub allowed : listing_refused (cmds.allow_listing k) ≡ false
    pub built : K
    pub message : List ℕ
    pub builds : get_riak_message proto cmds k ≡ ok (built, inr message)
    pub waiting : Connection
    pub sent : W
    pub writes :
        write net
          (flying net proto cmds c w)
          message
          (request_timeout c.request_timeout (cmds.get_timeout built))
          w
        ≡ (waiting, none, sent)

  abbrev pub wait : {c : Connection} {k : K} {w : W} → Sends c k w → ℕ
  wait {c} s = request_timeout c.request_timeout (cmds.get_timeout s.built)

  pub execute-Sends :
      (fuel : ℕ) (c : Connection) (k : K) (w : W) (s : Sends c k w)
      → execute net proto cmds (suc fuel) c k w ≡ (
          after_response net proto cmds
            (respond net proto cmds fuel (wait s))
            s.built
            (read net s.waiting (wait s) s.sent)
          >>= landed net proto cmds)
  unfolding execute
  execute-Sends fuel c k w s = simp (s.idle, s.allowed, s.builds, s.writes)

  abbrev free : Connection → Connection
  free c = record c { in_flight = false }

  decode_body :
      (k : K) (code b : ℕ) (bytes : List ℕ) (template msg : Msg)
      → cmds.get_response_code k ≡ code
      → code ≢ 0
      → cmds.get_response_protobuf_message k ≡ some template
      → proto.unmarshal (b ∷ bytes) template ≡ inr msg
      → decode_riak_message proto cmds k (code ∷ b ∷ bytes) ≡ ok (inr (some msg))
  unfolding decode_riak_message rpb_validate_resp
  decode_body k code b bytes template msg rc nz t u = ground arith

  -- A response with a body that unmarshals to a message which the command takes.
  pub takes :
      (more : Connection → K → W → Executed net proto cmds) (c : Connection) (k k' : K) (w : W)
      (code b : ℕ) (bytes : List ℕ) (template msg : Msg) (e : Option Error)
      → cmds.get_response_code k ≡ code
      → code ≢ 0
      → cmds.get_response_protobuf_message k ≡ some template
      → proto.unmarshal (b ∷ bytes) template ≡ inr msg
      → cmds.handle_success k (some msg) ≡ ok (k', e)
      → after_response net proto cmds more k (c, inr (code ∷ b ∷ bytes), w)
        ≡ after_success net proto cmds more c (k', e) w
  unfolding after_response maybe_riak_error
  takes more c k k' w code b bytes template msg e rc nz t u h =
      let off : (code == 0) ≡ false = ground arith in
      rw (off, after_riak_error, decode_body k code b bytes template msg rc nz t u, after_decode, h)
        refl

  accepts :
      (more : Connection → K → W → Executed net proto cmds) (c : Connection) (k k' : K) (w : W)
      (code b : ℕ) (bytes : List ℕ) (template msg : Msg)
      → cmds.get_response_code k ≡ code
      → code ≢ 0
      → cmds.get_response_protobuf_message k ≡ some template
      → proto.unmarshal (b ∷ bytes) template ≡ inr msg
      → cmds.handle_success k (some msg) ≡ ok (k', none)
      → wants_more (cmds.is_done k') ≡ false
      → after_response net proto cmds more k (c, inr (code ∷ b ∷ bytes), w) ≡ ok (c, k', none, w)
  unfolding after_success
  accepts more c k k' w code b bytes template msg rc nz t u h q =
      takes more c k k' w code b bytes template msg none rc nz t u h ∙ rw q refl

  -- Where the request of a command goes out, and the socket of the available connection delivers
  -- a message that `buildRiakMessage` made, with the command's response code (a byte and not 0,
  -- which is the code of errors) and a body that unmarshals: the command handles that message,
  -- and where it accepts it and wants no more, `execute` returns no error.
  pub execute_round_trip :
      (fuel : ℕ) (c : Connection) (k k' : K) (w w' : W) (s : Sends c k w) (sock code b : ℕ)
      (bytes : List ℕ) (template msg : Msg)
      → s.waiting.conn ≡ some sock
      → available s.waiting ≡ true
      → cmds.get_response_code s.built ≡ code
      → code ≢ 0
      → code < 256
      → Delivers net sock (wait s) code (b ∷ bytes) s.sent w'
      → cmds.get_response_protobuf_message s.built ≡ some template
      → proto.unmarshal (b ∷ bytes) template ≡ inr msg
      → cmds.handle_success s.built (some msg) ≡ ok (k', none)
      → wants_more (cmds.is_done k') ≡ false
      → execute net proto cmds (suc fuel) c k w
        ≡ ok (free (grown net s.waiting (length (b ∷ bytes) + 1)), k', none, w')
  unfolding landed
  execute_round_trip fuel c k k' w w' s sock code b bytes template msg conn up rc nz byte d t u h
        q =
      execute-Sends fuel c k w s
      ∙ rw
          (
            read-build_riak_message net s.waiting sock (wait s) code (b ∷ bytes) s.sent w' conn up
                d,
            mod-eq_of_lt byte,
            accepts (respond net proto cmds fuel (wait s)) _ s.built k' w' code b bytes template msg
                rc nz t u h q,
          )
          refl

  -- Where the request of a command goes out and the socket of the available connection delivers
  -- an RpbErrorResp that unmarshals, `execute` hands the command a RiakError with its code and
  -- text, and returns that error.
  pub execute_error_resp :
      (fuel : ℕ) (c : Connection) (k : K) (w w' : W) (s : Sends c k w) (sock errcode : ℕ)
      (bytes errmsg : List ℕ)
      → s.waiting.conn ≡ some sock
      → available s.waiting ≡ true
      → Delivers net sock (wait s) 0 bytes s.sent w'
      → proto.unmarshal_error bytes ≡ inr (errcode, errmsg)
      → execute net proto cmds (suc fuel) c k w
        ≡ ok (
          free (grown net s.waiting (length bytes + 1)),
          cmds.handle_error s.built (riak_error errcode errmsg),
          some (riak_error errcode errmsg),
          w',
        )
  unfolding after_response maybe_riak_error landed
  execute_error_resp fuel c k w w' s sock errcode bytes errmsg conn up d u =
      execute-Sends fuel c k w s
      ∙ rw (read-build_riak_message net s.waiting sock (wait s) 0 bytes s.sent w' conn up d, u) refl

  -- Where the request of a command goes out and a response of length 0 is read, which has no
  -- code, `execute` panics: `maybeRiakError` reads the response's first byte before
  -- `rpbValidateResp` would reject it.
  pub execute_empty_response :
      (fuel : ℕ) (c c' : Connection) (k : K) (w w' : W) (s : Sends c k w)
      → read net s.waiting (wait s) s.sent ≡ (c', inr [], w')
      → execute net proto cmds (suc fuel) c k w ≡ panic index_out_of_range
  unfolding after_response maybe_riak_error landed
  execute_empty_response fuel c c' k w w' s r = execute-Sends fuel c k w s ∙ rw r refl
