-- ===== src/Connection/Streaming.antt =====
-- connection.go: the responses of a streaming command, which `execute` reads in a loop until the
-- command says that it is done.
use native.Mathlib.Nat.{mod-eq_of_lt}
use riak_go_client.Prelude.{
  ℕ, zero, suc, ◌+◌, ◌≤◌, ◌<◌, ◌≡◌, ◌≢◌, refl, ap, ◌∙◌, true, false, Option, none, some, inr, List,
  [], ◌∷◌, arith, length, ok, ◌>>=◌,
}
use riak_go_client.Errors.{Error}
use riak_go_client.Command.{CommandApi, ProtoApi}
use riak_go_client.Connection.{Connection, NetApi, available}
use riak_go_client.Connection.Execute.{wants_more, after_success, respond, landed, execute}
use riak_go_client.Connection.Reading.{Delivers, grown, read-build_riak_message}
use riak_go_client.Connection.Exchange.{Sends, wait, execute-Sends, takes}

module _ {K Msg : Type 0} (cmds : CommandApi K Msg) where
  -- The command takes the messages, one after the other; it is done with the last one, or refuses
  -- that one with an error, and not before.
  pub data Consumes : K → List Msg → K → Option Error → Type 0 where
    last :
        {k k' : K} (msg : Msg)
        → cmds.handle_success k (some msg) ≡ ok (k', none)
        → wants_more (cmds.is_done k') ≡ false
        → Consumes k (msg ∷ []) k' none
    refused :
        {k k' : K} (msg : Msg) (e : Error)
        → cmds.handle_success k (some msg) ≡ ok (k', some e)
        → Consumes k (msg ∷ []) (cmds.handle_error k' e) (some e)
    more :
        {k k' k'' : K} {msgs : List Msg} {e : Option Error} (msg : Msg)
        → cmds.handle_success k (some msg) ≡ ok (k', none)
        → wants_more (cmds.is_done k') ≡ true
        → Consumes k' msgs k'' e
        → Consumes k (msg ∷ msgs) k'' e

  -- The response code, a byte and not 0, and the message that is unmarshalled are the same in all
  -- states of the command.
  pub record IsSteady (code : ℕ) (template : Msg) : Type 0 where
    pub byte : code < 256
    pub not_error : code ≢ 0
    pub responds : (k : K) → cmds.get_response_code k ≡ code
    pub unmarshals : (k : K) → cmds.get_response_protobuf_message k ≡ some template

module _ {W Msg : Type 0} (net : NetApi W) (proto : ProtoApi Msg) where
  -- The socket delivers the messages, each in a frame with the code and a body that unmarshals.
  pub data Feeds (sock timeout code : ℕ) (template : Msg) : List Msg → W → W → Type 0 where
    silent : {w w' : W} → w ≡ w' → Feeds sock timeout code template [] w w'
    feed :
        {msg : Msg} {msgs : List Msg} {w between w' : W} (b : ℕ) (bytes : List ℕ)
        → proto.unmarshal (b ∷ bytes) template ≡ inr msg
        → Delivers net sock timeout code (b ∷ bytes) w between
        → Feeds sock timeout code template msgs between w'
        → Feeds sock timeout code template (msg ∷ msgs) w w'

-- The connection but for the buffer.
abbrev pub buffered : Connection → ℕ → Connection
buffered c n = record c { data_buf_cap = n }

module _ {W K Msg : Type 0} (net : NetApi W) (proto : ProtoApi Msg) (cmds : CommandApi K Msg) where
  module _ {code : ℕ} {template : Msg} (steady : IsSteady cmds code template)
      (sock timeout : ℕ) where
    respond_first :
        (fuel : ℕ) (c : Connection) (k k' : K) (e : Option Error) (msg : Msg) (b : ℕ)
        (bytes : List ℕ) (w w' : W)
        → c.conn ≡ some sock
        → available c ≡ true
        → proto.unmarshal (b ∷ bytes) template ≡ inr msg
        → Delivers net sock timeout code (b ∷ bytes) w w'
        → cmds.handle_success k (some msg) ≡ ok (k', e)
        → respond net proto cmds (suc fuel) timeout c k w
          ≡ after_success net proto cmds
              (respond net proto cmds fuel timeout)
              (grown net c (length (b ∷ bytes) + 1))
              (k', e)
              w'
    unfolding respond
    respond_first fuel c k k' e msg b bytes w w' conn up u d h =
        rw
          (
            read-build_riak_message net c sock timeout code (b ∷ bytes) w w' conn up d,
            mod-eq_of_lt steady.byte,
          )
          (takes net proto cmds (respond net proto cmds fuel timeout) _ k k' w' code b bytes
            template msg e (steady.responds k) steady.not_error (steady.unmarshals k) u h)

    pub respond-Consumes :
        (msgs : List Msg) (fuel : ℕ) (c : Connection) (k k' : K) (e : Option Error) (w w' : W)
        → length msgs ≤ fuel
        → c.conn ≡ some sock
        → available c ≡ true
        → Consumes cmds k msgs k' e
        → Feeds net proto sock timeout code template msgs w w'
        → (n : ℕ) × (respond net proto cmds fuel timeout c k w ≡ ok (buffered c n, k', e, w'))
    unfolding after_success grown
    respond-Consumes msgs zero c k k' e w w' l conn up (last msg h q) fs = absurd (omega arith)
    respond-Consumes msgs zero c k k' e w w' l conn up (refused msg x h) fs = absurd (omega arith)
    respond-Consumes msgs zero c k k' e w w' l conn up (more msg h q ks) fs = absurd (omega arith)
    respond-Consumes msgs (suc fuel) c k k' e w w' l conn up (last msg h q)
          (feed b bytes u d (silent s)) =
        (
          (grown net c (length (b ∷ bytes) + 1)).data_buf_cap,
          respond_first fuel c k k' none msg b bytes w _ conn up u d h ∙ rw (q, s) refl,
        )
    respond-Consumes msgs (suc fuel) c k k' e w w' l conn up (refused msg x h)
          (feed b bytes u d (silent s)) =
        (
          (grown net c (length (b ∷ bytes) + 1)).data_buf_cap,
          respond_first fuel c k _ (some x) msg b bytes w _ conn up u d h ∙ rw s refl,
        )
    respond-Consumes msgs (suc fuel) c k k' e w w' l conn up
          (more {k' = k1} {msgs = rest} msg h q ks) (feed {between = w1} b bytes u d fs) =
        let (n, r) =
          respond-Consumes rest fuel (grown net c (length (b ∷ bytes) + 1)) k1 k' e w1 w'
            (omega arith) conn up ks fs in
        (n, respond_first fuel c k k1 none msg b bytes w w1 conn up u d h ∙ rw q r)

  -- Where the request of a command goes out and the socket of the available connection delivers
  -- messages in frames with its response code, such that the command takes all but the last one
  -- without being done, and is done with the last one or refuses it: `execute`, with fuel for one
  -- response per message, returns. The command has taken every message in order, the error is
  -- that of its refusal, every byte of the messages has been read and none behind them, and the
  -- connection is free again and has kept all but the size of its buffer.
  pub execute_stream :
      {code : ℕ} {template : Msg} (msgs : List Msg) (fuel : ℕ) (c : Connection) (k k' : K)
      (e : Option Error) (w w' : W) (s : Sends net proto cmds c k w) (sock : ℕ)
      → IsSteady cmds code template
      → s.waiting.conn ≡ some sock
      → available s.waiting ≡ true
      → length msgs ≤ suc fuel
      → Consumes cmds s.built msgs k' e
      → Feeds net proto sock (wait net proto cmds s) code template msgs s.sent w'
      → (n : ℕ) × (execute net proto cmds (suc fuel) c k w
          ≡ ok (record s.waiting { data_buf_cap = n; in_flight = false }, k', e, w'))
  unfolding landed respond
  execute_stream msgs fuel c k k' e w w' s sock steady conn up l ks fs =
      let (n, r) =
        respond-Consumes steady sock (wait net proto cmds s) msgs (suc fuel) s.waiting s.built k' e
          s.sent w' l conn up ks fs in
      (n, execute-Sends net proto cmds fuel c k w s ∙ ap (λ o. o >>= landed net proto cmds) r)
