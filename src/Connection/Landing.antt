-- ===== src/Connection/Landing.antt =====
-- connection.go: `execute` returns, with the connection not in flight.
use riak_go_client.Prelude.{
  ℕ, suc, ◌≡◌, ◌≢◌, refl, true, false, Option, none, some, ◌⊎◌, inl, inr, List, [], ◌∷◌, arith,
  ◌==◌, ok, panic, spins, ◌>>=◌, index_out_of_range, Bool-cases,
}
use riak_go_client.Errors.{Error}
use riak_go_client.Command.{
  CommandApi, ProtoApi, get_riak_message, maybe_riak_error, decode_riak_message, rpb_validate_resp,
  validated, marshalled,
}
use riak_go_client.Connection.{Connection, NetApi, read, write}
use riak_go_client.Connection.Execute.{
  Executed, listing_refused, after_success, after_decode, after_riak_error, after_response, respond,
  after_write, after_message, landed, execute,
}

module _ {W K Msg : Type 0} (net : NetApi W) (proto : ProtoApi Msg) (cmds : CommandApi K Msg) where
  -- No loop without end, and no panic but that of a response with no code.
  abbrev Answers : Executed net proto cmds → Type 0
  Answers (ok r) = Unit
  Answers (panic p) = p ≡ index_out_of_range
  Answers spins = ⊥

  -- The same, and the connection is not in flight.
  abbrev pub Lands : Executed net proto cmds → Type 0
  Lands (ok (c, k, e, w)) = c.in_flight ≡ false
  Lands (panic p) = p ≡ index_out_of_range
  Lands spins = ⊥

  -- A command that is not streaming, has request and response codes, and panics on no response
  -- and on no request.
  pub record IsSimple : Type 0 where
    pub has_request_code : (k : K) → cmds.get_request_code k ≢ 0
    pub has_response_code : (k : K) → cmds.get_response_code k ≢ 0
    pub not_streaming : (k : K) → cmds.is_done k ≡ none
    pub builds : (k : K) → (m : K × (Error ⊎ Option Msg)) × (cmds.construct_pb_request k ≡ ok m)
    pub accepts :
        (k : K) (msg : Option Msg) → (a : K × Option Error) × (cmds.handle_success k msg ≡ ok a)

  after_success-Answers :
      IsSimple
      → (more : Connection → K → W → Executed net proto cmds) (c : Connection)
        (a : K × Option Error) (w : W)
      → Answers (after_success net proto cmds more c a w)
  unfolding after_success
  after_success-Answers simple more c (k, some e) w = tt
  after_success-Answers simple more c (k, none) w = rw (simple.not_streaming k) tt

  after_decode-Answers :
      IsSimple
      → (more : Connection → K → W → Executed net proto cmds) (c : Connection) (k : K) (w : W)
        (a : Error ⊎ Option Msg)
      → Answers (after_decode net proto cmds more c k w a)
  unfolding after_decode
  after_decode-Answers simple more c k w (inl e) = tt
  after_decode-Answers simple more c k w (inr msg) =
      let (a, e) = simple.accepts k msg in rw e (after_success-Answers simple more c a w)

  decode_answers :
      IsSimple
      → (k : K) (response : List ℕ)
      → (a : Error ⊎ Option Msg) × (decode_riak_message proto cmds k response ≡ ok a)
  unfolding decode_riak_message
  decode_answers simple k response =
      let code : (cmds.get_response_code k == 0) ≡ false =
        ground (arith, simple.has_response_code k) in
      (
        validated proto cmds k response (rpb_validate_resp response (cmds.get_response_code k)),
        rw code refl,
      )

  after_riak_error-Answers :
      IsSimple
      → (more : Connection → K → W → Executed net proto cmds) (c : Connection) (k : K)
        (response : List ℕ) (w : W) (a : Option Error)
      → Answers (after_riak_error net proto cmds more c k response w a)
  unfolding after_riak_error
  after_riak_error-Answers simple more c k response w (some e) = tt
  after_riak_error-Answers simple more c k response w none =
      let (a, e) = decode_answers simple k response in
      rw e (after_decode-Answers simple more c k w a)

  after_response-Answers :
      IsSimple
      → (more : Connection → K → W → Executed net proto cmds) (k : K)
        (r : Connection × (Error ⊎ List ℕ) × W)
      → Answers (after_response net proto cmds more k r)
  unfolding after_response maybe_riak_error
  after_response-Answers simple more k (c, inl e, w) = tt
  after_response-Answers simple more k (c, inr [], w) = refl
  after_response-Answers simple more k (c, inr (code ∷ bytes), w) = elim (Bool-cases (code == 0)) [
    | inl failed ↦ rw (failed, after_riak_error) tt
    | inr fine ↦ rw fine (after_riak_error-Answers simple more c k (code ∷ bytes) w none)
  ]

  after_write-Answers :
      IsSimple
      → (fuel timeout : ℕ) (k : K) (r : Connection × Option Error × W)
      → Answers (after_write net proto cmds (suc fuel) timeout k r)
  unfolding after_write
  after_write-Answers simple fuel timeout k (c, some e, w) = tt
  after_write-Answers simple fuel timeout k (c, none, w) =
      after_response-Answers simple (respond net proto cmds fuel timeout) k (read net c timeout w)

  after_message-Answers :
      IsSimple
      → (fuel : ℕ) (c : Connection) (w : W) (m : K × (Error ⊎ List ℕ))
      → Answers (after_message net proto cmds (suc fuel) c w m)
  unfolding after_message
  after_message-Answers simple fuel c w (k, inl e) = tt
  after_message-Answers simple fuel c w (k, inr message) =
      after_write-Answers simple fuel _ k (write net c message _ w)

  message_answers :
      IsSimple → (k : K) → (m : K × (Error ⊎ List ℕ)) × (get_riak_message proto cmds k ≡ ok m)
  unfolding get_riak_message
  message_answers simple k =
      let code : (cmds.get_request_code k == 0) ≡ false =
        ground (arith, simple.has_request_code k) in
      let (m, e) = simple.builds k in
      (marshalled proto cmds (cmds.get_request_code k) m, rw (code, e) refl)

  landed-Lands : (r : Executed net proto cmds) → Answers r → Lands (r >>= landed net proto cmds)
  unfolding landed
  landed-Lands (ok r) a = refl
  landed-Lands (panic p) a = a
  landed-Lands spins a = absurd a

  -- The connection while it waits for the response.
  abbrev pub flying : Connection → W → Connection
  flying c w = record c { in_flight = true; last_used = net.now w }

  pub execute-Lands :
      (fuel : ℕ) (c : Connection) (k : K) (w : W)
      → IsSimple
      → c.in_flight ≡ false
      → Lands (execute net proto cmds (suc fuel) c k w)
  unfolding execute
  execute-Lands fuel c k w simple idle =
      elim (Bool-cases (listing_refused (cmds.allow_listing k))) [
        | inl refused ↦ rw (idle, refused) refl
        | inr allowed ↦
            let (m, e) = message_answers simple k in
            rw (idle, allowed, e)
              (landed-Lands _ (after_message-Answers simple fuel (flying c w) w m))
      ]
