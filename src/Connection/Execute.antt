-- ===== src/Connection/Execute.antt =====
-- connection.go: `execute`, a request and its responses. A streaming command reads until it says
-- that it is done, so the loop takes fuel.
use riak_go_client.Prelude.{
  ℕ, zero, suc, Bool, true, false, Option, none, some, ◌⊎◌, inl, inr, List, ltb, if◌then◌else◌, Run,
  ok, spins, ◌>>=◌,
}
use riak_go_client.Errors.{Error, client_error, connection_in_use, listing_disabled}
use riak_go_client.Command.{
  CommandApi, ProtoApi, get_riak_message, maybe_riak_error, decode_riak_message,
}
use riak_go_client.Connection.{Connection, NetApi, read, write}

-- A listingCommand that does not allow listing.
abbrev pub listing_refused : Option Bool → Bool
listing_refused (some false) = true
listing_refused _ = false

-- A streamingCommand that is not done.
abbrev pub wants_more : Option Bool → Bool
wants_more (some false) = true
wants_more _ = false

-- The greater of the connection's and the command's timeout.
abbrev pub request_timeout : ℕ → Option ℕ → ℕ
request_timeout timeout none = timeout
request_timeout timeout (some tc) = if ltb timeout tc then tc else timeout

module _ {W K Msg : Type 0} (net : NetApi W) (proto : ProtoApi Msg) (cmds : CommandApi K Msg) where
  abbrev pub Executed : Type 0
  Executed = Run (Connection × K × Option Error × W)

  abbrev failed : Connection → K → Error → W → Executed
  failed c k e w = ok (c, cmds.handle_error k e, some e, w)

  unfoldable pub after_success :
      (Connection → K → W → Executed) → Connection → K × Option Error → W → Executed
  after_success more c (k, some e) w = failed c k e w
  after_success more c (k, none) w =
      let next = more c k w in if wants_more (cmds.is_done k) then next else ok (c, k, none, w)

  unfoldable pub after_decode :
      (Connection → K → W → Executed) → Connection → K → W → Error ⊎ Option Msg → Executed
  unfolding after_success
  after_decode more c k w (inl e) = failed c k e w
  after_decode more c k w (inr msg) = cmds.handle_success k msg >>= λ a. after_success more c a w

  unfoldable pub after_riak_error :
      (Connection → K → W → Executed) → Connection → K → List ℕ → W → Option Error → Executed
  unfolding after_decode
  after_riak_error more c k response w (some e) = failed c k e w
  after_riak_error more c k response w none =
      decode_riak_message proto cmds k response >>= after_decode more c k w

  unfoldable pub after_response :
      (Connection → K → W → Executed) → K → Connection × (Error ⊎ List ℕ) × W → Executed
  unfolding after_riak_error
  after_response more k (c, inl e, w) = failed c k e w
  after_response more k (c, inr response, w) =
      maybe_riak_error proto response >>= after_riak_error more c k response w

  -- The `for` loop over the responses.
  unfoldable pub respond : ℕ → ℕ → Connection → K → W → Executed
  unfolding after_response
  respond zero timeout c k w = spins
  respond (suc fuel) timeout c k w = after_response (respond fuel timeout) k (read net c timeout w)

  -- An error of `write` is returned without a call of `onError`.
  unfoldable pub after_write : ℕ → ℕ → K → Connection × Option Error × W → Executed
  unfolding respond
  after_write fuel timeout k (c, some e, w) = ok (c, k, some e, w)
  after_write fuel timeout k (c, none, w) = respond fuel timeout c k w

  -- So is an error of `getRiakMessage`.
  unfoldable pub after_message : ℕ → Connection → W → K × (Error ⊎ List ℕ) → Executed
  unfolding after_write
  after_message fuel c w (k, inl e) = ok (c, k, some e, w)
  after_message fuel c w (k, inr message) =
      let timeout = request_timeout c.request_timeout (cmds.get_timeout k) in
      after_write fuel timeout k (write net c message timeout w)

  -- The deferred `setInFlight(false)`.
  unfoldable pub landed : Connection × K × Option Error × W → Executed
  landed (c, k, e, w) = ok (record c { in_flight = false }, k, e, w)

  take_off : ℕ → Connection → K → W → Executed
  unfolding after_message landed
  take_off fuel c k w =
      let c' = record c { in_flight = true; last_used = net.now w } in
      (get_riak_message proto cmds k >>= after_message fuel c' w) >>= landed

  unfoldable pub execute : ℕ → Connection → K → W → Executed
  unfolding take_off
  execute fuel c k w =
      if c.in_flight
      then ok (c, k, some connection_in_use, w)
      else if listing_refused (cmds.allow_listing k)
      then failed c k (client_error listing_disabled) w
      else take_off fuel c k w
