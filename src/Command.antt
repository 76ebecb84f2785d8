-- ===== src/Command.antt =====
-- command.go, rpb.go and part of error.go: what a command is to the rest of the client, and how
-- its request and response are framed.
use riak_go_client.Prelude.{
  ℕ, zero, suc, ◌+◌, ◌*◌, ◌%◌, ◌/◌, Bool, true, false, Option, none, some, ◌⊎◌, inl, inr, List, [],
  ◌∷◌, ◌++◌, ltb, ◌==◌, if◌then◌else◌, length, Run, ok, panic, ◌>>=◌, zero_request_code,
  zero_response_code, index_out_of_range, nil_last_node,
}
use riak_go_client.Errors.{
  Error, riak_error, client_error, new_client_error, zero_length, unexpected_code,
}
pub mod Frame
pub mod Requests
pub mod Building
pub mod Codes
pub mod Examples

-- The commandImpl that commands embed; the name, which only debugging prints, is left out.
pub record CommandImpl : Type 0 where
  pub error : Option Error
  pub success : Bool

abbrev pub on_error : CommandImpl → Error → CommandImpl
on_error cmd err = record { error = some err; success = false }

abbrev pub on_retry : CommandImpl → CommandImpl
on_retry cmd = record cmd { error = none }

-- `setLastNode` panics on nil; a node is known by a number.
abbrev pub set_last_node : Option ℕ → Run (Option ℕ)
set_last_node none = panic nil_last_node
set_last_node (some node) = ok (some node)

-- The Command interface and its optional parts: `K` is the type of command states, `Msg` that of
-- protobuf messages. `allow_listing`, `get_timeout` and `is_done` answer `none` for a command that
-- is no listingCommand, timeoutCommand or streamingCommand; `last_node` holds `none` for one that
-- is no retryableCommand.
pub record CommandApi (K Msg : Type 0) : Type 0 where
  pub get_request_code : K → ℕ
  pub get_response_code : K → ℕ
  pub construct_pb_request : K → Run (K × (Error ⊎ Option Msg))
  pub get_response_protobuf_message : K → Option Msg
  pub success : K → Bool
  pub error : K → Option Error
  pub handle_error : K → Error → K
  pub handle_retry : K → K
  pub handle_success : K → Option Msg → Run (K × Option Error)
  pub allow_listing : K → Option Bool
  pub get_timeout : K → Option ℕ
  pub is_done : K → Option Bool
  pub is_retryable : K → Bool
  pub get_last_node : K → Option ℕ
  pub record_last_node : K → ℕ → K

-- What the client calls of the protobuf package. `unmarshal` fills a message of the type of the
-- one that it is given; `unmarshal_error` reads an RpbErrorResp, its code and its text.
pub record ProtoApi (Msg : Type 0) : Type 0 where
  pub marshal : Msg → Error ⊎ List ℕ
  pub unmarshal : List ℕ → Msg → Error ⊎ Msg
  pub unmarshal_error : List ℕ → Error ⊎ (ℕ × List ℕ)

-- `binary.Write` of a `uint32`, big endian.
pub put_uint32 : ℕ → List ℕ
put_uint32 n = (n / 16777216 % 256) ∷ (n / 65536 % 256) ∷ (n / 256 % 256) ∷ (n % 256) ∷ []

-- `binary.BigEndian.Uint32`; the slice holds four bytes.
unfoldable pub uint32 : List ℕ → ℕ
uint32 (a ∷ b ∷ c ∷ d ∷ rest) = a * 16777216 + b * 65536 + c * 256 + d
uint32 _ = 0

unfoldable pub build_riak_message : ℕ → List ℕ → List ℕ
unfolding put_uint32
build_riak_message code bytes = put_uint32 ((length bytes + 1) % 4294967296) ++ (code % 256) ∷ bytes

abbrev pub rpb_code_error_resp : ℕ
rpb_code_error_resp = 0

rpb_ensure_code : ℕ → ℕ → Option Error
unfolding new_client_error
rpb_ensure_code expected actual =
    if expected == actual
    then none
    else some (new_client_error (unexpected_code expected actual) none)

unfoldable pub rpb_validate_resp : List ℕ → ℕ → Option Error
unfolding rpb_ensure_code
rpb_validate_resp [] expected = some (client_error zero_length)
rpb_validate_resp (code ∷ bytes) expected = rpb_ensure_code expected code

module _ {Msg : Type 0} (proto : ProtoApi Msg) where
  riak_error_of : Error ⊎ (ℕ × List ℕ) → Error
  riak_error_of (inl e) = e
  riak_error_of (inr (code, text)) = riak_error code text

  -- `data[0]` panics on an empty slice.
  unfoldable pub maybe_riak_error : List ℕ → Run (Option Error)
  unfolding riak_error_of
  maybe_riak_error [] = panic index_out_of_range
  maybe_riak_error (code ∷ bytes) =
      if code == rpb_code_error_resp
      then ok (some (riak_error_of (proto.unmarshal_error bytes)))
      else ok none

  module _ {K : Type 0} (cmds : CommandApi K Msg) where
    framed : ℕ → K → Error ⊎ List ℕ → K × (Error ⊎ List ℕ)
    framed code k (inl e) = (k, inl e)
    framed code k (inr bytes) = (k, inr (build_riak_message code bytes))

    pub marshalled : ℕ → K × (Error ⊎ Option Msg) → K × (Error ⊎ List ℕ)
    unfolding framed
    marshalled code (k, inl e) = (k, inl e)
    marshalled code (k, inr none) = framed code k (inr [])
    marshalled code (k, inr (some msg)) = framed code k (proto.marshal msg)

    unfoldable pub get_riak_message : K → Run (K × (Error ⊎ List ℕ))
    unfolding marshalled
    get_riak_message k =
        let code = cmds.get_request_code k in
        if code == 0
        then panic zero_request_code
        else cmds.construct_pb_request k >>= λ m. ok (marshalled code m)

    unmarshalled : Error ⊎ Msg → Error ⊎ Option Msg
    unmarshalled (inl e) = inl e
    unmarshalled (inr msg) = inr (some msg)

    -- The message is unmarshalled only if there are bytes behind the code.
    decoded_body : Option Msg → List ℕ → Error ⊎ Option Msg
    unfolding unmarshalled
    decoded_body template [] = inr none
    decoded_body none (b ∷ bytes) = inr none
    decoded_body (some msg) (b ∷ bytes) = unmarshalled (proto.unmarshal (b ∷ bytes) msg)

    pub validated : K → List ℕ → Option Error → Error ⊎ Option Msg
    unfolding decoded_body
    validated k bytes (some e) = inl e
    validated k [] none = inr none
    validated k (code ∷ bytes) none = decoded_body (cmds.get_response_protobuf_message k) bytes

    unfoldable pub decode_riak_message : K → List ℕ → Run (Error ⊎ Option Msg)
    unfolding validated
    decode_riak_message k bytes =
        let code = cmds.get_response_code k in
        if code == 0
        then panic zero_response_code
        else ok (validated k bytes (rpb_validate_resp bytes code))
