-- ===== src/Connection/Reading.antt =====
-- connection.go: what `read` returns, and how it leaves the connection.
use native.Mathlib.Nat.{mod-eq_of_lt}
use riak_go_client.Prelude.{
  ℕ, zero, suc, ◌+◌, ◌%◌, ◌<◌, ◌≡◌, refl, ap, ◌∙◌, true, none, some, inr, List, ◌∷◌, arith, ltb,
  if◌then◌else◌, length, take, drop,
}
use riak_go_client.Command.{put_uint32, uint32, build_riak_message}
use riak_go_client.Command.Frame.{uint32-put_uint32}
use riak_go_client.Connection.{
  Connection, NetApi, available, read, read_once, read_loop, read_from, read_body, after_read,
}

module _ {W : Type 0} (net : NetApi W) where
  -- The socket delivers a message that `buildRiakMessage` made: its first four bytes, then the
  -- rest, the deadline being set before each.
  pub record Delivers (sock timeout code : ℕ) (bytes : List ℕ) (w w' : W) : Type 0 where
    pub fits : length bytes + 1 < 4294967296
    pub between : W
    pub header :
        net.read_full sock 4 (net.set_read_deadline sock timeout w)
        ≡ (take 4 (build_riak_message code bytes), none, between)
    pub body :
        net.read_full sock (length bytes + 1) (net.set_read_deadline sock timeout between)
        ≡ (drop 4 (build_riak_message code bytes), none, w')

  unfoldable pub grown : Connection → ℕ → Connection
  grown c n = record c { data_buf_cap = if ltb c.data_buf_cap n then n else c.data_buf_cap }

  read_body_lem :
      (c : Connection) (sock timeout n : ℕ) (header bytes : List ℕ) (w w' : W)
      → uint32 header ≡ n
      → net.read_full sock n (net.set_read_deadline sock timeout w) ≡ (bytes, none, w')
      → length bytes ≡ n
      → read_body net c sock timeout header w ≡ (grown c n, inr bytes, w')
  unfolding read_body grown
  read_body_lem c sock timeout n header bytes w w' e r l = ground arith

  read_once_lem :
      (c : Connection) (sock timeout n : ℕ) (header bytes : List ℕ) (w between w' : W)
      → net.read_full sock 4 (net.set_read_deadline sock timeout w) ≡ (header, none, between)
      → length header ≡ 4
      → uint32 header ≡ n
      → net.read_full sock n (net.set_read_deadline sock timeout between) ≡ (bytes, none, w')
      → length bytes ≡ n
      → read_once net c sock timeout w ≡ (grown c n, inr bytes, w')
  unfolding read_once
  read_once_lem c sock timeout n header bytes w between w' h four e r l =
      ground (arith, read_body_lem c sock timeout n header bytes between w' e r l)

  read_once-Delivers :
      (c : Connection) (sock timeout code : ℕ) (bytes : List ℕ) (w w' : W)
      → Delivers sock timeout code bytes w w'
      → read_once net c sock timeout w ≡ (grown c (length bytes + 1), inr (code % 256 ∷ bytes), w')
  unfolding build_riak_message
  read_once-Delivers c sock timeout code bytes w w' d =
      read_once_lem c sock timeout (length bytes + 1) _ _ w d.between w' d.header refl
        (ap uint32 (ap put_uint32 (mod-eq_of_lt d.fits)) ∙ uint32-put_uint32 _ d.fits) d.body
        (omega arith)

  read_loop-Delivers :
      (left tries min : ℕ) (c : Connection) (sock timeout code : ℕ) (bytes : List ℕ) (w w' : W)
      → Delivers sock timeout code bytes w w'
      → read_loop net left tries sock min timeout c w
        ≡ (grown c (length bytes + 1), inr (code % 256 ∷ bytes), w')
  unfolding read_loop after_read
  read_loop-Delivers zero tries min c sock timeout code bytes w w' d =
      rw (read_once-Delivers c sock timeout code bytes w w' d) refl
  read_loop-Delivers (suc left) tries min c sock timeout code bytes w w' d =
      rw (read_once-Delivers c sock timeout code bytes w w' d) refl

  -- What `buildRiakMessage` writes, `read` reads: on an available connection whose socket delivers
  -- such a message, of less than 4 GiB, it returns the code and the bytes.
  pub read-build_riak_message :
      (c : Connection) (sock timeout code : ℕ) (bytes : List ℕ) (w w' : W)
      → c.conn ≡ some sock
      → available c ≡ true
      → Delivers sock timeout code bytes w w'
      → read net c timeout w ≡ (grown c (length bytes + 1), inr (code % 256 ∷ bytes), w')
  unfolding read
  read-build_riak_message c sock timeout code bytes w w' s a d = rw a (
      ap (λ o. read_from net o timeout c w) s
      ∙ read_loop-Delivers c.temp_net_error_retries 0 timeout c sock timeout code bytes w w' d)
