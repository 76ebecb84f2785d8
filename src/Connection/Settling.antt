-- ===== src/Connection/Settling.antt =====
-- connection.go: how `read` leaves the connection, with all its rounds.
use riak_go_client.Prelude.{
  ℕ, zero, suc, ◌≡◌, refl, ◌∙◌, Bool, true, false, ◌&&◌, Option, none, some, ◌⊎◌, inl, inr, List,
  arith, ◌==◌, length, Bool-cases, Option-cases,
}
use riak_go_client.Errors.{Error, cannot_read, is_temporary_net_error}
use riak_go_client.Connection.{
  Connection, NetApi, available, set_conn_state, conn_inactive, read, read_from, read_loop,
  read_once, read_body, after_header, after_read,
}

module _ {W : Type 0} (net : NetApi W) where
  -- A result behind a connection that was `c`: with an error it is not available any more, and
  -- with a message it has the socket and the state that it had.
  abbrev pub Settles : Connection → Connection × (Error ⊎ List ℕ) × W → Type 0
  Settles c (c', inl e, w) = available c' ≡ false
  Settles c (c', inr bytes, w) = (c'.conn ≡ c.conn) × (c'.state_data ≡ c.state_data)

  -- The same for one round, whose error settles nothing yet.
  abbrev Keeps : Connection → Connection × (Error ⊎ List ℕ) × W → Type 0
  Keeps c (c', r, w) = (c'.conn ≡ c.conn) × (c'.state_data ≡ c.state_data)

  read_once-Keeps : (c : Connection) (sock rt : ℕ) (w : W) → Keeps c (read_once net c sock rt w)
  unfolding read_once after_header read_body
  read_once-Keeps c sock rt w = header (net.read_full sock 4 (net.set_read_deadline sock rt w))
    where
      header : (r : List ℕ × Option Error × W) → Keeps c (after_header net c sock rt r)
      header (bytes, some e, w') = (refl, refl)
      header (bytes, none, w') = elim (Bool-cases (length bytes == 4)) [
        | inl whole ↦ rw whole (refl, refl)
        | inr short ↦ rw short (refl, refl)
      ]

  inactive_lem : (c : Connection) → available (set_conn_state c conn_inactive) ≡ false
  inactive_lem c = elim (Option-cases c.conn) [
    | inl closed ↦ rw closed refl
    | inr (sock, still) ↦ rw still refl
  ]

  after_read-Settles :
      (again : Connection → W → Connection × (Error ⊎ List ℕ) × W) (may_retry : Bool)
      (c : Connection) (r : Connection × (Error ⊎ List ℕ) × W)
      → Keeps c r
      → ((d : Connection) (w : W)
          → may_retry ≡ true
          → d.conn ≡ c.conn
          → d.state_data ≡ c.state_data
          → Settles c (again d w))
      → Settles c (after_read net again may_retry r)
  unfolding after_read
  after_read-Settles again may_retry c (d, inr bytes, w) k more = k
  after_read-Settles again may_retry c (d, inl e, w) (k, k') more =
      elim (Bool-cases (may_retry && is_temporary_net_error e)) [
        | inl retries ↦ rw retries (more d w (ground arith) k k')
        | inr ends ↦ rw ends (inactive_lem d)
      ]

  -- The loop from a connection `d` that has the socket and the state of `c`.
  read_loop-Settles :
      (left tries sock min rt : ℕ) (c d : Connection) (w : W)
      → d.conn ≡ c.conn
      → d.state_data ≡ c.state_data
      → Settles c (read_loop net left tries sock min rt d w)
  unfolding read_loop
  read_loop-Settles zero tries sock min rt c d w k k' =
      let (k1, k2) = read_once-Keeps d sock rt w in
      after_read-Settles (λ c' w'. (c', inl cannot_read, w')) false c (read_once net d sock rt w)
        (k1 ∙ k, k2 ∙ k') (λ d' w' h. absurd (ground arith))
  read_loop-Settles (suc left) tries sock min rt c d w k k' =
      let (k1, k2) = read_once-Keeps d sock rt w in
      after_read-Settles (read_loop net left (suc tries) sock min (net.backoff min tries)) true c
        (read_once net d sock rt w) (k1 ∙ k, k2 ∙ k')
        (λ d' w' _ h h'.
          read_loop-Settles left (suc tries) sock min (net.backoff min tries) c d' w' h h')

  -- Whatever the socket answers, in however many rounds: where `read` returns an error, the
  -- connection is not available any more, so that a pool will not hand it out again; where it
  -- returns a message, the connection has the socket and the state that it had.
  pub read-Settles : (c : Connection) (timeout : ℕ) (w : W) → Settles c (read net c timeout w)
  unfolding read read_from
  read-Settles c timeout w = elim (Bool-cases (available c)) [
    | inr down ↦ rw down down
    | inl up ↦ rw up (from c.conn refl)
  ]
    where
      from : (o : Option ℕ) → c.conn ≡ o → Settles c (read_from net o timeout c w)
      from none closed = rw closed refl
      from (some sock) still =
          read_loop-Settles c.temp_net_error_retries 0 sock timeout timeout c c w refl refl
