-- ===== src/Node/HealthCheck.antt =====
-- node.go: the routine that checks a node's health after an error. Other goroutines may change the
-- node while the routine dials and executes, so a tick takes the node as it is at first, after
-- dialing, and after executing the command.
use riak_go_client.Prelude.{
  ◌-◌, ◌≤◌, ◌<◌, ◌≡◌, refl, Bool, true, false, ◌&&◌, ◌==◌, Option, none, some, ◌⊎◌, inl, inr, arith,
  if◌then◌else◌, Run, ok, panic, spins, ◌>>=◌, nil_dereference, Bool-cases,
}
use riak_go_client.Errors.{Error}
use riak_go_client.States.{is_current_state, set_state}
use riak_go_client.Command.{CommandApi}
use riak_go_client.ConnectionManager.{ConnApi, connection_options}
use riak_go_client.Node.{Node, node_running, node_health_checking, do_health_check}

-- `n.healthCheckBuilder.Build()`, or the ping where there is no builder or it fails.
unfoldable pub get_health_check_command {ℓ} : {K : Type ℓ} → Option (Error ⊎ K) → K → K
get_health_check_command none ping = ping
get_health_check_command (some (inl e)) ping = ping
get_health_check_command (some (inr k)) ping = k

abbrev pub is_none : Option Error → Bool
is_none none = true
is_none (some e) = false

module _ {C : Type 0} where
  abbrev pub ensure_health_check_can_continue : Node C → Bool
  ensure_health_check_can_continue n = is_current_state n.state_data node_health_checking

module _ {C K W Msg : Type 0} (api : ConnApi C W) (cmds : CommandApi K Msg)
    (conn_execute : C → K → W → Run (C × K × Option Error × W)) where
  -- Whether the routine is done, behind the node.
  abbrev pub Tick : Type 0
  Tick = Run (Node C × Bool × W)

  -- The routine returns.
  abbrev quits : Node C → W → Tick
  quits n w = ok (record n { checking = n.checking - 1 }, true, w)

  recovered : Node C → W → Tick
  recovered n w =
      if ensure_health_check_can_continue n
      then quits (record n { state_data = set_state n.state_data node_running }) w
      else quits n w

  after_check : Node C → C × K × Option Error × W → Tick
  unfolding recovered
  after_check n (c, k, e, w) =
      let (c', _, w') = api.close c w in
      if is_none e && cmds.success k then recovered n w' else ok (n, false, w')

  -- `conn.close()` after a failed dial; a nil connection would be dereferenced.
  after_dial : Node C → Node C → K → Option C × Option Error × W → Tick
  unfolding after_check
  after_dial n' n'' k (none, some e, w) = panic nil_dereference
  after_dial n' n'' k (some c, some e, w) = let (c', _, w') = api.close c w in ok (n', false, w')
  after_dial n' n'' k (none, none, w) = panic nil_dereference
  after_dial n' n'' k (some c, none, w) =
      if ensure_health_check_can_continue n'
      then (conn_execute c k w >>= after_check n'')
      else (let (c', _, w') = api.close c w in quits n' w')

  -- One tick of the ticker: `n`, `n'` and `n''` are the node at first, after dialing, and after
  -- executing.
  pub health_check_tick : Node C → Node C → Node C → K → W → Tick
  unfolding after_dial
  health_check_tick n n' n'' k w =
      if ensure_health_check_can_continue n
      then (api.create_connection (connection_options n.cm) w >>= after_dial n' n'' k)
      else quits n w

  -- The test before the `select`.
  unfoldable pub health_check_head : Node C → W → Tick
  health_check_head n w = if ensure_health_check_can_continue n then ok (n, false, w) else quits n w

  -- The routine finds `stopChan` closed.
  unfoldable pub health_check_stop : Node C → W → Tick
  health_check_stop n w = quits n w

module _ {C : Type 0} where
  -- At most one routine runs, and none while the node is created or running.
  pub record OneCheck (n : Node C) : Type 0 where
    pub at_most_one : n.checking ≤ 1
    pub none_before : n.state_data.state_val < node_health_checking → n.checking ≡ 0

  pub do_health_check-OneCheck : (n : Node C) → OneCheck n → OneCheck (do_health_check n)
  unfolding do_health_check
  do_health_check-OneCheck n v = ground arith

module _ {C : Type 0} where
  -- The node is in the state of the health check.
  abbrev pub is_checking : Node C → Bool
  is_checking n = n.state_data.state_val == node_health_checking

module _ {C K W Msg : Type 0} (api : ConnApi C W) (cmds : CommandApi K Msg)
    (conn_execute : C → K → W → Run (C × K × Option Error × W)) where
  abbrev pub Checking : Node C → Type 0
  Checking n = OneCheck n × (n.checking ≡ 1)

  -- The node as it is when no routine checks it any more.
  abbrev pub unchecked : Node C → Node C
  unchecked n = record n { checking = 0 }

  -- The node that has passed its check: running, if it was still checking its health.
  abbrev pub passed : Node C → Bool → Node C
  passed n true = record n {
    checking = 0;
    state_data = record n.state_data { state_val = node_running };
  }
  passed n false = unchecked n

  -- The end of a tick that has executed the command, by how the execution ended. A panic and a loop
  -- without end are passed on; otherwise the connection is closed, and the node has passed its check
  -- where there was no error and the command succeeded.
  abbrev pub Ended : Node C → Run (C × K × Option Error × W) → Tick api cmds conn_execute → Type 0
  Ended n (panic p) t = t ≡ panic p
  Ended n spins t = t ≡ spins
  Ended n (ok (c, k, none, w)) t =
      ((cmds.success k ≡ true) × (t ≡ ok (passed n (is_checking n), true, (api.close c w).2)))
      ⊎ ((cmds.success k ≡ false) × (t ≡ ok (n, false, (api.close c w).2)))
  Ended n (ok (c, k, some e, w)) t = t ≡ ok (n, false, (api.close c w).2)

  -- The rest of a tick that has dialed, by what dialing answered. Without a connection it panics;
  -- with one and an error it closes it and goes on. Where the node was left meanwhile it closes the
  -- connection and the routine ends.
  abbrev pub Dialed :
      Node C → Node C → K → Run (Option C × Option Error × W) → Tick api cmds conn_execute → Type 0
  Dialed n' n'' k (panic p) t = t ≡ panic p
  Dialed n' n'' k spins t = t ≡ spins
  Dialed n' n'' k (ok (none, e, w)) t = t ≡ panic nil_dereference
  Dialed n' n'' k (ok (some c, some e, w)) t = t ≡ ok (n', false, (api.close c w).2)
  Dialed n' n'' k (ok (some c, none, w)) t =
      ((is_checking n' ≡ true) × Ended n'' (conn_execute c k w) t)
      ⊎ ((is_checking n' ≡ false) × (t ≡ ok (unchecked n', true, (api.close c w).2)))

  -- The ways in which a tick can go.
  pub data Ticked (n n' n'' : Node C) (k : K) (w : W) : Tick api cmds conn_execute → Type 0 where
    moved : is_checking n ≡ false → Ticked n n' n'' k w (ok (unchecked n, true, w))
    dialed :
        (t : Tick api cmds conn_execute)
        → is_checking n ≡ true
        → Dialed n' n'' k (api.create_connection (connection_options n.cm) w) t
        → Ticked n n' n'' k w t

  after_check-Ended :
      (n : Node C) (r : Run (C × K × Option Error × W))
      → n.checking ≡ 1
      → Ended n r (r >>= after_check api cmds conn_execute n)
  unfolding after_check recovered
  after_check-Ended n (panic p) h = refl
  after_check-Ended n spins h = refl
  after_check-Ended n (ok (c, k, some e, w)) h = refl
  after_check-Ended n (ok (c, k, none, w)) h = elim (Bool-cases (cmds.success k)) [
    | inl well ↦ inl (
      well,
      elim (Bool-cases (is_checking n)) [
        | inl still ↦ rw (well, still, h) refl
        | inr left ↦ rw (well, left, h) refl
      ],
    )
    | inr ill ↦ inr (ill, rw ill refl)
  ]

  after_dial-Dialed :
      (n' n'' : Node C) (k : K) (r : Run (Option C × Option Error × W))
      → n'.checking ≡ 1
      → n''.checking ≡ 1
      → Dialed n' n'' k r (r >>= after_dial api cmds conn_execute n' n'' k)
  unfolding after_dial
  after_dial-Dialed n' n'' k (panic p) h' h'' = refl
  after_dial-Dialed n' n'' k spins h' h'' = refl
  after_dial-Dialed n' n'' k (ok (none, none, w)) h' h'' = refl
  after_dial-Dialed n' n'' k (ok (none, some e, w)) h' h'' = refl
  after_dial-Dialed n' n'' k (ok (some c, some e, w)) h' h'' = refl
  after_dial-Dialed n' n'' k (ok (some c, none, w)) h' h'' = elim (Bool-cases (is_checking n')) [
    | inl still ↦ inl (still, rw still (after_check-Ended n'' (conn_execute c k w) h''))
    | inr left ↦ inr (left, rw (left, h') refl)
  ]

  -- A tick of the one health check routine that runs, whatever others do to the node meanwhile. It
  -- ends the routine at once where the node is not checking its health any more. Otherwise it dials
  -- with the manager's settings and panics where that gives no connection. The connection that it
  -- gets it closes on every way on which nothing panics or hangs: after dialing with an error, where
  -- the node was left while dialing, which ends the routine, and after executing the command. If that
  -- ends without an error and in success, then the routine ends, and the node is set running where it
  -- is still checking its health and left as it is otherwise; if not, then the node is left as it is
  -- and the routine goes on.
  pub health_check_tick-Ticked :
      (n n' n'' : Node C) (k : K) (w : W)
      → Checking n
      → Checking n'
      → Checking n''
      → Ticked n n' n'' k w (health_check_tick api cmds conn_execute n n' n'' k w)
  unfolding health_check_tick
  health_check_tick-Ticked n n' n'' k w v v' v'' = elim (Bool-cases (is_checking n)) [
    | inl still ↦ rw still (
        dialed _ still (
          after_dial-Dialed n' n'' k (api.create_connection (connection_options n.cm) w) v'.1
            v''.1))
    | inr left ↦ rw (left, v.1) (moved left)
  ]
