-- ===== src/ConnectionManager/Lifecycle.antt =====
-- connection_manager.go: starting, stopping, and expiring idle connections.
use riak_go_client.Prelude.{
  ℕ, zero, suc, ◌+◌, ◌%◌, Bool, true, false, not, ◌||◌, Option, none, some, [], ◌∷◌, ltb, leb, ◌==◌,
  if◌then◌else◌, Run, ok, panic, ◌>>=◌, nil_connection, close_of_closed_channel,
}
use riak_go_client.Errors.{Error}
use riak_go_client.States.{set_state, state_check}
use riak_go_client.Queue.{Queue, iterate, destroy, Visitor}
use riak_go_client.ConnectionManager.{
  ConnectionManager, ConnApi, is_live, create, put, decrement, cm_created, cm_running,
  cm_shutting_down, cm_shutdown, cm_error,
}

module _ {C W : Type 0} (api : ConnApi C W) where
  -- A round of `start`; errors are only logged. `put` of a nil connection does not happen: `create`
  -- answers nil without an error only when shutting down, which is not the state of `start`.
  unfoldable pub start_put :
      ConnectionManager C × Option C × Option Error × W → Run (ConnectionManager C × W)
  start_put (cm, conn, some e, w) = ok (cm, w)
  start_put (cm, none, none, w) = panic nil_connection
  start_put (cm, some c, none, w) = put api cm c w >>= λ (cm', e, w'). ok (cm', w')

  unfoldable pub start_loop : ℕ → ConnectionManager C → W → Run (ConnectionManager C × W)
  unfolding start_put
  start_loop zero cm w = ok (cm, w)
  start_loop (suc rounds) cm w =
      (create api cm w >>= start_put) >>= λ (cm', w'). start_loop rounds cm' w'

  unfoldable pub started : ConnectionManager C × W → ConnectionManager C × Option Error × W
  started (cm, w) =
      (record cm { expire_ticker = true; state_data = set_state cm.state_data cm_running }, none, w)

  unfoldable pub start_checked :
      Option Error → ConnectionManager C → W → Run (ConnectionManager C × Option Error × W)
  unfolding start_loop started
  start_checked (some e) cm w = ok (cm, some e, w)
  start_checked none cm w = start_loop cm.min_connections cm w >>= λ r. ok (started r)

  unfoldable pub start : ConnectionManager C → W → Run (ConnectionManager C × Option Error × W)
  unfolding start_checked
  start cm w = start_checked (state_check cm.state_data (cm_created ∷ [])) cm w

  unfoldable pub stop_visit : Visitor (ConnectionManager C × W) C
  stop_visit s none = (s, true, false)
  stop_visit (cm, w) (some c) =
      let (c', e, w') = api.close c w in
      let k = decrement cm.connection_counter in
      ((record cm { connection_counter = k }, w'), k == 0, false)

  -- `close(cm.stopChan)` and the ticker's stop.
  unfoldable pub signal_stop : ConnectionManager C → Run (ConnectionManager C)
  signal_stop cm =
      if cm.stop_chan_closed
      then panic close_of_closed_channel
      else ok (record cm {
        stop_chan_closed = true;
        expire_ticker = false;
        state_data = set_state cm.state_data cm_shutting_down;
      })

  stopped_state : Option Error → ℕ
  stopped_state none = cm_shutdown
  stopped_state (some e) = cm_error

  unfoldable pub stopped :
      (ConnectionManager C × W) × Queue C × Option Error
      → Run (ConnectionManager C × Option Error × W)
  unfolding stopped_state
  stopped ((cm, w), q', e) = destroy q' >>= λ q''.
      ok (record cm { q = q''; state_data = set_state cm.state_data (stopped_state e) }, e, w)

  unfoldable pub stop_checked :
      Option Error → ConnectionManager C → W → Run (ConnectionManager C × Option Error × W)
  unfolding signal_stop stop_visit stopped
  stop_checked (some e) cm w = ok (cm, some e, w)
  stop_checked none cm w = signal_stop cm >>= λ cm'. (iterate stop_visit (cm', w) cm'.q >>= stopped)

  unfoldable pub stop : ConnectionManager C → W → Run (ConnectionManager C × Option Error × W)
  unfolding stop_checked
  stop cm w = stop_checked (state_check cm.state_data (cm_running ∷ [])) cm w

  -- `!conn.available() || now.Sub(conn.lastUsed) >= cm.idleTimeout`.
  abbrev pub has_expired : ConnectionManager C → ℕ → C → Bool
  has_expired cm now c = not (api.available c) || leb (api.last_used c + cm.idle_timeout) now

  -- The closure of `manageConnections` captures the manager and `count`, a `uint16`.
  unfoldable pub expire_visit : ℕ → Visitor (ConnectionManager C × ℕ × W) C
  expire_visit now s none = (s, true, false)
  expire_visit now (cm, count, w) (some c) =
      if not (is_live cm)
      then ((cm, count, w), true, true)
      else if ltb cm.min_connections cm.connection_counter
      then (if has_expired cm now c
          then (let (c', e, w') = api.close c w in
              let k = decrement cm.connection_counter in
              ((record cm { connection_counter = k }, (count + 1) % 65536, w'), false, false))
          else ((cm, count, w), false, true))
      else ((cm, count, w), true, true)

  unfoldable pub expired :
      (ConnectionManager C × ℕ × W) × Queue C × Option Error → ConnectionManager C × ℕ × W
  expired ((cm, count, w), q', e) = (record cm { q = q' }, count, w)

  -- One tick of the ticker. An error of `iterate` is only logged.
  unfoldable pub expire : ℕ → ConnectionManager C → W → Run (ConnectionManager C × ℕ × W)
  unfolding expire_visit expired
  expire now cm w = iterate (expire_visit now) (cm, 0, w) cm.q >>= λ r. ok (expired r)
