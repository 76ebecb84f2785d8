-- ===== src/ConnectionManager/Shutdown.antt =====
-- connection_manager.go: `stop`, and the connections that come back after it.
use riak_go_client.Prelude.{
  ℕ, ◌+◌, ◌≡◌, refl, true, false, none, List, [], ◌∷◌, ◌++◌, arith, length, Run, ok, ◌>>=◌, ◌==◌,
}
use riak_go_client.Queue.{destroy}
use riak_go_client.Queue.Sweep.{sweep, iterate-sweep}
use riak_go_client.ConnectionManager.{
  ConnectionManager, ConnApi, put, decrement, cm_running, cm_shutting_down, cm_shutdown,
}
use riak_go_client.ConnectionManager.Lifecycle.{stop, stop_visit, signal_stop, stopped}
use riak_go_client.ConnectionManager.Invariant.{Inv}

module _ {C W : Type 0} (api : ConnApi C W) where
  -- Close each connection, the first first, errors ignored.
  abbrev pub close_all : List C → W → W
  close_all [] w = w
  close_all (c ∷ cs) w = let (c', e, w') = api.close c w in close_all cs w'

  stop_sweep :
      (xs : List C) (cm : ConnectionManager C) (w : W) (out : ℕ)
      → cm.connection_counter ≡ length xs + out
      → sweep (stop_visit api) (cm, w) xs
        ≡ ((record cm { connection_counter = out }, close_all xs w), [], [])
  unfolding stop_visit
  stop_sweep [] cm w out e = ground arith
  stop_sweep (x ∷ []) cm w out e = ground arith
  stop_sweep (x ∷ y ∷ ys) cm w out e =
      let k = decrement cm.connection_counter in
      let busy : (k == 0) ≡ false = ground arith in
      let rest =
        stop_sweep (y ∷ ys) (record cm { connection_counter = k }) (api.close x w).2 out
          (ground arith) in
      rw (busy, rest) refl

  pub record Stopped (cm : ConnectionManager C) (out : ℕ) (w : W) : Type 0 where
    pub after : ConnectionManager C
    pub runs : stop api cm w ≡ ok (after, none, close_all cm.q.queue_chan w)
    pub state : after.state_data.state_val ≡ cm_shutdown
    pub emptied : after.q.queue_chan ≡ []
    pub queue_closed : after.q.closed ≡ true
    pub left_open : after.connection_counter ≡ out

  -- Stopping a running manager that satisfies the invariant, and whose `stopChan` is open,
  -- returns no error: it closes the queued connections, oldest first, empties and closes the
  -- queue, and counts what callers still hold.
  pub stop-Stopped :
      (cm : ConnectionManager C) (out : ℕ) (w : W)
      → Inv api cm out
      → cm.state_data.state_val ≡ cm_running
      → cm.stop_chan_closed ≡ false
      → Stopped cm out w
  unfolding stop signal_stop stopped destroy
  stop-Stopped cm out w v running unsignalled =
      let cm' = signalled in
      record {
        after = record cm' {
          q = record q { queue_chan = []; closed = true };
          connection_counter = out;
          state_data = record state_data { state_val = cm_shutdown };
        };
        runs = ground (
          arith,
          iterate-sweep (stop_visit api) (cm', w) q v.open_queue,
          stop_sweep q.queue_chan cm' w out v.counted,
        );
        state = refl;
        emptied = refl;
        queue_closed = refl;
        left_open = refl;
      }
    where
      open cm use {q, state_data}

      signalled : ConnectionManager C
      signalled = record cm {
        stop_chan_closed = true;
        expire_ticker = false;
        state_data = record state_data { state_val = cm_shutting_down };
      }

  -- `put` for each connection, errors ignored.
  abbrev pub put_all : List C → ConnectionManager C → W → Run (ConnectionManager C × W)
  put_all [] cm w = ok (cm, w)
  put_all (c ∷ cs) cm w = put api cm c w >>= λ (cm', e, w'). put_all cs cm' w'

  put-shut :
      (cm : ConnectionManager C) (c : C) (w : W)
      → cm.state_data.state_val ≡ cm_shutdown
      → put api cm c w
        ≡ ok (
          record cm { connection_counter = decrement cm.connection_counter },
          none,
          (api.close c w).2,
        )
  unfolding put
  put-shut cm c w s = ground arith

  put_all-shut :
      (cs : List C) (cm : ConnectionManager C) (w : W) (rest : ℕ)
      → cm.state_data.state_val ≡ cm_shutdown
      → cm.connection_counter ≡ length cs + rest
      → put_all cs cm w ≡ ok (record cm { connection_counter = rest }, close_all cs w)
  put_all-shut [] cm w rest s e = ground arith
  put_all-shut (c ∷ cs) cm w rest s e =
      let k = decrement cm.connection_counter in
      let later =
        put_all-shut cs (record cm { connection_counter = k }) (api.close c w).2 rest s
          (ground arith) in
      rw (put-shut cm c w s, later) refl

  close_all-append :
      (xs ys : List C) (w : W) → close_all (xs ++ ys) w ≡ close_all ys (close_all xs w)
  close_all-append [] ys w = refl
  close_all-append (x ∷ xs) ys w = close_all-append xs ys (api.close x w).2

  abbrev pub stop_then_put : ConnectionManager C → List C → W → Run (ConnectionManager C × W)
  stop_then_put cm cs w = stop api cm w >>= λ (cm', e, w'). put_all cs cm' w'

  -- When a running manager that satisfies the invariant, and whose `stopChan` is open, is
  -- stopped, and the callers then give back what they hold, every connection has been closed
  -- once, the queued ones first, and none is counted.
  pub stop_then_put_closes :
      (cm : ConnectionManager C) (cs : List C) (w : W)
      → Inv api cm (length cs)
      → cm.state_data.state_val ≡ cm_running
      → cm.stop_chan_closed ≡ false
      → (cm' : ConnectionManager C) × (stop_then_put cm cs w
          ≡ ok (cm', close_all (cm.q.queue_chan ++ cs) w))
        × (cm'.connection_counter ≡ 0)
        × (cm'.q.queue_chan ≡ [])
        × (cm'.state_data.state_val ≡ cm_shutdown)
  stop_then_put_closes cm cs w v running unsignalled =
      let s = stop-Stopped cm (length cs) w v running unsignalled in
      let w' = close_all cm.q.queue_chan w in
      let p = put_all-shut cs s.after w' 0 s.state (ground (arith, s.left_open)) in
      (
        record (s.after) { connection_counter = 0 },
        rw (s.runs, p, close_all-append cm.q.queue_chan cs w) refl,
        refl,
        s.emptied,
        s.state,
      )
