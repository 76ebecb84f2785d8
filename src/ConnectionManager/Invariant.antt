-- ===== src/ConnectionManager/Invariant.antt =====
-- connection_manager.go: what holds of a manager that has not begun to shut down, and each
-- operation's effect on it. `out` connections are held by callers: taken by `get` or `create` and
-- not given back by `put` or `remove`.
use riak_go_client.Prelude.{
  ℕ, suc, ◌+◌, ◌≤◌, ◌<◌, ◌≡◌, refl, Bool, true, false, Option, none, some, inl, inr, [], ◌∷◌, ◌++◌,
  arith, length, length-append, Run, ok, panic, spins, leb, lt→ltb, ◌>>=◌, Bool-cases,
}
use riak_go_client.Errors.{Error, client_error, all_connections_in_use}
use riak_go_client.Queue.{Queue}
use riak_go_client.Queue.Sweep.{IsOpen}
use riak_go_client.Queue.Fifo.{enqueue_room}
use riak_go_client.Queue.Visits.{Visits, iterate-visits}
use riak_go_client.ConnectionManager.{
  ConnectionManager, ConnApi, create, created_connection, put, remove, get, get_visit, got,
  connection_options, increment, Dials, cm_shutting_down,
}

module _ {C : Type 0} where
  -- The connections that a result holds.
  abbrev pub held : Option C → ℕ
  held none = 0
  held (some c) = 1

  -- Go's pair of a value and an error: one of them, never both, never neither.
  abbrev pub one_of : Option C → Option Error → Bool
  one_of none none = false
  one_of none (some e) = true
  one_of (some c) none = true
  one_of (some c) (some e) = false

module _ {C W : Type 0} (api : ConnApi C W) where
  pub record Inv (cm : ConnectionManager C) (out : ℕ) : Type 0 where
    pub live : cm.state_data.state_val < cm_shutting_down
    pub can_dial : api.dialable (connection_options cm) ≡ true
    pub open_queue : IsOpen cm.q
    pub sized : cm.q.queue_size ≡ cm.max_connections
    pub counted : cm.connection_counter ≡ length cm.q.queue_chan + out
    pub capped : cm.connection_counter ≤ cm.max_connections

  -- Whether the connection that a result holds, if any, can be used.
  abbrev pub usable : Option C → Bool
  usable none = true
  usable (some c) = api.available c

  -- A connection or an error, never both; what is returned is usable and counted as held.
  pub record Made (cm : ConnectionManager C) (conn : Option C) (e : Option Error) (out : ℕ)
      : Type 0 where
    pub valid : Inv cm (held conn + out)
    pub exclusive : one_of conn e ≡ true
    pub usable_conn : usable conn ≡ true

  -- A computation that ends so.
  pub record Makes (r : Run (ConnectionManager C × Option C × Option Error × W)) (out : ℕ)
      : Type 0 where
    pub after : ConnectionManager C
    pub conn : Option C
    pub error : Option Error
    pub world : W
    pub runs : r ≡ ok (after, conn, error, world)
    pub made : Made after conn error out

  created-Makes :
      (cm : ConnectionManager C) (out : ℕ) (r : Run (Option C × Option Error × W))
      → Inv cm out
      → cm.connection_counter < cm.max_connections
      → Dials api.available r
      → Makes (r >>= λ a. ok (created_connection api cm a)) out
  unfolding created_connection
  created-Makes cm out (ok (conn, some e, w)) v room d = record {
    after = cm;
    conn = none;
    error = some e;
    world = w;
    runs = refl;
    made = ground arith;
  }
  created-Makes cm out (ok (none, none, w)) v room d = absurd d
  created-Makes cm out (ok (some c, none, w)) v room d = record {
    after = record cm { connection_counter = increment cm.connection_counter };
    conn = some c;
    error = none;
    world = w;
    runs = refl;
    made = ground arith;
  }
  created-Makes cm out (panic p) v room d = absurd d
  created-Makes cm out spins v room d = absurd d

  -- `create` returns a new connection and counts it as held, or fails and leaves the count.
  pub create-Makes :
      (cm : ConnectionManager C) (out : ℕ) (w : W) → Inv cm out → Makes (create api cm w) out
  unfolding create
  create-Makes cm out w v = elim (Bool-cases (leb cm.max_connections cm.connection_counter)) [
    | inl full ↦ record {
      after = cm;
      conn = none;
      error = some (client_error all_connections_in_use);
      world = w;
      runs = ground arith;
      made = ground arith;
    }
    | inr room ↦
        let made =
          created-Makes cm out (api.create_connection (connection_options cm) w) v (ground arith)
            (api.dials (connection_options cm) w v.can_dial) in
        rw (lt→ltb _ _ v.live, room) made
  ]

  pub remove-Inv :
      (cm : ConnectionManager C) (out : ℕ) (c : C) (w : W)
      → Inv cm (suc out)
      → Inv (remove api cm c w).0 out
  unfolding remove
  remove-Inv cm out c w v = ground arith

  -- On a manager that satisfies the invariant, of which a connection is held, `put` never finds
  -- the queue full: it takes the connection back without an error, and the invariant holds with
  -- one connection less held.
  pub put-Inv :
      (cm : ConnectionManager C) (out : ℕ) (c : C) (w : W)
      → Inv cm (suc out)
      → (cm' : ConnectionManager C) × (put api cm c w ≡ ok (cm', none, w)) × Inv cm' out
  unfolding put
  put-Inv cm out c w v = (
    record cm { q = record q { queue_chan = q.queue_chan ++ c ∷ [] } },
    ground (arith, enqueue_room q c),
    ground (arith, length-append q.queue_chan (c ∷ [])),
  )
    where
      open cm use {q}

  -- Where the connection then stands: at the back of the queue.
  pub put_appends :
      (cm : ConnectionManager C) (out : ℕ) (c : C) (w : W)
      → Inv cm (suc out)
      → put api cm c w
        ≡ ok (record cm { q = record cm.q { queue_chan = cm.q.queue_chan ++ c ∷ [] } }, none, w)
  unfolding put
  put_appends cm out c w v = ground (arith, enqueue_room cm.q c)

  -- While `get` goes through the queue it holds nothing, until it breaks off with a connection.
  record Getting (cm : ConnectionManager C) (out : ℕ) (brk : Bool)
      (s : ConnectionManager C × Option C × W) (n : ℕ) : Type 0 where
    same_max : s.0.max_connections ≡ cm.max_connections
    same_state : s.0.state_data ≡ cm.state_data
    same_options : connection_options s.0 ≡ connection_options cm
    nothing_yet : brk ≡ false → s.1 ≡ none
    count_of : s.0.connection_counter ≡ n + held s.1 + out
    below_max : s.0.connection_counter ≤ cm.max_connections
    usable_conn : usable s.1 ≡ true

  get_visit-Getting :
      (cm : ConnectionManager C) (out : ℕ)
      → cm.state_data.state_val < cm_shutting_down
      → Visits (Getting cm out) (get_visit api)
  unfolding get_visit
  get_visit-Getting cm out live (cm', conn, w) x n g = ground (arith, g.nothing_yet refl)

  got-Makes :
      (cm : ConnectionManager C) (out : ℕ) (brk : Bool) (s : ConnectionManager C × Option C × W)
      (q' : Queue C)
      → Inv cm out
      → Getting cm out brk s (length q'.queue_chan)
      → IsOpen q'
      → q'.queue_size ≡ cm.q.queue_size
      → Makes (got api (s, q', none)) out
  unfolding got
  got-Makes cm out brk (cm', some c, w) q' v g o z = record {
    after = record cm' { q = q' };
    conn = some c;
    error = none;
    world = w;
    runs = refl;
    made = ground arith;
  }
  got-Makes cm out brk (cm', none, w) q' v g o z =
      create-Makes (record cm' { q = q' }) out w (ground arith)

  -- From a manager that satisfies the invariant, `get` does not panic, and returns a usable
  -- connection, which is then held, or an error and no connection; the invariant goes on
  -- holding.
  pub get-Makes :
      (cm : ConnectionManager C) (out : ℕ) (w : W) → Inv cm out → Makes (get api cm w) out
  unfolding get
  get-Makes cm out w v =
      let it =
        iterate-visits (Getting cm out) (get_visit api) (get_visit-Getting cm out v.live)
          (cm, none, w) cm.q v.open_queue start in
      rw it.runs
        (got-Makes cm out it.ends.0 it.final it.left v it.ends.1 it.still_open it.same_size)
    where
      start : Getting cm out false (cm, none, w) (length cm.q.queue_chan)
      start = ground arith
