-- ===== src/ConnectionManager/Starting.antt =====
-- connection_manager.go: a new manager, and `start`.
use mathlib.Core.List.{append_assoc, append-nil}
use native.Mathlib.Nat.{add-zero}
use riak_go_client.Prelude.{
  ℕ, zero, suc, ◌+◌, ◌≤◌, ◌<◌, ◌≡◌, refl, sym, true, false, List, leb, lt→ltb, ◌>>=◌, subst, panic,
  spins, Option, none, some, ◌⊎◌, inl, inr, [], ◌∷◌, ◌++◌, arith, length, length-append, Run, ok,
}
use riak_go_client.Errors.{Error, client_error, manager_max_greater_than_min}
use riak_go_client.Config.{ConnectionOptions}
use riak_go_client.Queue.Fifo.{enqueue_room}
use riak_go_client.ConnectionManager.{
  ConnectionManager, ConnApi, ConnectionManagerOptions, build_manager, with_defaults, create, put,
  created_connection, connection_options, Dials, cm_created, cm_running, new_connection_manager,
}
use riak_go_client.ConnectionManager.Lifecycle.{start, started, start_loop, start_put}
use riak_go_client.ConnectionManager.Invariant.{Inv}

module _ {C W : Type 0} (api : ConnApi C W) where
  abbrev pub dial_options : ConnectionManagerOptions → ConnectionOptions
  dial_options o = record {
    remote_address = o.addr;
    connect_timeout = o.connect_timeout;
    request_timeout = o.request_timeout;
    auth_options = o.auth_options;
    temp_net_error_retries = o.temp_net_error_retries;
  }

  -- What `newConnectionManager` answers for options with an address.
  pub record IsNew (o : ConnectionManagerOptions) (r : Run (Error ⊎ ConnectionManager C))
      : Type 0 where
    pub refused :
        (with_defaults o).max_connections < (with_defaults o).min_connections
        → r ≡ ok (inl (client_error manager_max_greater_than_min))
    pub accepted :
        (with_defaults o).min_connections ≤ (with_defaults o).max_connections
        → (cm : ConnectionManager C) × (r ≡ ok (inr cm))
          × Inv api cm 0
          × (cm.state_data.state_val ≡ cm_created)
          × (cm.connection_counter ≡ 0)
          × (0 < cm.min_connections)

  -- For options with an address, a `maxConnections` that is a `uint16`, and settings with which
  -- dialing is known not to panic, `newConnectionManager` refuses the options if the maximum, with
  -- its default, is below the minimum; else it makes a manager that satisfies the invariant, is
  -- created, counts no connection, and wants at least one.
  pub new_connection_manager-IsNew :
      (o : ConnectionManagerOptions) (a : ℕ)
      → o.addr ≡ some a
      → o.max_connections < 65536
      → api.dialable (dial_options (with_defaults o)) ≡ true
      → IsNew o (new_connection_manager (some o))
  unfolding new_connection_manager
  new_connection_manager-IsNew o a h word dial = record {
    refused = λ (lt : (with_defaults o).max_connections < (with_defaults o).min_connections).
        ground arith;
    accepted = λ (le : (with_defaults o).min_connections ≤ (with_defaults o).max_connections). (
      build_manager (with_defaults o) (record {
        queue_size = (with_defaults o).max_connections;
        queue_chan = [];
        closed = false;
      }),
      ground arith,
      ground arith,
      refl,
      refl,
      ground arith,
    );
  }

module _ {C W : Type 0} (api : ConnApi C W) where
  -- The connection that a dial from the world `w` gives, if it succeeds, and the world after it.
  abbrev dial_one : W → Run (Option C × Option Error × W) → List C × W
  dial_one w (ok (some c, none, w')) = (c ∷ [], w')
  dial_one w (ok (some c, some e, w')) = ([], w')
  dial_one w (ok (none, e, w')) = ([], w')
  dial_one w (panic p) = ([], w)
  dial_one w spins = ([], w)

  -- A number of dials with the same settings, one after the other: the connections of those that
  -- succeed, in their order, and the world after them.
  abbrev pub dial_all : ℕ → ConnectionOptions → W → List C × W
  dial_all zero o w = ([], w)
  dial_all (suc n) o w =
      let (cs, w') = dial_one w (api.create_connection o w) in
      let (ds, w'') = dial_all n o w' in (cs ++ ds, w'')

  -- The connections stand at the back of the queue and are counted.
  abbrev joined : ConnectionManager C → List C × W → ConnectionManager C × W
  joined cm (cs, w) = (
    record cm {
      connection_counter = cm.connection_counter + length cs;
      q = record cm.q { queue_chan = cm.q.queue_chan ++ cs };
    },
    w,
  )

  joined_none : (cm : ConnectionManager C) (w : W) → joined cm ([], w) ≡ (cm, w)
  joined_none cm w = rw (append-nil cm.q.queue_chan, add-zero) refl

  joined_none-Inv :
      (cm : ConnectionManager C) (w : W) → Inv api cm 0 → Inv api (joined cm ([], w)).0 0
  joined_none-Inv cm w v = subst (λ p. Inv api p.0 0) (sym (joined_none cm w)) v

  joined-joined :
      (cm : ConnectionManager C) (cs : List C) (w : W) (d : List C × W)
      → joined (joined cm (cs, w)).0 d ≡ joined cm (cs ++ d.0, d.1)
  joined-joined cm cs w (ds, w') =
      let counts : (cm.connection_counter + length cs) + length ds
          ≡ cm.connection_counter + length (cs ++ ds) =
        omega (arith, length-append cs ds) in
      λ i. (
        record cm {
          connection_counter = counts i;
          q = record cm.q { queue_chan = append_assoc cm.q.queue_chan cs ds i };
        },
        w',
      )

  -- One round with room in the pool.
  round_of :
      (cm : ConnectionManager C) (w : W) (r : Run (Option C × Option Error × W))
      → Inv api cm 0
      → length cm.q.queue_chan < cm.max_connections
      → Dials api.available r
      → (((r >>= λ a. ok (created_connection api cm a)) >>= start_put api)
          ≡ ok (joined cm (dial_one w r)))
        × Inv api (joined cm (dial_one w r)).0 0
        × (length (dial_one w r).0 ≤ 1)
  unfolding created_connection start_put put
  round_of cm w (ok (none, some e, w')) v room d =
      (rw (joined_none cm w') refl, joined_none-Inv cm w' v, omega arith)
  round_of cm w (ok (some c, some e, w')) v room d =
      (rw (joined_none cm w') refl, joined_none-Inv cm w' v, omega arith)
  round_of cm w (ok (none, none, w')) v room d = absurd d
  round_of cm w (ok (some c, none, w')) v room d = (
    ground (arith, enqueue_room cm.q c),
    ground (arith, length-append cm.q.queue_chan (c ∷ [])),
    omega arith,
  )
  round_of cm w (panic p) v room d = absurd d
  round_of cm w spins v room d = absurd d

  round_lem :
      (cm : ConnectionManager C) (w : W)
      → Inv api cm 0
      → length cm.q.queue_chan < cm.max_connections
      → (create api cm w >>= start_put api) ≡ (
          (api.create_connection (connection_options cm) w >>= λ a.
          ok (created_connection api cm a))
          >>= start_put api)
  unfolding create
  round_lem cm w v room =
      let not_full : leb cm.max_connections cm.connection_counter ≡ false = ground arith in
      rw (lt→ltb _ _ v.live, not_full) refl

  start_loop_lem :
      (n : ℕ) (cm : ConnectionManager C) (w : W)
      → Inv api cm 0
      → length cm.q.queue_chan + n ≤ cm.max_connections
      → (start_loop api n cm w ≡ ok (joined cm (dial_all n (connection_options cm) w)))
        × Inv api (joined cm (dial_all n (connection_options cm) w)).0 0
  unfolding start_loop
  start_loop_lem zero cm w v room = (rw (joined_none cm w) refl, joined_none-Inv cm w v)
  start_loop_lem (suc n) cm w v room =
      let o = connection_options cm in
      let one = dial_one w (api.create_connection o w) in
      let (runs, v', few) =
        round_of cm w (api.create_connection o w) v (omega arith) (api.dials o w v.can_dial) in
      let (runs', v'') =
        start_loop_lem n (joined cm one).0 one.1 v'
          (ground (arith, length-append cm.q.queue_chan one.0)) in
      let both = joined-joined cm one.0 one.1 (dial_all n o one.1) in
      (
        rw (round_lem cm w v (omega arith), runs, runs', both) refl,
        subst (λ p. Inv api p.0 0) both v'',
      )

  -- The manager once it runs, with the connections that its dials gave.
  abbrev pub running_with : ConnectionManager C → List C → ConnectionManager C
  running_with cm cs = record cm {
    connection_counter = length cs;
    q = record cm.q { queue_chan = cs };
    expire_ticker = true;
    state_data = record cm.state_data { state_val = cm_running };
  }

  abbrev pub dialled : ConnectionManager C → W → List C × W
  dialled cm w = dial_all cm.min_connections (connection_options cm) w

  pub record Started (cm : ConnectionManager C) (w : W) : Type 0 where
    pub runs : start api cm w ≡ ok (running_with cm (dialled cm w).0, none, (dialled cm w).1)
    pub valid : Inv api (running_with cm (dialled cm w).0) 0

  -- Whatever the dials answer, `start` succeeds on a created manager with an empty queue that
  -- satisfies the invariant with no connection held, where `minConnections` is not above the
  -- maximum: it dials `minConnections` times, and the manager runs and still satisfies the invariant,
  -- with the connections of the dials that succeeded, all of them in the queue.
  pub start-Started :
      (cm : ConnectionManager C) (w : W)
      → Inv api cm 0
      → cm.state_data.state_val ≡ cm_created
      → cm.q.queue_chan ≡ []
      → cm.min_connections ≤ cm.max_connections
      → Started cm w
  unfolding start started
  start-Started cm w v created empty fits =
      let (runs, v') = start_loop_lem cm.min_connections cm w v (ground arith) in
      record { runs = ground (arith, runs); valid = ground arith }
