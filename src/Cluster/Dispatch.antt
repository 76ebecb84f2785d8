-- ===== src/Cluster/Dispatch.antt =====
-- cluster.go: what a tick starts, and what `Stop` does with the commands in the queue.
use mathlib.Core.List.{append_assoc, append-nil}
use native.Mathlib.Nat.{mod-eq_of_lt}
use riak_go_client.Prelude.{
  ℕ, suc, ◌≡◌, ◌⊎◌, refl, ap, Bool, true, false, none, some, List, [], ◌∷◌, ◌++◌, arith, ltb,
  if◌then◌else◌, length, ok, Bool-cases, inl, inr,
}
use riak_go_client.Errors.{client_error, cluster_is_shutting_down}
use riak_go_client.States.{is_state_less_than}
use riak_go_client.Queue.{count, destroy}
use riak_go_client.Queue.Sweep.{IsOpen, sweep, iterate-sweep}
use riak_go_client.Async.{Async, done}
use riak_go_client.Cluster.{Cluster, cluster_shutting_down}
use riak_go_client.Cluster.Lifecycle.{
  dispatch, visit_async, refuse, after_pass, queue_event, after_refusals, stop_queue,
}

length_zero : {A : Type 0} (l : List A) → length l ≡ 0 → l ≡ []
length_zero [] h = refl
length_zero (x ∷ l) h = absurd (omega arith)

module _ {K : Type 0} where
  -- The commands whose time has come, and the others, in order.
  abbrev pub due : ℕ → List (Async K) → List (Async K)
  due t [] = []
  due t (a ∷ l) = if ltb a.execute_at t then a ∷ due t l else due t l

  abbrev pub waiting : ℕ → List (Async K) → List (Async K)
  waiting t [] = []
  waiting t (a ∷ l) = if ltb a.execute_at t then waiting t l else a ∷ waiting t l

  -- What the tests of the cluster's state say of a pass whose next one is number `n`: each value of
  -- `front` is visited after a test that says that the cluster is not shutting down, and where
  -- something is left behind them, the first of it is `lost`, and its test says that it is.
  abbrev pub Stops : (ℕ → Bool) → ℕ → List (Async K) → List (Async K) → List (Async K) → Type 0
  Stops less n [] lost rest =
      (lost ++ rest ≡ []) ⊎ ((a : Async K) × (lost ≡ a ∷ []) × (less n ≡ false))
  Stops less n (x ∷ front) lost rest = (less n ≡ true) × Stops less (suc n) front lost rest

  -- A pass at time `t` that visits `front`, drops `lost` and leaves `rest`.
  pub record Passed (less : ℕ → Bool) (t n : ℕ) (spawned xs : List (Async K)) : Type 0 where
    pub front : List (Async K)
    pub lost : List (Async K)
    pub rest : List (Async K)
    pub seen : ℕ
    pub split : xs ≡ front ++ (lost ++ rest)
    pub sweeps :
        sweep (dispatch less t) (n, spawned) xs
        ≡ ((seen, spawned ++ due t front), rest, waiting t front)
    pub stops : Stops less n front lost rest

  dispatch-Passed :
      (less : ℕ → Bool) (t n : ℕ) (spawned xs : List (Async K)) → Passed less t n spawned xs
  unfolding dispatch visit_async
  dispatch-Passed less t n spawned [] = record {
    front = [];
    lost = [];
    rest = [];
    seen = n;
    split = refl;
    sweeps = rw (append-nil spawned) refl;
    stops = inl refl;
  }
  dispatch-Passed less t n spawned (x ∷ xs) = elim (Bool-cases (less n)) [
    | inr down ↦ record {
      front = [];
      lost = x ∷ [];
      rest = xs;
      seen = suc n;
      split = refl;
      sweeps = rw (down, append-nil spawned) refl;
      stops = inr (x, refl, down);
    }
    | inl up ↦ elim (Bool-cases (ltb x.execute_at t)) [
      | inl now ↦
          let p = dispatch-Passed less t (suc n) (spawned ++ x ∷ []) xs in
          record {
            front = x ∷ p.front;
            lost = p.lost;
            rest = p.rest;
            seen = p.seen;
            split = ap (λ l. x ∷ l) p.split;
            sweeps = rw (up, now, p.sweeps, append_assoc) refl;
            stops = (up, p.stops);
          }
      | inr later ↦
          let p = dispatch-Passed less t (suc n) spawned xs in
          record {
            front = x ∷ p.front;
            lost = p.lost;
            rest = p.rest;
            seen = p.seen;
            split = ap (λ l. x ∷ l) p.split;
            sweeps = rw (up, later, p.sweeps) refl;
            stops = (up, p.stops);
          }
    ]
  ]

  pub record Ticked (less : ℕ → Bool) (c : Cluster K) (t : ℕ) : Type 0 where
    pub front : List (Async K)
    pub lost : List (Async K)
    pub rest : List (Async K)
    pub split : c.cq.queue_chan ≡ front ++ (lost ++ rest)
    pub runs :
        queue_event less c (some t)
        ≡ ok (
          record c { cq = record c.cq { queue_chan = rest ++ waiting t front } },
          due t front,
          true,
        )
    pub stops : Stops less 0 front lost rest

  -- A tick on an open queue, while the cluster is not shutting down, goes through the queue in
  -- order, with a test of the cluster's state before each value. While the tests say that the
  -- cluster is not shutting down, it starts the commands whose time has come, in their order, and
  -- puts the others back in theirs, behind the rest. The pass ends at the end of the queue or at the
  -- first test that says that it is; then the value of that test, and no other, is dropped, neither
  -- started nor left in the queue.
  pub queue_event-Ticked :
      (less : ℕ → Bool) (c : Cluster K) (t : ℕ)
      → IsOpen c.cq
      → is_state_less_than c.state_data cluster_shutting_down ≡ true
      → Ticked less c t
  unfolding queue_event after_pass
  queue_event-Ticked less c t v up =
      let p = dispatch-Passed less t 0 [] c.cq.queue_chan in
      record {
        front = p.front;
        lost = p.lost;
        rest = p.rest;
        split = p.split;
        runs = rw (up, iterate-sweep (dispatch less t) (0, []) c.cq v, p.sweeps) refl;
        stops = p.stops;
      }

  -- Every command is ended once, with the error of a shutdown.
  abbrev pub ended_all : List (Async K) → List (Async K)
  ended_all [] = []
  ended_all (a ∷ l) = done (some (client_error cluster_is_shutting_down)) a ∷ ended_all l

  refuse-sweep :
      (ended xs : List (Async K)) → sweep refuse ended xs ≡ (ended ++ ended_all xs, [], [])
  unfolding refuse
  refuse-sweep ended [] = rw (append-nil ended) refl
  refuse-sweep ended (x ∷ xs) =
      rw
        (
          refuse-sweep (ended ++ done (some (client_error cluster_is_shutting_down)) x ∷ []) xs,
          append_assoc,
        )
        refl

  abbrev pub shut : Cluster K → Cluster K
  shut c = record c {
    stop_chan_closed = true;
    ticker_interval = none;
    cq = record c.cq { queue_chan = []; closed = true };
  }

  -- Stopping an open command queue, whose `stopChan` is open, ends each queued command once with
  -- the error of a shutdown, in order, and leaves the queue empty and closed.
  pub stop_queue_ends :
      (c : Cluster K)
      → IsOpen c.cq
      → c.stop_chan_closed ≡ false
      → stop_queue c ≡ ok (shut c, ended_all c.cq.queue_chan)
  unfolding stop_queue after_refusals count destroy
  stop_queue_ends c v open_stop = elim (Bool-cases (ltb 0 (count c.cq))) [
    | inl some_queued ↦
        rw
          (
            open_stop,
            some_queued,
            iterate-sweep refuse [] c.cq v,
            refuse-sweep [] c.cq.queue_chan,
            v.open_chan,
          )
          refl
    | inr none_queued ↦
        let empty : c.cq.queue_chan ≡ [] =
          length_zero c.cq.queue_chan
            (ground (arith, mod-eq_of_lt {n = length c.cq.queue_chan} {m = 65536} (omega arith))) in
        rw (open_stop, none_queued, empty, v.open_chan) refl
  ]
