-- ===== src/ConnectionManager/Expiry.antt =====
-- connection_manager.go: a tick of `manageConnections`.
use native.Mathlib.Nat.{zero-add}
use riak_go_client.Prelude.{
  ℕ, zero, suc, ◌+◌, ◌-◌, if◌then◌else◌, ◌∙◌, ap, ◌≤◌, ◌<◌, ◌≡◌, refl, Bool, not, ◌||◌, leb, true,
  false, some, ◌⊎◌, inl, inr, List, [], ◌∷◌, ◌++◌, arith, length, length-append, All, Run, ok,
  panic, spins,
}
use riak_go_client.Queue.Sweep.{sweep, visited, keeping, keep_if, iterate-sweep}
use riak_go_client.ConnectionManager.{ConnectionManager, ConnApi, cm_shutting_down}
use riak_go_client.ConnectionManager.Lifecycle.{expire, expire_visit, expired, has_expired}
use riak_go_client.ConnectionManager.Invariant.{Inv}
use riak_go_client.ConnectionManager.Shutdown.{close_all}

module _ {C W : Type 0} (api : ConnApi C W) where
  -- The description of a tick, which knows nothing of queues: with room to close `b` connections it
  -- goes through them, oldest first. It answers those to close, those that it does not come to, and
  -- those that it looks at and keeps; the one at which there is no room any more is kept.
  abbrev pub outdated : (C → Bool) → ℕ → List C → List C × List C × List C
  outdated old b [] = ([], [], [])
  outdated old zero (c ∷ cs) = ([], cs, c ∷ [])
  outdated old (suc b) (c ∷ cs) =
      let (gone, rest, kept) = outdated old b cs in
      let (gone', rest', kept') = outdated old (suc b) cs in
      if old c then (c ∷ gone, rest, kept) else (gone', rest', c ∷ kept')

  -- The connections are closed, and counted no more.
  abbrev closing :
      ConnectionManager C
      → ℕ
      → ℕ
      → W
      → List C × List C × List C
      → (ConnectionManager C × ℕ × W) × List C × List C
  closing cm n k w (gone, rest, kept) = (
    (record cm { connection_counter = n - length gone }, k + length gone, close_all api gone w),
    rest,
    kept,
  )

  close_one :
      (cm : ConnectionManager C) (n k : ℕ) (c : C) (w : W) (t : List C × List C × List C)
      → closing cm (n - 1) (k + 1) (api.close c w).2 t ≡ closing cm n k w (c ∷ t.0, t.1, t.2)
  close_one cm n k c w (gone, rest, kept) =
      let fewer : (n - 1) - length gone ≡ n - suc (length gone) = omega arith in
      let more : (k + 1) + length gone ≡ k + suc (length gone) = omega arith in
      λ i. (
        (record cm { connection_counter = fewer i }, more i, close_all api gone (api.close c w).2),
        rest,
        kept,
      )

  keep_one :
      (cm : ConnectionManager C) (n k : ℕ) (c : C) (w : W) (t : List C × List C × List C)
      → keeping (c ∷ []) (closing cm n k w t) ≡ closing cm n k w (t.0, t.1, c ∷ t.2)
  keep_one cm n k c w (gone, rest, kept) = refl

  if-closing :
      (b : Bool) (cm : ConnectionManager C) (n k : ℕ) (w : W) (t u : List C × List C × List C)
      (x : (ConnectionManager C × ℕ × W) × List C × List C)
      → (b ≡ true → x ≡ closing cm n k w t)
      → (b ≡ false → x ≡ closing cm n k w u)
      → x ≡ closing cm n k w (if b then t else u)
  if-closing true cm n k w t u x p q = p refl
  if-closing false cm n k w t u x p q = q refl

  sweep-closing :
      (now : ℕ) (xs : List C) (cm : ConnectionManager C) (b n k : ℕ) (w : W)
      → cm.state_data.state_val < cm_shutting_down
      → n - cm.min_connections ≡ b
      → k + length xs < 65536
      → sweep (expire_visit api now) (record cm { connection_counter = n }, k, w) xs
        ≡ closing cm n k w (outdated (has_expired api cm now) b xs)
  unfolding expire_visit
  sweep-closing now [] cm b n k w live room word = ground arith
  sweep-closing now (x ∷ xs) cm zero n k w live room word = ground arith
  sweep-closing now (x ∷ xs) cm (suc b) n k w live room word =
      if-closing (has_expired api cm now x) cm n k w _ _ _
        (λ old.
          visit_old old
          ∙ sweep-closing now xs cm b (n - 1) (k + 1) (api.close x w).2 live (omega arith)
              (omega arith)
          ∙ close_one cm n k x w (outdated (has_expired api cm now) b xs))
        (λ fresh.
          visit_fresh fresh
          ∙ ap (keeping (x ∷ [])) (sweep-closing now xs cm (suc b) n k w live room (omega arith))
          ∙ keep_one cm n k x w (outdated (has_expired api cm now) (suc b) xs))
    where
      visit_old :
          has_expired api cm now x ≡ true
          → sweep (expire_visit api now) (record cm { connection_counter = n }, k, w) (x ∷ xs)
            ≡ sweep
                (expire_visit api now)
                (record cm { connection_counter = n - 1 }, k + 1, (api.close x w).2)
                xs
      visit_old old = ground arith

      visit_fresh :
          has_expired api cm now x ≡ false
          → sweep (expire_visit api now) (record cm { connection_counter = n }, k, w) (x ∷ xs)
            ≡ keeping
                (x ∷ [])
                (sweep (expire_visit api now) (record cm { connection_counter = n }, k, w) xs)
      visit_fresh fresh = ground arith

  length-if :
      (b : Bool) (m n : ℕ) (t u : List C × List C × List C)
      → (length t.0 + (length t.1 + length t.2) ≡ n) × (length t.0 ≤ m)
      → (length u.0 + (length u.1 + length u.2) ≡ n) × (length u.0 ≤ m)
      → (let v = if b then t else u in
          (length v.0 + (length v.1 + length v.2) ≡ n) × (length v.0 ≤ m))
  length-if true m n t u p q = p
  length-if false m n t u p q = q

  length-outdated :
      (old : C → Bool) (b : ℕ) (xs : List C)
      → (let v = outdated old b xs in
          (length v.0 + (length v.1 + length v.2) ≡ length xs) × (length v.0 ≤ b))
  length-outdated old b [] = (refl, omega arith)
  length-outdated old zero (c ∷ cs) = (omega arith, omega arith)
  length-outdated old (suc b) (c ∷ cs) =
      let (l, m) = length-outdated old b cs in
      let (l', m') = length-outdated old (suc b) cs in
      length-if (old c) (suc b) (suc (length cs)) _ _ (omega arith, omega arith)
        (omega arith, omega arith)

  -- A connection that is broken, or was not used for `idleTimeout`.
  abbrev pub stale : ℕ → ConnectionManager C → C → Bool
  stale now cm c = not (api.available c) || leb (api.last_used c + cm.idle_timeout) now

  -- What a tick is to do: to go through the queue with room to close what is above
  -- `minConnections`.
  abbrev pub due : ℕ → ConnectionManager C → List C × List C × List C
  due now cm = outdated (stale now cm) (cm.connection_counter - cm.min_connections) cm.q.queue_chan

  abbrev pub purged : ConnectionManager C → List C × List C × List C → ConnectionManager C
  purged cm (gone, rest, kept) = record cm {
    connection_counter = cm.connection_counter - length gone;
    q = record cm.q { queue_chan = rest ++ kept };
  }

  above :
      (n lowest : ℕ) (gone : List C)
      → length gone ≤ n - lowest
      → (lowest ≤ n - length gone) ⊎ (gone ≡ [])
  above n lowest [] h = inr refl
  above n lowest (c ∷ cs) h = inl (omega arith)

  -- What a tick does.
  pub record Expired (now : ℕ) (cm : ConnectionManager C) (out : ℕ) (w : W) : Type 0 where
    pub runs :
        expire api now cm w
        ≡ ok (purged cm (due now cm), length (due now cm).0, close_all api (due now cm).0 w)
    pub valid : Inv api (purged cm (due now cm)) out
    pub above_min :
        (cm.min_connections ≤ (purged cm (due now cm)).connection_counter) ⊎ ((due now cm).0 ≡ [])

  -- On a manager that satisfies the invariant, a tick does not panic and keeps the invariant. It
  -- goes through the queue, oldest first, and closes each connection that is broken or was not used
  -- for `idleTimeout`, in this order and no other, as long as more than `minConnections` are open;
  -- its `count` is how many these are, and they are counted no more. What it has not come to stays in
  -- front, what it has looked at and kept follows in its order; and it closes none where that would
  -- leave fewer than `minConnections`.
  pub expire-Expired :
      (now : ℕ) (cm : ConnectionManager C) (out : ℕ) (w : W) → Inv api cm out → Expired now cm out w
  unfolding expire expired
  expire-Expired now cm out w v =
      let (l, m) =
        length-outdated (has_expired api cm now) (cm.connection_counter - cm.min_connections)
          cm.q.queue_chan in
      record {
        runs =
            rw
              (
                iterate-sweep (expire_visit api now) (cm, 0, w) cm.q v.open_queue,
                sweep-closing now cm.q.queue_chan cm (cm.connection_counter - cm.min_connections)
                    cm.connection_counter 0 w v.live refl (ground arith),
                zero-add,
              )
              refl;
        valid = ground (arith, length-append (due now cm).1 (due now cm).2);
        above_min = above cm.connection_counter cm.min_connections (due now cm).0 m;
      }

  -- The parts of a manager that a tick reads and does not change.
  record SameSettings (cm' cm : ConnectionManager C) : Type 0 where
    same_min : cm'.min_connections ≡ cm.min_connections
    same_idle : cm'.idle_timeout ≡ cm.idle_timeout
    same_state : cm'.state_data ≡ cm.state_data

  record Answered (now : ℕ) (cm : ConnectionManager C) (x : C)
      (a : (ConnectionManager C × ℕ × W) × Bool × Bool) : Type 0 where
    same : SameSettings a.0.0 cm
    stops_at_min : a.1 ≡ true → a.0.0.connection_counter ≤ cm.min_connections
    keeps_fresh : a.1 ≡ false → a.2 ≡ true → has_expired api cm now x ≡ false

  expire_visit-Answered :
      (now : ℕ) (cm : ConnectionManager C) (s : ConnectionManager C × ℕ × W) (x : C)
      → cm.state_data.state_val < cm_shutting_down
      → SameSettings s.0 cm
      → Answered now cm x (expire_visit api now s (some x))
  unfolding expire_visit
  expire_visit-Answered now cm (cm', k, w) x live h = ground arith

  abbrev pub IsFresh : ℕ → ConnectionManager C → C → Type 0
  IsFresh now cm c = has_expired api cm now c ≡ false

  abbrev Purged : ℕ → ConnectionManager C → (ConnectionManager C × ℕ × W) × List C × List C → Type 0
  Purged now cm (s, rest, kept) =
      (s.0.connection_counter ≤ cm.min_connections) ⊎ ((rest ≡ []) × All (IsFresh now cm) kept)

  sweep-Purged :
      (now : ℕ) (cm : ConnectionManager C) (s : ConnectionManager C × ℕ × W) (xs : List C)
      → cm.state_data.state_val < cm_shutting_down
      → SameSettings s.0 cm
      → Purged now cm (sweep (expire_visit api now) s xs)
  sweep-Purged now cm s [] live h = inr (refl, tt)
  sweep-Purged now cm s (x ∷ xs) live h =
      go (expire_visit api now s (some x)) (λ s'. sweep-Purged now cm s' xs live)
        (expire_visit-Answered now cm s x live h)
    where
      keep :
          (b : Bool) (t : (ConnectionManager C × ℕ × W) × List C × List C)
          → (b ≡ true → IsFresh now cm x)
          → Purged now cm t
          → Purged now cm (keeping (keep_if b x) t)
      keep b (s', rest, kept) fresh (inl m) = inl m
      keep true (s', rest, kept) fresh (inr (e, all)) = inr (e, (fresh refl, all))
      keep false (s', rest, kept) fresh (inr (e, all)) = inr (e, all)

      go :
          (a : (ConnectionManager C × ℕ × W) × Bool × Bool)
          → ((s : ConnectionManager C × ℕ × W)
              → SameSettings s.0 cm
              → Purged now cm (sweep (expire_visit api now) s xs))
          → Answered now cm x a
          → Purged now cm (visited x xs (λ s'. sweep (expire_visit api now) s' xs) a)
      go (s', true, b) ih a = inl (a.stops_at_min refl)
      go (s', false, b) ih a =
          keep b (sweep (expire_visit api now) s' xs) (a.keeps_fresh refl) (ih s' a.same)

  Purged-queue :
      (now : ℕ) (cm : ConnectionManager C) (t : (ConnectionManager C × ℕ × W) × List C × List C)
      → Purged now cm t
      → (t.0.0.connection_counter ≤ cm.min_connections) ⊎ All (IsFresh now cm) (t.1 ++ t.2)
  Purged-queue now cm (s, rest, kept) (inl m) = inl m
  Purged-queue now cm (s, rest, kept) (inr (e, all)) = inr (rw e all)

  abbrev pub IsPurged : ℕ → ConnectionManager C → Run (ConnectionManager C × ℕ × W) → Type 0
  IsPurged now cm (panic p) = ⊥
  IsPurged now cm spins = ⊥
  IsPurged now cm (ok (after, closed, w)) =
      (after.connection_counter ≤ cm.min_connections) ⊎ All (IsFresh now cm) after.q.queue_chan

  -- On a manager that satisfies the invariant, a tick does not panic; after it no more than
  -- `minConnections` connections are open, or every connection in the queue is usable and was
  -- used within `idleTimeout`.
  pub expire-IsPurged :
      (now : ℕ) (cm : ConnectionManager C) (out : ℕ) (w : W)
      → Inv api cm out
      → IsPurged now cm (expire api now cm w)
  unfolding expire
  expire-IsPurged now cm out w v =
      rw (iterate-sweep (expire_visit api now) (cm, 0, w) cm.q v.open_queue) (
        Purged-queue now cm (sweep (expire_visit api now) (cm, 0, w) cm.q.queue_chan) (
          sweep-Purged now cm (cm, 0, w) cm.q.queue_chan v.live
            (record { same_min = refl; same_idle = refl; same_state = refl })))
