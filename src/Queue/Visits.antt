-- ===== src/Queue/Visits.antt =====
-- queue.go: an induction rule for `iterate`, by the number of values in the queue.
use riak_go_client.Prelude.{
  ℕ, suc, ◌+◌, ◌≡◌, refl, subst, Bool, true, false, some, none, List, [], ◌∷◌, ◌++◌, arith, length,
  length-append, ok,
}
use riak_go_client.Queue.{Queue, Visitor, iterate}
use riak_go_client.Queue.Sweep.{keep_if, sweep, visited, iterate-sweep, IsOpen, length-sweep}

-- `R false` holds while the pass goes on, `R true` after a break; the number counts the values
-- that are queued: not visited yet, or put back.
module _ {S A : Type 0} (R : Bool → S → ℕ → Type 0) (f : Visitor S A) where
  abbrev pub Visits : Type 0
  Visits =
      (s : S) (x : A) (n : ℕ)
      → R false s (suc n)
      → (let (s', brk, re_queue) = f s (some x) in R brk s' (n + length (keep_if re_queue x)))

  abbrev pub Ends : S → ℕ → Type 0
  Ends s n = (b : Bool) × R b s n

  sweep-visits :
      Visits
      → (s : S) (xs : List A) (k : ℕ) → R false s (length xs + k)
      → (let t = sweep f s xs in Ends t.0 (length t.1 + length t.2 + k))
  sweep-visits step s [] k h = (false, h)
  sweep-visits step s (x ∷ xs) k h =
      go (f s (some x)) (λ s'. sweep-visits step s' xs)
        (step s x (length xs + k) (subst (R false s) (omega arith) h))
    where
      go :
          (a : S × Bool × Bool)
          → ((s : S) (k : ℕ)
              → R false s (length xs + k)
              → (let t = sweep f s xs in Ends t.0 (length t.1 + length t.2 + k)))
          → R a.1 a.0 (length xs + k + length (keep_if a.2 x))
          → (let t = visited x xs (λ s'. sweep f s' xs) a in Ends t.0 (length t.1 + length t.2 + k))
      go (s', true, b) ih r = (true, subst (R true s') (omega arith) r)
      go (s', false, b) ih r =
          let (b', e) = ih s' (k + length (keep_if b x)) (subst (R false s') (omega arith) r) in
          (b', subst (R b' _) (omega (arith, length-append (keep_if b x) (sweep f s' xs).2)) e)

  -- What `iterate` ends with on an open queue.
  pub record Iterated (s : S) (q : Queue A) : Type 0 where
    pub final : S
    pub left : Queue A
    pub runs : iterate f s q ≡ ok (final, left, none)
    pub still_open : IsOpen left
    pub same_size : left.queue_size ≡ q.queue_size
    pub ends : Ends final (length left.queue_chan)

  pub iterate-visits :
      Visits → (s : S) (q : Queue A) → IsOpen q → R false s (length q.queue_chan) → Iterated s q
  iterate-visits step s q v h =
      let t = sweep f s q.queue_chan in
      let (b, e) = sweep-visits step s q.queue_chan 0 (subst (R false s) (omega arith) h) in
      record {
        final = t.0;
        left = record q { queue_chan = t.1 ++ t.2 };
        runs = iterate-sweep f s q v;
        still_open = record {
          open_chan = v.open_chan;
          bounded = omega (arith, v, length-append t.1 t.2, length-sweep f s q.queue_chan);
          word = v.word;
        };
        same_size = refl;
        ends = (b, subst (R b t.0) (omega (arith, length-append t.1 t.2)) e);
      }
