-- ===== src/Queue/Fifo.antt =====
-- queue.go: values leave in the order in which they entered, and the capacity is kept.
use mathlib.Core.List.{append_assoc, append-nil}
use riak_go_client.Prelude.{
  ℕ, zero, suc, ◌+◌, ◌≤◌, ◌<◌, ◌≡◌, refl, sym, ap, Option, none, some, List, [], ◌∷◌, ◌++◌, arith,
  length, length-append, Run, ok, ◌>>=◌, false, if◌then◌else◌,
}
use riak_go_client.Errors.{Error, client_error, queue_full, queue_closed}
use riak_go_client.Queue.{Queue, enqueue, dequeue}

module _ {A : Type 0} where
  -- Enqueue each value in turn and collect the errors.
  abbrev pub fill : List A → Queue A → Run (Queue A × List (Option Error))
  fill [] q = ok (q, [])
  fill (x ∷ xs) q = enqueue q (some x) >>= λ (q', e). (fill xs q' >>= λ (q'', es). ok (q'', e ∷ es))

  -- Dequeue so many times and collect what comes out.
  abbrev pub drain : ℕ → Queue A → Queue A × List (Option A × Option Error)
  drain zero q = (q, [])
  drain (suc n) q = let (q', v, e) = dequeue q in let (q'', vs) = drain n q' in (q'', (v, e) ∷ vs)

  abbrev pub nils : List A → List (Option Error)
  nils [] = []
  nils (x ∷ xs) = none ∷ nils xs

  abbrev pub values : List A → List (Option A × Option Error)
  values [] = []
  values (x ∷ xs) = (some x, none) ∷ values xs

  -- `enqueue` has three outcomes, and what the buffer holds decides which.
  pub enqueue_full :
      (q : Queue A) (x : A)
      → length q.queue_chan ≡ q.queue_size
      → enqueue q (some x) ≡ ok (q, some (client_error queue_full))
  unfolding enqueue
  enqueue_full q x h = ground arith

  pub enqueue_room :
      (q : Queue A) (x : A)
      → q.closed ≡ false
      → length q.queue_chan < q.queue_size
      → enqueue q (some x) ≡ ok (record q { queue_chan = q.queue_chan ++ x ∷ [] }, none)
  unfolding enqueue
  enqueue_room q x o h = ground arith

  pub fill-room :
      (xs : List A) (q : Queue A)
      → q.closed ≡ false
      → length q.queue_chan + length xs ≤ q.queue_size
      → fill xs q ≡ ok (record q { queue_chan = q.queue_chan ++ xs }, nils xs)
  fill-room [] q o h = rw (append-nil q.queue_chan) refl
  fill-room (x ∷ xs) q o h = rw (enqueue_room q x o (omega arith)) (
      rw
        (
          fill-room xs (record q { queue_chan = q.queue_chan ++ x ∷ [] }) o
              (omega (arith, length-append q.queue_chan (x ∷ []))),
          append_assoc,
        )
        refl)

  pub dequeue_front :
      (q : Queue A) (x : A) (xs : List A)
      → q.queue_chan ≡ x ∷ xs
      → dequeue q ≡ (record q { queue_chan = xs }, some x, none)
  unfolding dequeue
  dequeue_front q x xs e = ground arith

  -- A closed queue still gives its values, and then an error.
  pub dequeue_drained :
      (q : Queue A)
      → q.queue_chan ≡ []
      → dequeue q ≡ (q, none, if q.closed then some (client_error queue_closed) else none)
  unfolding dequeue
  dequeue_drained q e = ground arith

  pub drain-append :
      (xs ys : List A) (q : Queue A)
      → q.queue_chan ≡ xs ++ ys
      → drain (length xs) q ≡ (record q { queue_chan = ys }, values xs)
  drain-append [] ys q e = ground arith
  drain-append (x ∷ xs) ys q e =
      rw (
        dequeue_front q x (xs ++ ys) e,
        drain-append xs ys (record q { queue_chan = xs ++ ys }) refl,
      )

  abbrev pub fill_then_drain :
      List A → Queue A → Run (List (Option Error) × (Queue A × List (Option A × Option Error)))
  fill_then_drain xs q =
      fill xs q >>= λ (q', es). ok (es, drain (length q.queue_chan + length xs) q')

  -- On an open queue with room for them, values can all be enqueued, and then come out behind those
  -- that were there, in order and each without error.
  pub drain-fill :
      (xs : List A) (q : Queue A)
      → q.closed ≡ false
      → length q.queue_chan + length xs ≤ q.queue_size
      → fill_then_drain xs q
        ≡ ok (nils xs, (record q { queue_chan = [] }, values (q.queue_chan ++ xs)))
  drain-fill xs q o h =
      rw (fill-room xs q o h, ← length-append q.queue_chan xs)
        (ap (λ r. ok (nils xs, r)) (drain-append (q.queue_chan ++ xs) [] _ (sym (append-nil _))))
