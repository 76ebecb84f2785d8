-- ===== src/Queue/Sweep.antt =====
-- queue.go: what `iterate` does, against a pass over the list of queued values.
use mathlib.Core.List.{append_assoc, append-nil}
use native.Mathlib.Nat.{mod-eq_of_lt}
use riak_go_client.Prelude.{
  ℕ, suc, ◌+◌, ◌≤◌, ◌<◌, ◌≡◌, refl, sym, ap, ◌∙◌, Bool, true, false, Option, none, some, List, [],
  ◌∷◌, ◌++◌, arith, length, length-append, Run, ok,
}
use riak_go_client.Errors.{Error}
use riak_go_client.Queue.{
  Queue, Visitor, iterate, iterate_loop, after_dequeue, after_re_enqueue, answered, re_enqueue,
  do_enqueue, do_dequeue,
}

module _ {A : Type 0} where
  -- An open channel that holds no more than its capacity, which is a `uint16`.
  pub record IsOpen (q : Queue A) : Type 0 where
    pub open_chan : q.closed ≡ false
    pub bounded : length q.queue_chan ≤ q.queue_size
    pub word : q.queue_size < 65536

  abbrev pub keep_if : Bool → A → List A
  keep_if true x = x ∷ []
  keep_if false x = []

-- What a pass ends with: the captured state, the values not visited, and those put back.
abbrev pub Swept : Type 0 → Type 0 → Type 0
Swept S A = S × List A × List A

module _ {S A : Type 0} where
  abbrev pub keeping : List A → Swept S A → Swept S A
  keeping front (s, rest, kept) = (s, rest, front ++ kept)

  abbrev pub visited : A → List A → (S → Swept S A) → S × Bool × Bool → Swept S A
  visited x xs more (s, true, re_queue) = (s, xs, keep_if re_queue x)
  visited x xs more (s, false, re_queue) = keeping (keep_if re_queue x) (more s)

  -- The pass: visit the oldest value first, stop at a break, collect what is put back in order.
  abbrev pub sweep : Visitor S A → S → List A → Swept S A
  sweep f s [] = (s, [], [])
  sweep f s (x ∷ xs) = visited x xs (λ s'. sweep f s' xs) (f s (some x))

  abbrev pub swept_queue : Queue A → Swept S A → Run (S × Queue A × Option Error)
  swept_queue q (s, rest, kept) = ok (s, record q { queue_chan = rest ++ kept }, none)

module _ {A : Type 0} (size : ℕ) where
  abbrev chan : List A → Queue A
  chan xs = record { queue_size = size; queue_chan = xs; closed = false }

  do_enqueue-chan :
      (x : A) (xs : List A)
      → length xs < size
      → do_enqueue (chan xs) x ≡ ok (chan (xs ++ x ∷ []), none)
  unfolding do_enqueue
  do_enqueue-chan x xs h = ground arith

  -- What is put back goes to the end, and a put-back always finds room.
  re_enqueue-chan :
      (b : Bool) (x : A) (xs : List A)
      → length xs < size
      → re_enqueue (chan xs) b (some x) ≡ ok (chan (xs ++ keep_if b x), none)
  unfolding re_enqueue
  re_enqueue-chan true x xs h = do_enqueue-chan x xs h
  re_enqueue-chan false x xs h = simp append-nil

  length-kept :
      (b : Bool) (x : A) (xs ys : List A)
      → suc (length xs) + length ys ≤ size
      → length xs + length (ys ++ keep_if b x) ≤ size
  length-kept true x xs ys h = omega (arith, length-append ys (x ∷ []))
  length-kept false x xs ys h = omega (arith, length-append ys [])

module _ {S A : Type 0} (size : ℕ) where
  abbrev swept_from : List A → Swept S A → Run (S × Queue A × Option Error)
  swept_from ys (s, rest, kept) = ok (s, chan size (rest ++ (ys ++ kept)), none)

  answered-sweep :
      (f : Visitor S A) (x : A) (xs ys : List A) (a : S × Bool × Bool)
      → ((s : S) (zs : List A)
          → length xs + length zs ≤ size
          → iterate_loop f (length xs) s (chan size (xs ++ zs)) ≡ swept_from zs (sweep f s xs))
      → suc (length xs) + length ys ≤ size
      → answered (iterate_loop f (length xs)) (chan size (xs ++ ys)) (some x) a
        ≡ swept_from ys (visited x xs (λ s'. sweep f s' xs) a)
  unfolding answered after_re_enqueue
  answered-sweep f x xs ys (s, true, b) ih h =
      rw (re_enqueue-chan size b x (xs ++ ys) (omega (arith, length-append xs ys)), append_assoc)
        refl
  answered-sweep f x xs ys (s, false, b) ih h =
      rw (re_enqueue-chan size b x (xs ++ ys) (omega (arith, length-append xs ys)), append_assoc)
        (ih s (ys ++ keep_if b x) (length-kept size b x xs ys h) ∙ simp append_assoc)

  loop-sweep :
      (f : Visitor S A) (s : S) (xs ys : List A)
      → length xs + length ys ≤ size
      → iterate_loop f (length xs) s (chan size (xs ++ ys)) ≡ swept_from ys (sweep f s xs)
  unfolding iterate_loop after_dequeue do_dequeue
  loop-sweep f s [] ys h = simp append-nil
  loop-sweep f s (x ∷ xs) ys h =
      answered-sweep f x xs ys (f s (some x)) (λ s' zs. loop-sweep f s' xs zs) h

module _ {S A : Type 0} where
  -- On an open queue, whose size is a `uint16`, `iterate` returns no error and does not panic:
  -- it is the pass over the queued values, whose callback never sees nil; the values not visited
  -- stay in front, and those put back follow in their order.
  pub iterate-sweep :
      (f : Visitor S A) (s : S) (q : Queue A)
      → IsOpen q
      → iterate f s q ≡ swept_queue q (sweep f s q.queue_chan)
  unfolding iterate
  iterate-sweep f s q v = rw (mod-eq_of_lt {n = length q.queue_chan} {m = 65536} (omega arith)) (
      ap (iterate_loop f (length q.queue_chan) s)
        (opened ∙ ap (chan q.queue_size) (sym (append-nil q.queue_chan)))
      ∙ loop-sweep q.queue_size f s q.queue_chan [] (omega arith)
      ∙ closing)
    where
      opened : q ≡ chan q.queue_size q.queue_chan
      opened = λ i. record q { closed = v.open_chan i }

      closing :
          swept_from q.queue_size [] (sweep f s q.queue_chan)
          ≡ swept_queue q (sweep f s q.queue_chan)
      closing =
          let (s', rest, kept) = sweep f s q.queue_chan in
          sym (λ i. ok (s', record q { queue_chan = rest ++ kept; closed = v.open_chan i }, none))

  pub length-sweep :
      (f : Visitor S A) (s : S) (xs : List A)
      → length (sweep f s xs).1 + length (sweep f s xs).2 ≤ length xs
  length-sweep f s [] = omega arith
  length-sweep f s (x ∷ xs) = length-visited x xs (f s (some x)) (λ s'. length-sweep f s' xs)
    where
      length-visited :
          (x : A) (xs : List A) (a : S × Bool × Bool)
          → ((s : S) → length (sweep f s xs).1 + length (sweep f s xs).2 ≤ length xs)
          → (let t = visited x xs (λ s'. sweep f s' xs) a in
              length t.1 + length t.2 ≤ suc (length xs))
      length-visited x xs (s, true, true) ih = omega arith
      length-visited x xs (s, true, false) ih = omega arith
      length-visited x xs (s, false, true) ih = omega (arith, ih s)
      length-visited x xs (s, false, false) ih = omega (arith, ih s)
