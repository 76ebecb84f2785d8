-- ===== src/Queue.antt =====
-- queue.go: a bounded queue over a buffered channel. The values of the channel are the list,
-- oldest first, and `closed` says that `close` was called. `nil` is `none`. Each method holds the
-- queue's lock while it runs, so a method is one step.
use riak_go_client.Prelude.{
  ℕ, zero, suc, ◌%◌, Bool, true, false, Option, none, some, List, [], ◌∷◌, ◌++◌, ◌==◌, ◌&&◌,
  if◌then◌else◌, length, Run, ok, panic, ◌>>=◌, zero_queue_size, nil_enqueue,
  send_on_closed_channel, close_of_closed_channel,
}
use riak_go_client.Errors.{Error, new_client_error, queue_full, queue_closed}
pub mod Fifo
pub mod Sweep
pub mod Visits
pub mod Examples

pub record Queue (A : Type 0) : Type 0 where
  pub queue_size : ℕ
  pub queue_chan : List A
  pub closed : Bool

module _ {A : Type 0} where
  unfoldable pub new_queue : ℕ → Run (Queue A)
  new_queue size =
      if size == 0
      then panic zero_queue_size
      else ok (record { queue_size = size; queue_chan = []; closed = false })

  -- A send on a closed channel panics.
  send : Queue A → A → Run (Queue A)
  send q v =
      if q.closed
      then panic send_on_closed_channel
      else ok (record q { queue_chan = q.queue_chan ++ v ∷ [] })

  do_enqueue : Queue A → A → Run (Queue A × Option Error)
  unfolding send new_client_error
  do_enqueue q v =
      if length q.queue_chan == q.queue_size
      then ok (q, some (new_client_error queue_full none))
      else (send q v >>= λ q'. ok (q', none))

  unfoldable pub enqueue : Queue A → Option A → Run (Queue A × Option Error)
  unfolding do_enqueue
  enqueue q none = panic nil_enqueue
  enqueue q (some v) = do_enqueue q v

  -- The `select`: a value, the close of the channel, or the default case.
  receive : Queue A → List A → Queue A × Option A × Option Error
  unfolding new_client_error
  receive q [] = (q, none, if q.closed then some (new_client_error queue_closed none) else none)
  receive q (v ∷ vs) = (record q { queue_chan = vs }, some v, none)

  do_dequeue : Queue A → Queue A × Option A × Option Error
  unfolding receive
  do_dequeue q = receive q q.queue_chan

  pub dequeue : Queue A → Queue A × Option A × Option Error
  unfolding do_dequeue
  dequeue q = do_dequeue q

  -- `uint16(len(q.queueChan))`.
  unfoldable pub count : Queue A → ℕ
  count q = length q.queue_chan % 65536

  unfoldable pub is_empty : Queue A → Bool
  is_empty q = length q.queue_chan == 0

  -- Closing a closed channel panics.
  unfoldable pub destroy : Queue A → Run (Queue A)
  destroy q = if q.closed then panic close_of_closed_channel else ok (record q { closed = true })

  -- `if re_queue && v != nil { q._do_enqueue(v) }`.
  re_enqueue : Queue A → Bool → Option A → Run (Queue A × Option Error)
  unfolding do_enqueue
  re_enqueue q true (some v) = do_enqueue q v
  re_enqueue q _ _ = ok (q, none)

-- The callback's state `S` holds what the closure captures. Its answers are break and re-queue.
abbrev pub Visitor : Type 0 → Type 0 → Type 0
Visitor S A = S → Option A → S × Bool × Bool

module _ {S A : Type 0} where
  -- A round's end, after the re-queue: an error, a break, or the next round.
  after_re_enqueue :
      (S → Queue A → Run (S × Queue A × Option Error))
      → S
      → Bool
      → Queue A × Option Error
      → Run (S × Queue A × Option Error)
  after_re_enqueue more s brk (q, some e) = ok (s, q, some e)
  after_re_enqueue more s true (q, none) = ok (s, q, none)
  after_re_enqueue more s false (q, none) = more s q

  answered :
      (S → Queue A → Run (S × Queue A × Option Error))
      → Queue A
      → Option A
      → S × Bool × Bool
      → Run (S × Queue A × Option Error)
  unfolding after_re_enqueue re_enqueue
  answered more q v (s, brk, re_queue) = re_enqueue q re_queue v >>= after_re_enqueue more s brk

  after_dequeue :
      Visitor S A
      → (S → Queue A → Run (S × Queue A × Option Error))
      → S
      → Queue A × Option A × Option Error
      → Run (S × Queue A × Option Error)
  unfolding answered
  after_dequeue f more s (q, v, some e) = ok (s, q, some e)
  after_dequeue f more s (q, v, none) = answered more q v (f s v)

  -- The `for` loop, with the rounds that are left, `count - c`; at none left it has broken off.
  iterate_loop : Visitor S A → ℕ → S → Queue A → Run (S × Queue A × Option Error)
  unfolding after_dequeue do_dequeue
  iterate_loop f zero s q = ok (s, q, none)
  iterate_loop f (suc rounds) s q = after_dequeue f (iterate_loop f rounds) s (do_dequeue q)

  unfoldable pub iterate : Visitor S A → S → Queue A → Run (S × Queue A × Option Error)
  unfolding iterate_loop count
  iterate f s q = iterate_loop f (count q) s q
