-- ===== src/Queue/Examples.antt =====
-- queue.go: tests and examples.
use riak_go_client.Prelude.{ℕ, ◌+◌, ◌≡◌, refl, true, false, none, some, [], ◌∷◌, arith, ltb, ok}
use riak_go_client.Errors.{client_error, queue_full}
use riak_go_client.Queue.{Queue, Visitor, iterate, enqueue}
use riak_go_client.Queue.Sweep.{IsOpen, sweep, swept_queue, iterate-sweep}

abbrev three : Queue ℕ
three = record { queue_size = 3; queue_chan = 5 ∷ 1 ∷ 7 ∷ []; closed = false }

-- Adds what it sees, puts back what is above 4, and breaks off at 9.
abbrev add_up : Visitor ℕ ℕ
add_up s none = (s, true, false)
add_up s (some x) = (s + x, ltb 8 x, ltb 4 x)

enqueue_test : enqueue three (some 2) ≡ ok (three, some (client_error queue_full))
unfolding enqueue
enqueue_test = refl

iterate_test : iterate add_up 0 three ≡ ok (13, record three { queue_chan = 5 ∷ 7 ∷ [] }, none)
unfolding iterate
iterate_test = refl

three-IsOpen : IsOpen three
three-IsOpen = record { open_chan = refl; bounded = omega arith; word = omega arith }

iterate-sweep_example : iterate add_up 0 three ≡ swept_queue three (sweep add_up 0 (5 ∷ 1 ∷ 7 ∷ []))
iterate-sweep_example = iterate-sweep add_up 0 three three-IsOpen
