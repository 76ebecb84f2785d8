-- ===== src/Async.antt =====
-- async.go: a command that is executed in the background. The channel `Done` and the wait group
-- are whether they are there and how often they were signalled; a backoff is the number of
-- durations that were taken from it.
use riak_go_client.Prelude.{ℕ, suc, ◌+◌, Bool, Option, none, some, if◌then◌else◌}
use riak_go_client.Errors.{Error}

pub record Async (K : Type 0) : Type 0 where
  pub command : K
  pub has_done : Bool
  pub has_wait : Bool
  pub error : Option Error
  pub retry_backoff : Option ℕ
  pub enqueued_at : ℕ
  pub execute_at : ℕ
  pub queue_backoff : Option ℕ
  pub done_signals : ℕ
  pub wait_signals : ℕ
  pub wait_adds : ℕ

abbrev pub taken : Option ℕ → Option ℕ
taken none = none
taken (some n) = some (suc n)

abbrev pub or_old : Option Error → Option Error → Option Error
or_old none old = old
or_old (some e) old = some e

abbrev pub signal : Bool → ℕ → ℕ
signal there n = if there then n + 1 else n

module _ {K : Type 0} where
  -- A new backoff, or one that is reset.
  unfoldable pub on_execute : Async K → Async K
  on_execute a = record a { retry_backoff = some 0 }

  -- The sleep itself is not modelled.
  unfoldable pub on_retry : Async K → Async K
  on_retry a = record a { retry_backoff = taken a.retry_backoff }

  enqueued : (ℕ → ℕ) → ℕ → ℕ → Async K → Async K
  enqueued delay at n a = record a {
    enqueued_at = at;
    queue_backoff = some (suc n);
    execute_at = at + delay n;
  }

  queued_again : (ℕ → ℕ) → ℕ → Option ℕ → Async K → Async K
  unfolding enqueued
  queued_again delay now none a = enqueued delay now 0 a
  queued_again delay now (some n) a = enqueued delay a.enqueued_at n a

  -- `delay n` is the n-th duration of the queue's backoff.
  unfoldable pub on_enqueued : (ℕ → ℕ) → ℕ → Async K → Async K
  unfolding queued_again
  on_enqueued delay now a = queued_again delay now a.queue_backoff a

  unfoldable pub done : Option Error → Async K → Async K
  done err a = record a {
    error = or_old err a.error;
    done_signals = signal a.has_done a.done_signals;
    wait_signals = signal a.has_wait a.wait_signals;
  }
