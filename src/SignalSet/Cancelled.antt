-- ===== src/SignalSet/Cancelled.antt =====
-- A signal set whose wait was cancelled.
use asrt.Base.{◌≡◌, refl, true, false, Option, none, some, List, [], ◌∷◌, ◌++◌, arith}
use asrt.ErrorCode.{ok, err, async_operation_in_progress, operation_cancelled}
use asrt.Reactor.Events.{Events}
use asrt.SignalSet.{
  SignalSet, Call, enqueues_on_job_arrival, enqueues, removes_monitored_event, Read,
  wait_async_signals, cancel, on_signal_event, do_read_signals_async, read_for_wait, is_busy_read,
  do_read_signals_sync,
}

module _ {H : Type 0} where
  -- Waits with the answers to reads: the calls made, or `none` where one of them fails.
  unfoldable pub wait_all : List (H × Read) → SignalSet H → Option (List (Call H) × SignalSet H)
  unfolding wait_async_signals
  wait_all [] s = some ([], s)
  wait_all ((h, answer) ∷ waits) s = elim (wait_async_signals h answer s) [
    | none ↦ none
    | some (s', effects) ↦ elim (wait_all waits s') [
      | none ↦ none
      | some (more, s'') ↦ some (effects ++ more, s'')
    ]
  ]

  -- Every wait is refused.
  abbrev pub refusals : List (H × Read) → List (Call H)
  refusals [] = []
  refusals ((h, answer) ∷ waits) =
      enqueues_on_job_arrival h (err async_operation_in_progress) ∷ refusals waits

  abbrev cancelled : SignalSet H → SignalSet H
  cancelled s = record s { wait_completion_handler = none }

  wait_all-refused :
      (waits : List (H × Read)) (s : SignalSet H)
      → s.has_reactor ≡ true
      → s.is_native_nonblocking ≡ true
      → s.is_wait_ongoing ≡ true
      → wait_all waits s ≡ some (refusals waits, s)
  unfolding wait_all wait_async_signals
  wait_all-refused [] s reactor nonblocking ongoing = refl
  wait_all-refused ((h, answer) ∷ waits) s reactor nonblocking ongoing =
      ground (arith, wait_all-refused waits s reactor nonblocking ongoing)

  event-fails :
      (events : Events) (answer : Read) (s : SignalSet H)
      → s.is_wait_ongoing ≡ true
      → s.wait_completion_handler ≡ none
      → is_busy_read (do_read_signals_sync answer) ≡ false
      → on_signal_event events answer s ≡ none
  unfolding on_signal_event read_for_wait do_read_signals_async
  event-fails events answer s ongoing handler found = ground arith

  -- Cancel does not end the wait. Where a wait is under way for the handler `h` and the reactor accepts the
  -- removal, `h` is enqueued with operation_cancelled; but every later WaitAsync is refused with
  -- async_operation_in_progress, whatever the descriptor holds, a second Cancel that the reactor
  -- accepts enqueues an empty handler, and an event of the reactor that finds a signal or an error calls one.
  pub cancel_sticks :
      (h : H) (s : SignalSet H) (waits : List (H × Read)) (events : Events) (answer : Read)
      → s.has_reactor ≡ true
      → s.is_native_nonblocking ≡ true
      → s.is_wait_ongoing ≡ true
      → s.wait_completion_handler ≡ some h
      → is_busy_read (do_read_signals_sync answer) ≡ false
      → let s' = record s { wait_completion_handler = none } in
        (cancel (ok tt) s
          ≡ some (
            s',
            removes_monitored_event s.reactor_handle ∷ enqueues h (err operation_cancelled) ∷ [],
          ))
        × (wait_all waits s' ≡ some (refusals waits, s'))
        × (cancel (ok tt) s' ≡ none)
        × (on_signal_event events answer s' ≡ none)
  unfolding cancel
  cancel_sticks h s waits events answer reactor nonblocking ongoing handler found =
      let s' : SignalSet H = record s { wait_completion_handler = none } in
      (
        ground arith,
        wait_all-refused waits s' reactor nonblocking ongoing,
        ground arith,
        event-fails events answer s' ongoing refl found,
      )
