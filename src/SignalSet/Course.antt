-- ===== src/SignalSet/Course.antt =====
-- A signal set under every course of waits and of the reactor's events, while no wait is cancelled.
use asrt.Base.{
  ◌≡◌, ◌≢◌, refl, true, false, none, some, List, [], ◌∷◌, append-nil, All, ◌⊎◌, inl, if◌then◌else◌,
  arith,
}
use asrt.Base.Course.{Stepped, course, IsNotified, IsAnswered, IsAnswered-of, course-IsNotified}
use asrt.ErrorCode.{Result}
use asrt.Reactor.Events.{Events, epollin, of_mask, eq_events}
use asrt.SignalSet.{
  SignalSet, Call, enqueues_on_job_arrival, enqueues, calls, Read, wait_async_signals, add_signals,
  on_signal_event, do_read_signals_async, read_for_wait,
}

-- `waits` has the answer to a read that is tried at once, as `event` has.
pub data Move (H : Type 0) : Type 0 where
  adds : Result (Unit {0}) → Result (Unit {0}) → Move H
  waits : H → Read → Move H
  event : Events → Read → Move H

module _ {H : Type 0} where
  -- The handlers that a step calls or enqueues.
  abbrev pub notified : List (Call H) → List H
  notified [] = []
  notified (enqueues_on_job_arrival h result ∷ effects) = h ∷ notified effects
  notified (enqueues h result ∷ effects) = h ∷ notified effects
  notified (calls h result ∷ effects) = h ∷ notified effects
  notified (_ ∷ effects) = notified effects

  -- A wait while another one is under way is refused: its handler is notified at once, and is not
  -- counted on either side.
  unfoldable pub step : Move H → SignalSet H → Stepped (SignalSet H) H
  unfolding wait_async_signals on_signal_event add_signals
  step (adds added answer) s =
      let (result, effects) = add_signals added answer s in some ([], s, notified effects)
  step (waits h answer) s = elim (wait_async_signals h answer s) [
    | none ↦ none
    | some (s', effects) ↦
        if s.is_wait_ongoing then some ([], s', []) else some (h ∷ [], s', notified effects)
  ]
  step (event events answer) s = elim (on_signal_event events answer s) [
    | none ↦ none
    | some (s', effects) ↦ some ([], s', notified effects)
  ]

  -- The reactor reports reads only, which is all that the set is registered for.
  abbrev pub IsExpected : Move H → Type 0
  IsExpected (event events answer) = eq_events events (of_mask epollin) ≡ true
  IsExpected _ = Unit

  -- The handler of the wait that is under way.
  abbrev pub held : SignalSet H → List H
  held s =
      if s.is_wait_ongoing
      then elim s.wait_completion_handler [ none ↦ [] | some h ↦ h ∷ [] ]
      else []

  -- A set that can wait, in which a wait under way has a handler.
  abbrev pub IsSound : SignalSet H → Type 0
  IsSound s =
      (s.has_reactor ≡ true)
      × (s.is_native_nonblocking ≡ true)
      × ((s.is_wait_ongoing ≡ false) ⊎ (s.wait_completion_handler ≢ none))

  waits-IsNotified :
      (h : H) (answer : Read) (s : SignalSet H)
      → IsSound s
      → IsNotified held IsSound s (step (waits h answer) s)
  unfolding step wait_async_signals do_read_signals_async
  waits-IsNotified h answer s sound = ground (arith, append-nil (held s))

  event-IsNotified :
      (events : Events) (answer : Read) (s : SignalSet H)
      → IsSound s
      → eq_events events (of_mask epollin) ≡ true
      → IsNotified held IsSound s (step (event events answer) s)
  unfolding step on_signal_event do_read_signals_async read_for_wait
  event-IsNotified events answer s sound reads = ground (arith, append-nil (held s))

  adds-IsNotified :
      (added answer : Result (Unit {0})) (s : SignalSet H)
      → IsSound s
      → IsNotified held IsSound s (step (adds added answer) s)
  unfolding step add_signals
  adds-IsNotified added answer s sound = ground (arith, append-nil (held s))

  step-IsNotified :
      (m : Move H) (s : SignalSet H)
      → IsSound s
      → IsExpected m
      → IsNotified held IsSound s (step m s)
  step-IsNotified (adds added answer) s sound expected = adds-IsNotified added answer s sound
  step-IsNotified (waits h answer) s sound expected = waits-IsNotified h answer s sound
  step-IsNotified (event events answer) s sound expected =
      event-IsNotified events answer s sound expected

  -- Where a signal set can wait and no wait is under way, and no wait is cancelled, no call of Add and
  -- WaitAsync and no read event of the reactor fails an assertion or calls an empty handler, and the
  -- handlers of the waits that are not refused are called or enqueued in the order of these waits and
  -- each once, except that the last one may still wait.
  pub waits-IsAnswered :
      (ms : List (Move H)) (s : SignalSet H)
      → s.has_reactor ≡ true
      → s.is_native_nonblocking ≡ true
      → s.is_wait_ongoing ≡ false
      → All IsExpected ms
      → IsAnswered held IsSound (course step ms s)
  waits-IsAnswered ms s reactor nonblocking idle expected =
      IsAnswered-of held IsSound s (course step ms s) (rw idle refl) (
        course-IsNotified step held IsSound IsExpected step-IsNotified ms s
          (reactor, nonblocking, inl idle) expected)
