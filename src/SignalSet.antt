-- ===== src/SignalSet.antt =====
-- include/asrt/signalset/basic_signalset.hpp and include/asrt/impl/basic_signalset.ipp: a set of signals
-- that is read through a signalfd. The answers of the system calls and of the reactor are arguments. `H`
-- is the type of handlers; a result `none` stands for an assertion that fails, and for the call of an
-- empty handler.
pub mod Course
pub mod Cancelled
pub mod Tests
use asrt.Base.{
  ℕ, ltb, Bool, true, false, ◌&&◌, not, Option, none, some, List, [], ◌∷◌, if◌then◌else◌,
}
use asrt.ErrorCode.{
  Result, ok, err, is_busy, async_operation_in_progress, operation_cancelled,
  read_insufficient_data,
}
use asrt.Reactor.Entry.{NativeHandle}
use asrt.Reactor.Events.{Events, epollin, of_mask, eq_events}

pub data Call (H : Type 0) : Type 0 where
  gets_signal_fd : Call H
  sets_signal_fd : Option NativeHandle → Call H
  registers : NativeHandle → Call H
  operation_started : Option ℕ → Call H
  removes_monitored_event : Option ℕ → Call H
  ignored : Option ℕ → Events → Call H
  enqueues_on_job_arrival enqueues calls : H → Result ℕ → Call H

-- What read(2) gives: the number of bytes, and the signal's number in the structure that it fills.
abbrev pub Read : Type 0
Read = Result (ℕ × ℕ)

-- The size of `signalfd_siginfo`.
abbrev siginfo_size : ℕ
siginfo_size = 128

pub record SignalSet (H : Type 0) : Type 0 where
  pub native_handle : Option NativeHandle
  pub reactor_handle : Option ℕ
  pub has_reactor : Bool
  pub is_native_nonblocking : Bool
  pub is_wait_ongoing : Bool
  pub speculative_read : Bool
  pub wait_completion_handler : Option H

abbrev pub new_set : (H : Type 0) → Bool → SignalSet H
new_set H has_reactor = record {
  native_handle = none;
  reactor_handle = none;
  has_reactor = has_reactor;
  is_native_nonblocking = false;
  is_wait_ongoing = false;
  speculative_read = false;
  wait_completion_handler = none;
}

-- `Wait` and `DoReadSignalsSync`.
unfoldable pub do_read_signals_sync : Read → Result ℕ
do_read_signals_sync (err error) = err error
do_read_signals_sync (ok (bytes_read, signo)) =
    if ltb bytes_read siginfo_size then err read_insufficient_data else ok signo

unfoldable pub is_busy_read : Result ℕ → Bool
is_busy_read (ok signo) = false
is_busy_read (err error) = is_busy error

module _ {H : Type 0} where
  -- The constructor from an executor and signals, by the answers of `SigAddSet`, signalfd(2) and the
  -- reactor's `Register`; an error aborts the program.
  unfoldable pub construct :
      Result (Unit {0}) → Result NativeHandle → Result ℕ → Option (SignalSet H × List (Call H))
  construct (err error) descriptor registration = none
  construct (ok done) (err error) registration = none
  construct (ok done) (ok handle) (err error) = none
  construct (ok done) (ok handle) (ok tag) = some (
    record (new_set H true) {
      native_handle = some handle;
      reactor_handle = some tag;
      is_native_nonblocking = true;
    },
    gets_signal_fd ∷ registers handle ∷ [],
  )

  -- `Add`, by the answers of `SigAddSet` and signalfd(2).
  unfoldable pub add_signals :
      Result (Unit {0}) → Result (Unit {0}) → SignalSet H → Result (Unit {0}) × List (Call H)
  add_signals (err error) answer s = (err error, [])
  add_signals (ok done) answer s = (answer, sets_signal_fd s.native_handle ∷ [])

  -- `DoReadSignalsAsync` up to the call of on_immediate_completion, with the result for that.
  unfoldable pub do_read_signals_async :
      Option H → Read → SignalSet H → Option (Result ℕ) × SignalSet H × List (Call H)
  unfolding do_read_signals_sync is_busy_read
  do_read_signals_async callback answer s =
      let tried : SignalSet H = record s { speculative_read = false } in
      let waiting : SignalSet H = record tried {
        is_wait_ongoing = true;
        wait_completion_handler = callback;
      } in
      let result = do_read_signals_sync answer in
      if s.speculative_read && not (is_busy_read result)
      then (some result, tried, [])
      else (none, waiting, operation_started s.reactor_handle ∷ [])

  unfoldable pub wait_async_signals : H → Read → SignalSet H → Option (SignalSet H × List (Call H))
  unfolding do_read_signals_async
  wait_async_signals h answer s =
      if not (s.has_reactor && s.is_native_nonblocking)
      then none
      else if s.is_wait_ongoing
      then some (s, enqueues_on_job_arrival h (err async_operation_in_progress) ∷ [])
      else let (immediate, s', effects) = do_read_signals_async (some h) answer s in
        elim immediate [
          | none ↦ some (s', effects)
          | some result ↦ some (s', enqueues_on_job_arrival h result ∷ [])
        ]

  -- `Cancel`, by the answer of `RemoveMonitoredEvent`; the job that it enqueues holds the handler.
  unfoldable pub cancel : Result (Unit {0}) → SignalSet H → Option (SignalSet H × List (Call H))
  cancel answer s = if not s.is_wait_ongoing then some (s, []) else elim answer [
    | err error ↦ some (s, removes_monitored_event s.reactor_handle ∷ [])
    | ok done ↦ elim s.wait_completion_handler [
      | none ↦ none
      | some h ↦ some (
        record s { wait_completion_handler = none },
        removes_monitored_event s.reactor_handle ∷ enqueues h (err operation_cancelled) ∷ [],
      )
    ]
  ]

  -- `OnReactorEvent` of a wait: the handler stays in place while it is called.
  read_for_wait : Read → SignalSet H → Option (SignalSet H × List (Call H))
  unfolding do_read_signals_async
  read_for_wait answer s =
      let (immediate, s', effects) = do_read_signals_async s.wait_completion_handler answer s in
      elim immediate [
        | none ↦ some (s', effects)
        | some result ↦ elim s.wait_completion_handler [
          | none ↦ none
          | some h ↦ some (record s' { is_wait_ongoing = false }, calls h result ∷ [])
        ]
      ]

  -- `OnReactorEvent`, up to the call of the handler.
  unfoldable pub on_signal_event :
      Events → Read → SignalSet H → Option (SignalSet H × List (Call H))
  unfolding read_for_wait
  on_signal_event events answer s =
      let s' : SignalSet H = record s { speculative_read = true } in
      if not (eq_events events (of_mask epollin))
      then none
      else if s.is_wait_ongoing
      then read_for_wait answer s'
      else some (s', ignored s.reactor_handle events ∷ [])
