-- ===== src/Socket/Stream/Run.antt =====
-- The courses that a stream socket can take: its operations, the jobs that it posts, and the reactor's
-- events, with the courses that run while it calls a handler.
use asrt.Base.{ℕ, ◌≡◌, ◌≢◌, Bool, true, Option, none, some, ◌⊎◌}
use asrt.ErrorCode.{ErrorCode, Result}
use asrt.NetBuffer.{BufferView}
use asrt.Reactor.Events.{Events}
use asrt.Socket.Stream.{
  StreamSocket, connecting, Step, do_connect_async, connect_job, do_send_async, do_receive_async,
  on_close_event,
}
use asrt.Socket.Stream.Sync.{send_now, connect_now, assign_accepted_handle}
use asrt.Socket.Stream.Notification.{on_reactor_event}

-- A course of moves of the user and of the executor; `event` has the courses that happen while the
-- handlers of a receive or a connect, and of a send, run.
pub data Course (H : Type 0) : Type 0 where
  stop : Course H
  connects : BufferView → H → Result (Unit {0}) → Course H → Course H
  connect_done : Result (Unit {0}) → Course H → Course H
  sends receives : Bool → Bool → BufferView → H → (BufferView → Result ℕ) → Course H → Course H
  closes : Course H → Course H
  sends_now : Result ℕ → Course H → Course H
  connects_now : Result (Unit {0}) → Result (Unit {0}) → Result (Unit {0}) → Course H → Course H
  accepts : Result (Unit {0}) → Course H → Course H
  event :
      Events
      → Result ℕ
      → ErrorCode
      → (BufferView → Result ℕ)
      → (BufferView → Result ℕ)
      → Course H
      → Course H
      → Course H
      → Course H

module _ {H : Type 0} where
  -- The socket behind a course; `none` where an assertion fails.
  unfoldable pub run : Course H → StreamSocket H → Option (StreamSocket H)
  unfolding do_connect_async connect_job do_send_async do_receive_async on_close_event
      on_reactor_event
  run stop s = some s
  run (connects v h answer rest) s = run rest (do_connect_async v h answer s).0
  run (connect_done result rest) s = run rest (connect_job result s)
  run (sends speculative exhaustive v h kernel rest) s =
      run rest (do_send_async speculative exhaustive v h kernel s).0
  run (receives speculative exhaustive v h kernel rest) s =
      run rest (do_receive_async speculative exhaustive v h kernel s).0
  run (closes rest) s = run rest (on_close_event s)
  run (sends_now answer rest) s = run rest (send_now answer s).1
  run (connects_now opened matches answer rest) s = run rest (connect_now opened matches answer s).1
  run (accepts assigned rest) s = run rest (assign_accepted_handle assigned s).1
  run (event ev option_sockerror latest received sent in_first in_send rest) s =
      elim (on_reactor_event ev option_sockerror latest received sent (run in_first) (run in_send)
        s) [ none ↦ none | some (s', effects) ↦ run rest s' ]

  -- A connect is under way whenever the state says so.
  abbrev pub IsConsistent : StreamSocket H → Type 0
  IsConsistent s =
      (s.stream_sock_state ≢ connecting) ⊎ (s.connect_operation.operation_ongoing ≡ true)

  -- No assertion fails, and the socket stays consistent.
  abbrev pub IsSafe : Option (StreamSocket H) → Type 0
  IsSafe none = ⊥
  IsSafe (some s) = IsConsistent s

  abbrev pub IsSafeStep : Step H → Type 0
  IsSafeStep none = ⊥
  IsSafeStep (some (s, effects)) = IsConsistent s
