-- ===== src/Reactor/TimerOperation.antt =====
-- struct TimerOperation of include/asrt/reactor/epoll_reactor.hpp and what the reactor does with it: the
-- one timer descriptor, with its handler. `H` is the type of handlers; the answers of epoll_ctl(2) and of
-- close(2) are arguments.
pub mod Lifetime
use asrt.Base.{Bool, true, false, Option, none, some, List, [], ◌∷◌, if◌then◌else◌}
use asrt.ErrorCode.{Result, ok, err, api_error}
use asrt.Reactor.Entry.{NativeHandle, invalid_native_handle}

pub data Call : Type 0 where
  epoll_add close : NativeHandle → Call

pub record TimerOperation (H : Type 0) : Type 0 where
  pub timer_fd : NativeHandle
  pub timer_handler : Option H
  pub in_progress : Bool
  pub release_handler_memory : Bool
  pub has_timer_handler : Bool

abbrev pub new_timer_operation : (H : Type 0) → TimerOperation H
new_timer_operation H = record {
  timer_fd = invalid_native_handle;
  timer_handler = none;
  in_progress = false;
  release_handler_memory = false;
  has_timer_handler = false;
}

module _ {H : Type 0} where
  -- `RegisterTimerHandlerImpl` with `CheckTimerHandlerNotExist`.
  unfoldable pub register_timer_handler :
      NativeHandle
      → H
      → Result (Unit {0})
      → TimerOperation H
      → Result (Unit {0}) × TimerOperation H × List Call
  register_timer_handler fd h answer t =
      if t.has_timer_handler then (err api_error, t, []) else elim answer [
        | err error ↦ (err error, t, epoll_add fd ∷ [])
        | ok done ↦ (
          ok tt,
          record t { timer_fd = fd; timer_handler = some h; has_timer_handler = true },
          epoll_add fd ∷ [],
        )
      ]

  -- `DeregisterTimerHandlerImpl`.
  unfoldable pub deregister_timer_handler : TimerOperation H → TimerOperation H × List Call
  deregister_timer_handler t =
      if t.in_progress
      then (record t { release_handler_memory = true }, [])
      else (record t { timer_handler = none }, close t.timer_fd ∷ [])

  -- The job of `HandleTimerEvent` up to the call of the handler, during which the mutex can be free; `none`
  -- where it is empty.
  unfoldable pub enter_timer_handler : TimerOperation H → Option (H × TimerOperation H)
  enter_timer_handler t = elim t.timer_handler [
    | none ↦ none
    | some h ↦ some (h, record t { in_progress = true })
  ]

  -- The rest of that job.
  unfoldable pub leave_timer_handler : TimerOperation H → TimerOperation H
  leave_timer_handler t =
      if t.release_handler_memory
      then record t { timer_handler = none; in_progress = false }
      else record t { in_progress = false }
