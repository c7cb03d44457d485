-- ===== src/Reactor/TimerOperation/Lifetime.antt =====
-- The timer's descriptor and handler behind a registration.
use asrt.Base.{
  ◌≡◌, true, false, none, some, List, [], ◌∷◌, ◌++◌, All, inl, inr, arith, Option-cases,
}
use asrt.ErrorCode.{Result, err, api_error}
use asrt.Reactor.Entry.{NativeHandle}
use asrt.Reactor.TimerOperation.{
  TimerOperation, Call, epoll_add, close, register_timer_handler, deregister_timer_handler,
  enter_timer_handler, leave_timer_handler,
}

pub data Move (H : Type 0) : Type 0 where
  registers : NativeHandle → H → Result (Unit {0}) → Move H
  deregisters enters leaves : Move H

abbrev pub IsRefused : Result (Unit {0}) → Type 0
IsRefused result = result ≡ err api_error

abbrev pub IsClose : NativeHandle → Call → Type 0
IsClose fd (epoll_add other) = ⊥
IsClose fd (close other) = other ≡ fd

module _ {H : Type 0} where
  -- The results of the registrations, the calls made, and the operation; a job whose handler is empty ends
  -- the course.
  unfoldable pub run : List (Move H) → TimerOperation H → List (Result (Unit {0})) × List Call
  unfolding register_timer_handler deregister_timer_handler enter_timer_handler leave_timer_handler
  run [] t = ([], [])
  run (registers fd h answer ∷ ms) t =
      let (result, t', calls) = register_timer_handler fd h answer t in
      let rest = run ms t' in (result ∷ rest.0, calls ++ rest.1)
  run (deregisters ∷ ms) t =
      let (t', calls) = deregister_timer_handler t in
      let rest = run ms t' in (rest.0, calls ++ rest.1)
  run (enters ∷ ms) t = elim (enter_timer_handler t) [ none ↦ ([], []) | some (h, t') ↦ run ms t' ]
  run (leaves ∷ ms) t = run ms (leave_timer_handler t)

  -- A reactor has one timer handler in its life. Behind a registration that succeeds, whatever is deregistered and
  -- run in whatever order, every further registration is refused with api_error, and the only calls
  -- made close the registered descriptor: a deregistration does not make room for a new timer.
  pub timer_registered_once :
      (fd : NativeHandle) (ms : List (Move H)) (t : TimerOperation H)
      → t.has_timer_handler ≡ true
      → t.timer_fd ≡ fd
      → let (results, calls) = run ms t in All IsRefused results × All (IsClose fd) calls
  unfolding run register_timer_handler deregister_timer_handler enter_timer_handler
      leave_timer_handler
  timer_registered_once fd [] t has same = (tt, tt)
  timer_registered_once fd (registers new h answer ∷ ms) t has same =
      ground (arith, timer_registered_once fd ms t has same)
  timer_registered_once fd (deregisters ∷ ms) t has same = ground (
    arith,
    timer_registered_once fd ms (record t { release_handler_memory = true }) has same,
    timer_registered_once fd ms (record t { timer_handler = none }) has same,
  )
  timer_registered_once fd (enters ∷ ms) t has same = elim (Option-cases t.timer_handler) [
    | inl e ↦ ground (arith, e)
    | inr (h, e) ↦
        ground (arith, e, timer_registered_once fd ms (record t { in_progress = true }) has same)
  ]
  timer_registered_once fd (leaves ∷ ms) t has same = ground (
    arith,
    timer_registered_once fd ms (record t { timer_handler = none; in_progress = false }) has same,
    timer_registered_once fd ms (record t { in_progress = false }) has same,
  )
