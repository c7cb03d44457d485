-- ===== src/WaitableTimer/Once.antt =====
-- How often a waitable timer can be waited for.
use asrt.Base.{
  ℕ, ◌≡◌, refl, true, false, Option, none, some, List, [], ◌∷◌, ◌++◌, All, All-append, arith,
}
use asrt.ErrorCode.{Result, err, async_operation_in_progress}
use asrt.WaitableTimer.{
  WaitableTimer, TimerMode, Call, add_timer, job_arrival, calls_handler, wait_async, expires_after,
  expires_at, on_timer_expiry,
}

pub data Move (H : Type 0) : Type 0 where
  waits : H → ℕ → Result (Unit {0}) → Move H
  sets_after sets_at : ℕ → ℕ → Move H
  expires : Move H

abbrev pub IsRefused : Result (Unit {0}) → Type 0
IsRefused result = result ≡ err async_operation_in_progress

module _ {H : Type 0} where
  -- A result of the user's call, if there is one, the timer and the calls made.
  unfoldable pub step :
      TimerMode
      → Move H
      → WaitableTimer H
      → Option (List (Result (Unit {0})) × WaitableTimer H × List (Call H))
  unfolding wait_async expires_after expires_at on_timer_expiry
  step mode (waits h now answer) t =
      let (result, t', calls) = wait_async mode h now answer t in some (result ∷ [], t', calls)
  step mode (sets_after duration now) t =
      let (result, t') = expires_after duration now t in some (result ∷ [], t', [])
  step mode (sets_at time now) t = elim (expires_at time now t) [
    | none ↦ none
    | some (result, t') ↦ some (result ∷ [], t', [])
  ]
  step mode expires t = elim (on_timer_expiry t) [ none ↦ none | some calls ↦ some ([], t, calls) ]

  -- The results and the calls of a course, up to its end or to a step that has no result.
  unfoldable pub course :
      TimerMode → List (Move H) → WaitableTimer H → List (Result (Unit {0})) × List (Call H)
  unfolding step
  course mode [] t = ([], [])
  course mode (move ∷ moves) t = elim (step mode move t) [
    | none ↦ ([], [])
    | some (results, t', calls) ↦
        let rest = course mode moves t' in (results ++ rest.0, calls ++ rest.1)
  ]

  -- The call of a handler, and this one.
  abbrev pub IsHandler : H → Call H → Type 0
  IsHandler h (add_timer expiry period) = ⊥
  IsHandler h job_arrival = ⊥
  IsHandler h (calls_handler g) = g ≡ h

  -- A wait for the handler `h` is in progress.
  abbrev IsWaiting : H → WaitableTimer H → Type 0
  IsWaiting h t = (t.async_wait_in_progress ≡ true) × (t.timer_handler ≡ some h)

  -- What a step makes of such a timer.
  abbrev IsRefusal :
      H → Option (List (Result (Unit {0})) × WaitableTimer H × List (Call H)) → Type 0
  IsRefusal h none = Unit
  IsRefusal h (some (results, t, calls)) =
      All IsRefused results × IsWaiting h t × All (IsHandler h) calls

  step-IsRefusal :
      (mode : TimerMode) (h : H) (move : Move H) (t : WaitableTimer H)
      → IsWaiting h t
      → IsRefusal h (step mode move t)
  unfolding step wait_async expires_after expires_at on_timer_expiry
  step-IsRefusal mode h (waits g now answer) t (waiting, handler) = ground arith
  step-IsRefusal mode h (sets_after duration now) t (waiting, handler) = ground arith
  step-IsRefusal mode h (sets_at time now) t (waiting, handler) = ground arith
  step-IsRefusal mode h expires t (waiting, handler) = ground arith

  course-IsRefused :
      (mode : TimerMode) (h : H) (moves : List (Move H)) (t : WaitableTimer H)
      → IsWaiting h t
      → let (results, calls) = course mode moves t in
        All IsRefused results × All (IsHandler h) calls
  unfolding course
  course-IsRefused mode h [] t waiting = (tt, tt)
  course-IsRefused mode h (move ∷ moves) t waiting =
      next (step mode move t) refl (step-IsRefusal mode h move t waiting)
        (course-IsRefused mode h moves)
    where
      next :
          (o : Option (List (Result (Unit {0})) × WaitableTimer H × List (Call H)))
          → step mode move t ≡ o
          → IsRefusal h o
          → ((t' : WaitableTimer H)
              → IsWaiting h t'
              → let (results, calls) = course mode moves t' in
                All IsRefused results × All (IsHandler h) calls)
          → let (results, calls) = course mode (move ∷ moves) t in
            All IsRefused results × All (IsHandler h) calls
      next none e refusal ih = rw (e, All) (tt, tt)
      next (some (results, t', calls)) e (refused, waits_on, handled) ih =
          let (later, more) = ih t' waits_on in
          rw (e, All)
            (
              All-append IsRefused results (course mode moves t').0 refused later,
              All-append (IsHandler h) calls (course mode moves t').1 handled more,
            )

  -- A timer can be waited for once. Behind the first WaitAsync, also if the timer manager refuses it, every
  -- later WaitAsync, ExpiresAfter and ExpiresAt that returns is refused with async_operation_in_progress,
  -- and the only calls made are those of the first handler on an expiry: no timer is added again.
  pub waits_once :
      (mode : TimerMode) (h : H) (now : ℕ) (answer : Result (Unit {0})) (moves : List (Move H))
      (t : WaitableTimer H)
      → t.async_wait_in_progress ≡ false
      → let (result, t', calls) = wait_async mode h now answer t in
        let (results, more) = course mode moves t' in
        (result ≡ answer) × All IsRefused results × All (IsHandler h) more
  unfolding wait_async
  waits_once mode h now answer moves t idle =
      let waiting : WaitableTimer H = record t {
        async_wait_in_progress = true;
        timer_handler = some h;
      } in
      let (refused, handled) = course-IsRefused mode h moves waiting (refl, refl) in
      rw idle (refl, refused, handled)
