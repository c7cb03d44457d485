-- ===== src/WaitableTimer.antt =====
-- include/asrt/timer/basic_waitable_timer.hpp: a timer that a user waits for. `H` is the type of handlers;
-- the clock and the answer of the timer manager are arguments, and the calls made are returned in
-- order. A result `none` stands for an assertion that fails, for the call of an empty handler, and for
-- a function that ends without returning its result.
pub mod Once
pub mod Tests
use asrt.Base.{
  ℕ, ◌+◌, Bool, true, false, Option, none, some, List, [], ◌∷◌, ltb, leb, if◌then◌else◌,
}
use asrt.ErrorCode.{Result, ok, err, async_operation_in_progress}

pub data TimerMode : Type 0 where
  one_shot recurring : TimerMode

pub data Call (H : Type 0) : Type 0 where
  add_timer : ℕ → ℕ → Call H
  job_arrival : Call H
  calls_handler : H → Call H

-- Times are counted from the clock's epoch, which is `TimePointType{}`.
pub record WaitableTimer (H : Type 0) : Type 0 where
  pub async_wait_in_progress : Bool
  pub expiry : ℕ
  pub period : ℕ
  pub timer_handler : Option H

abbrev pub new_timer : (H : Type 0) → ℕ → WaitableTimer H
new_timer H duration = record {
  async_wait_in_progress = false;
  expiry = 0;
  period = duration;
  timer_handler = none;
}

module _ {H : Type 0} where
  unfoldable pub get_next_expiry : ℕ → WaitableTimer H → ℕ
  get_next_expiry now t =
      if ltb 0 t.expiry then t.expiry else if ltb 0 t.period then now + t.period else 0

  unfoldable pub timer_period : TimerMode → WaitableTimer H → ℕ
  timer_period recurring t = t.period
  timer_period one_shot t = 0

  -- `WaitAsync`, with the clock and the answer of `AddTimer`.
  unfoldable pub wait_async :
      TimerMode
      → H
      → ℕ
      → Result (Unit {0})
      → WaitableTimer H
      → Result (Unit {0}) × WaitableTimer H × List (Call H)
  unfolding get_next_expiry timer_period
  wait_async mode handler now answer t =
      if t.async_wait_in_progress
      then (err async_operation_in_progress, t, [])
      else (let waiting : WaitableTimer H = record t {
        async_wait_in_progress = true;
        timer_handler = some handler;
      } in
          (
            answer,
            waiting,
            add_timer (get_next_expiry now waiting) (timer_period mode waiting)
                ∷ elim answer [ ok done ↦ job_arrival ∷ [] | err error ↦ [] ],
          ))

  unfoldable pub expires_after : ℕ → ℕ → WaitableTimer H → Result (Unit {0}) × WaitableTimer H
  expires_after duration now t =
      if t.async_wait_in_progress
      then (err async_operation_in_progress, t)
      else (ok tt, record t { expiry = now + duration })

  -- `ExpiresAt`, which has no return behind the assignment.
  unfoldable pub expires_at : ℕ → ℕ → WaitableTimer H → Option (Result (Unit {0}) × WaitableTimer H)
  expires_at time now t =
      if leb now time
      then (if t.async_wait_in_progress then some (err async_operation_in_progress, t) else none)
      else none

  unfoldable pub on_timer_expiry : WaitableTimer H → Option (List (Call H))
  on_timer_expiry t = elim t.timer_handler [ none ↦ none | some h ↦ some (calls_handler h ∷ []) ]
