-- ===== src/Executor/Timed.antt =====
-- include/asrt/executor/io_executor.hpp and include/asrt/impl/io_executor.ipp: the jobs that the executor
-- runs by timers. The answers of the timer queue and the clock are arguments. An operation is a number,
-- and `none` is one that was moved away.
pub mod Count
pub mod Services
pub mod Tests
use asrt.Base.{
  ℕ, zero, suc, ◌+◌, ◌-◌, Bool, true, false, Option, none, some, List, [], ◌∷◌, ◌++◌, ◌==◌, length,
  set, if◌then◌else◌,
}
use asrt.ErrorCode.{Result, ok, err, timer_not_exist}
use asrt.Util.{find_value, quick_remove_one}
use asrt.Executor.{Executor, Wake, on_job_arrival, on_job_completion, wake_one}

pub data TimedTaskType : Type 0 where
  once recurring : TimedTaskType

pub data PeriodicExecutionMode : Type 0 where
  immediate deferred : PeriodicExecutionMode

pub data Call : Type 0 where
  register_timer : TimedTaskType → Option ℕ → Call
  add_timer : ℕ → ℕ → ℕ → Call
  remove_timer : ℕ → Call
  runs : Option ℕ → Call
  wakes : List Wake → Call

pub record Timed : Type 0 where
  pub executor : Executor
  pub periodic_job_ids : List ℕ

-- `IsPeriodicJobValid`.
unfoldable pub is_periodic_job_valid : ℕ → Timed → Bool
is_periodic_job_valid id t = elim (find_value id t.periodic_job_ids) [
  | none ↦ false
  | some i ↦ true
]

-- `RemoveTimedTaskAsync`, by the answer of `RemoveTimer`.
unfoldable pub remove_timed_task_async :
    ℕ → Result (Unit {0}) → Timed → Option (Result (Unit {0}) × Timed × List Call)
unfolding quick_remove_one
remove_timed_task_async id answer t = elim (quick_remove_one id t.periodic_job_ids) [
  | none ↦ none
  | some ids ↦ some (answer, record t { periodic_job_ids = ids }, remove_timer id ∷ [])
]

-- What `map` adds to a removal that succeeds.
completes : Result (Unit {0}) × Timed × List Call → Result (Unit {0}) × Timed × List Call
unfolding on_job_completion
completes (err error, t, calls) = (err error, t, calls)
completes (ok done, t, calls) =
    let (x, woken) = on_job_completion t.executor in
    (ok done, record t { executor = x }, calls ++ wakes woken ∷ [])

unfoldable pub cancel_timed_job :
    ℕ → Result (Unit {0}) → Timed → Option (Result (Unit {0}) × Timed × List Call)
unfolding is_periodic_job_valid remove_timed_task_async completes
cancel_timed_job id answer t =
    if is_periodic_job_valid id t
    then elim (remove_timed_task_async id answer t) [
      | none ↦ none
      | some done ↦ some (completes done)
    ]
    else some (err timer_not_exist, t, [])

task_period : TimedTaskType → ℕ → ℕ
task_period recurring period = period
task_period once period = 0

-- `StartTimedTaskAsync` with `RegisterTimedTask`, by the answers of `RegisterTimer` and `AddTimer`.
unfoldable pub start_timed_task_async :
    Option ℕ
    → ℕ
    → TimedTaskType
    → ℕ
    → Result ℕ
    → Result (Unit {0})
    → Timed
    → Result ℕ × Timed × List Call
unfolding task_period on_job_arrival
start_timed_task_async task period task_type now registered added t = elim registered [
  | err error ↦ (err error, t, register_timer task_type task ∷ [])
  | ok handle ↦
      let calls =
        register_timer task_type task
        ∷ add_timer handle (now + period) (task_period task_type period)
        ∷ [] in
      elim added [
        | err error ↦ (err error, t, calls)
        | ok done ↦ (
          ok handle,
          record {
            executor = on_job_arrival t.executor;
            periodic_job_ids = t.periodic_job_ids ++ handle ∷ [];
          },
          calls,
        )
      ]
]

unfoldable pub post_deferred :
    Option ℕ → ℕ → ℕ → Result ℕ → Result (Unit {0}) → Timed → Result ℕ × Timed × List Call
unfolding start_timed_task_async
post_deferred op duration now registered added t =
    start_timed_task_async op duration once now registered added t

-- `PostPeriodic`; in the immediate mode the operation is forwarded twice, and the first time moves it
-- away where the caller passed an rvalue.
unfoldable pub post_periodic :
    PeriodicExecutionMode
    → Bool
    → ℕ
    → ℕ
    → ℕ
    → Result ℕ
    → Result (Unit {0})
    → Timed
    → Result ℕ × Timed × List Call
unfolding start_timed_task_async on_job_arrival wake_one
post_periodic deferred is_rvalue op period now registered added t =
    start_timed_task_async (some op) period recurring now registered added t
post_periodic immediate is_rvalue op period now registered added t =
    let x = record t.executor { operation_queue = t.executor.operation_queue ++ some op ∷ [] } in
    let x' = on_job_arrival x in
    let (result, t', calls) =
      start_timed_task_async (if is_rvalue then none else some op) period recurring now registered
        added (record t { executor = x' }) in
    (result, t', wakes (wake_one x') ∷ calls)

-- The closure of `MakeOneShotOperation`, by the answer of `RemoveTimer`.
unfoldable pub one_shot_operation :
    Option ℕ → ℕ → Result (Unit {0}) → Timed → Option (Timed × List Call)
unfolding remove_timed_task_async
one_shot_operation task tag answer t = elim (remove_timed_task_async tag answer t) [
  | none ↦ none
  | some (result, t', calls) ↦ some (t', runs task ∷ calls)
]

-- The closure of `MakePeriodicOperation`.
unfoldable pub periodic_operation : Option ℕ → Timed → Timed × List Call
periodic_operation task t = (t, runs task ∷ [])
