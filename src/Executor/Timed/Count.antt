-- ===== src/Executor/Timed/Count.antt =====
-- The count of jobs while timed jobs are posted, cancelled and run.
use asrt.Base.{
  ℕ, ◌+◌, ◌^◌, ◌≤◌, ◌<◌, ◌≡◌, Bool, true, false, not, ◌||◌, Option, none, some, List, [], ◌∷◌,
  length, if◌then◌else◌,
}
use asrt.ErrorCode.{Result, ok, err}
use asrt.Executor.Schedule.{jobs}
use asrt.Executor.Timed.{
  Timed, PeriodicExecutionMode, post_periodic, post_deferred, cancel_timed_job, one_shot_operation,
  is_periodic_job_valid,
}

-- Posts with the answers of RegisterTimer and AddTimer, a cancellation with that of RemoveTimer, and the
-- end of the closure of MakeOneShotOperation, behind its task, with that of RemoveTimer: the posts and
-- cancellations of the task, and those that other threads make meanwhile, are moves before it.
pub data Move : Type 0 where
  posts_periodic : PeriodicExecutionMode → Bool → ℕ → ℕ → ℕ → Result ℕ → Result (Unit {0}) → Move
  posts_deferred : Option ℕ → ℕ → ℕ → Result ℕ → Result (Unit {0}) → Move
  cancels : ℕ → Result (Unit {0}) → Move
  fires : Option ℕ → ℕ → Result (Unit {0}) → Move

-- `none` where QuickRemoveOne's assertion fails.
unfoldable pub step : Move → Timed → Option Timed
unfolding post_periodic post_deferred cancel_timed_job one_shot_operation
step (posts_periodic mode is_rvalue op period now registered added) t =
    some (post_periodic mode is_rvalue op period now registered added t).1
step (posts_deferred op duration now registered added) t =
    some (post_deferred op duration now registered added t).1
step (cancels id answer) t = elim (cancel_timed_job id answer t) [
  | none ↦ none
  | some (result, t', calls) ↦ some t'
]
step (fires task tag answer) t = elim (one_shot_operation task tag answer t) [
  | none ↦ none
  | some (t', calls) ↦ some t'
]

abbrev pub failures : Result (Unit {0}) → ℕ
failures (ok done) = 0
failures (err error) = 1

-- The jobs that end in a step without being taken off the count: a one-shot job that has run, and a job
-- whose removal the timer queue refuses.
unfoldable pub uncounted : Move → Timed → ℕ
unfolding is_periodic_job_valid
uncounted (posts_periodic mode is_rvalue op period now registered added) t = 0
uncounted (posts_deferred op duration now registered added) t = 0
uncounted (cancels id answer) t = if is_periodic_job_valid id t then failures answer else 0
uncounted (fires task tag answer) t = 1

-- A one-shot job ends whose id is not listed, as when its task or another thread has cancelled it.
unfoldable pub is_cancelled : Move → Timed → Bool
unfolding is_periodic_job_valid
is_cancelled (fires task tag answer) t = not (is_periodic_job_valid tag t)
is_cancelled _ t = false

-- The timed jobs that can still be cancelled, and the operations in the queue, without the reactor's null task.
abbrev pub due : Timed → ℕ
due t = length t.periodic_job_ids + jobs t.executor.operation_queue

-- A course, with the number of jobs that ended uncounted.
unfoldable pub run : List Move → Timed → Option (ℕ × Timed)
unfolding step uncounted
run [] t = some (0, t)
run (m ∷ ms) t = elim (step m t) [
  | none ↦ none
  | some t' ↦ elim (run ms t') [ none ↦ none | some (n, t'') ↦ some (uncounted m t + n, t'') ]
]

-- Whether such a job ends in the course.
unfoldable pub ends_cancelled : List Move → Timed → Bool
unfolding step is_cancelled
ends_cancelled [] t = false
ends_cancelled (m ∷ ms) t =
    is_cancelled m t || elim (step m t) [ none ↦ false | some t' ↦ ends_cancelled ms t' ]

-- What a step makes of the count; it fails for such a job only.
abbrev pub IsCounted : Bool → ℕ → Timed → Option Timed → Type 0
IsCounted cancelled lost t none = cancelled ≡ true
IsCounted cancelled lost t (some t') =
    (cancelled ≡ false)
    × (t'.executor.job_count + due t ≡ t.executor.job_count + due t' + lost)
    × (due t' ≤ t'.executor.job_count)
    × (t'.executor.job_count ≤ t.executor.job_count + 2)

-- The count covers what is due and cannot wrap.
abbrev pub IsCovered : Timed → Type 0
IsCovered t = (due t ≤ t.executor.job_count) × (t.executor.job_count + 2 < 2 ^ 32)

-- What a new timed job makes of the count.
abbrev IsStarted : Timed → Timed → Type 0
IsStarted t t' =
    (t'.executor.job_count + due t ≡ t.executor.job_count + due t')
    × (due t' ≤ t'.executor.job_count)
    × (t'.executor.job_count ≤ t.executor.job_count + 1)

-- What a course makes of the count.
abbrev pub IsAccounted : Bool → Timed → Option (ℕ × Timed) → Type 0
IsAccounted cancelled t none = cancelled ≡ true
IsAccounted cancelled t (some (n, t')) =
    (cancelled ≡ false)
    × (t'.executor.job_count + due t ≡ t.executor.job_count + due t' + n)
    × (due t' ≤ t'.executor.job_count)
