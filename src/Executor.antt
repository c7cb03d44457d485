-- ===== src/Executor.antt =====
-- include/asrt/executor/io_executor.hpp and include/asrt/impl/io_executor.ipp, with threads enabled
-- (EXECUTOR_HAS_THREADS): the queue of operations, the count of jobs, and the critical sections of
-- `ProcessNextOperation`. An operation is a number, and `none` in the queue is the null task that
-- stands for the reactor. The count is a `std::uint32_t`.
pub mod Schedule
pub mod Count
pub mod Timed
pub mod Tests
use asrt.Base.{
  ℕ, ◌+◌, ◌-◌, ◌%◌, ◌^◌, Bool, true, false, not, ◌&&◌, Option, none, some, List, [], ◌∷◌, ◌++◌,
  ◌==◌, ltb, if◌then◌else◌, length,
}
use asrt.ErrorCode.{ErrorCode}
use asrt.Reactor.Entry.{Result, ok, err}

-- `notify_one` and `notify_all` of the condition variable, and the reactor's `Wakeup`.
pub data Wake : Type 0 where
  notify_one notify_all wakeup : Wake

pub record Executor : Type 0 where
  pub operation_queue : List (Option ℕ)
  pub job_count : ℕ
  pub stop_requested : Bool
  pub has_reactor : Bool
  pub reactor_needs_interrupt : Bool
  pub single_thread : Bool
  pub cv_wait_count : ℕ

pub record ThreadInfo : Type 0 where
  pub private_op_queue : List ℕ
  pub private_job_count : ℕ

abbrev pub new_thread_info : ThreadInfo
new_thread_info = record { private_op_queue = []; private_job_count = 0 }

-- A private queue as part of the shared one.
abbrev pub operations : List ℕ → List (Option ℕ)
operations [] = []
operations (op ∷ ops) = some op ∷ operations ops

-- Addition to a `std::uint32_t`.
abbrev pub add_count : ℕ → ℕ → ℕ
add_count count n = (count + n) % 2 ^ 32

unfoldable pub wake_one : Executor → List Wake
wake_one x =
    if not (x.cv_wait_count == 0)
    then notify_one ∷ []
    else if x.has_reactor && x.reactor_needs_interrupt
    then wakeup ∷ []
    else []

unfoldable pub wake_all : Executor → List Wake
wake_all x =
    if x.has_reactor && x.reactor_needs_interrupt then notify_all ∷ wakeup ∷ [] else notify_all ∷ []

unfoldable pub stop : Executor → Executor × List Wake
unfolding wake_all
stop x = (record x { stop_requested = true }, wake_all x)

unfoldable pub restart : Executor → Executor
restart x = record x { stop_requested = false }

unfoldable pub on_job_arrival : Executor → Executor
on_job_arrival x = record x { job_count = add_count x.job_count 1 }

-- `fetch_sub` returns the count before the subtraction.
unfoldable pub on_job_completion : Executor → Executor × List Wake
unfolding stop
on_job_completion x =
    let x' = record x { job_count = (x.job_count + 2 ^ 32 - 1) % 2 ^ 32 } in
    if x.job_count == 0 then stop x' else (x', [])

-- `EnqueueOnJobArrival` from a thread outside Run, and from one inside.
unfoldable pub enqueue_on_job_arrival : ℕ → Executor → Executor × List Wake
unfolding on_job_arrival wake_one
enqueue_on_job_arrival op x =
    let x' = on_job_arrival x in
    let x'' = record x' { operation_queue = x'.operation_queue ++ some op ∷ [] } in
    (x'', wake_one x'')

unfoldable pub enqueue_private : ℕ → ThreadInfo → ThreadInfo
enqueue_private op t = record {
  private_op_queue = t.private_op_queue ++ op ∷ [];
  private_job_count = add_count t.private_job_count 1;
}

-- `StartReactorTask`.
unfoldable pub start_reactor_task : Executor → Executor × List Wake
unfolding wake_one
start_reactor_task x =
    if x.stop_requested
    then (x, [])
    else let x' = record x { operation_queue = x.operation_queue ++ none ∷ [] } in (x', wake_one x')

-- What a round of `ProcessNextOperation` does until it lets go of the mutex: it ends, waits for an
-- operation, calls the reactor's Run (which blocks or polls), or calls an operation.
pub data Round : Type 0 where
  stopped waits : Round
  runs_reactor : Bool → Executor → List Wake → Round
  runs_job : ℕ → Executor → List Wake → Round

abbrev is_nil : List (Option ℕ) → Bool
is_nil [] = true
is_nil (op ∷ ops) = false

-- The wake-up of another thread while operations are left.
unfoldable pub share_work : Executor → List Wake
unfolding wake_one
share_work x = if not x.single_thread && not (is_nil x.operation_queue) then wake_one x else []

unfoldable pub round_of : List (Option ℕ) → Executor → Round
unfolding share_work
round_of [] x = waits
round_of (none ∷ rest) x =
    let x' = record x { operation_queue = rest } in
    runs_reactor (is_nil rest) (record x' { reactor_needs_interrupt = is_nil rest }) (share_work x')
round_of (some job ∷ rest) x =
    let x' = record x { operation_queue = rest } in runs_job job x' (share_work x')

unfoldable pub next_round : Executor → Round
unfolding round_of
next_round x = if x.stop_requested then stopped else round_of x.operation_queue x

-- Behind the reactor's Run: its operations stand in the thread's private queue.
unfoldable pub after_reactor :
    Result (Unit {0}) → ThreadInfo → Executor → Result (Unit {0}) × ThreadInfo × Executor
after_reactor (err error) t x = (err error, t, x)
after_reactor (ok _) t x = (
  ok tt,
  new_thread_info,
  record x {
    job_count = add_count x.job_count t.private_job_count;
    operation_queue = x.operation_queue ++ operations t.private_op_queue ++ none ∷ [];
    reactor_needs_interrupt = false;
  },
)

-- The count behind an operation, of which one job is done.
count_job : ThreadInfo → Executor → Executor × List Wake
unfolding on_job_completion
count_job t x =
    if ltb 1 t.private_job_count
    then (record x { job_count = add_count x.job_count (t.private_job_count - 1) }, [])
    else if t.private_job_count == 0
    then on_job_completion x
    else (x, [])

-- Behind the operation.
unfoldable pub after_job : ThreadInfo → Executor → ThreadInfo × Executor × List Wake
unfolding count_job
after_job t x =
    let (x', wakes) = count_job t x in
    (
      new_thread_info,
      record x' { operation_queue = x'.operation_queue ++ operations t.private_op_queue },
      wakes,
    )
