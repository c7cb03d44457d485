-- ===== src/Strand.antt =====
-- include/asrt/executor/strand.hpp and include/asrt/impl/strand.ipp, with threads enabled
-- (STRAND_HAS_THREADS): the critical sections of a strand, which its mutex makes atomic. A job is a
-- number; what the code does behind a critical section is returned.
pub mod Schedule
pub mod Drain
pub mod Tests
use asrt.Base.{ℕ, Bool, true, false, not, Option, none, some, List, [], ◌∷◌, ◌++◌, if◌then◌else◌}

-- `StrandInfo`.
pub record Strand : Type 0 where
  pub jobs : List ℕ
  pub is_running : Bool

abbrev pub new_strand : Strand
new_strand = record { jobs = []; is_running = false }

-- `Post`: the strand behind the critical section, and whether `ExecutePendingJobs` is posted to the
-- executor.
unfoldable pub post : ℕ → Strand → Strand × Bool
post job s = (record { jobs = s.jobs ++ job ∷ []; is_running = true }, not s.is_running)

-- What `Dispatch` comes to: `Post`, the direct call in a continuation, an enqueued job, or the call of
-- the job followed by `ExecutePendingJobs`.
pub data Dispatched : Type 0 where
  posted : Strand × Bool → Dispatched
  invoked : Dispatched
  enqueued initiated : Strand → Dispatched

-- `Dispatch`, by whether the thread is inside the executor's Run and by `IsContinuation`, the thread's
-- flag of being inside a strand.
unfoldable pub dispatch : Bool → Bool → ℕ → Strand → Dispatched
unfolding post
dispatch executor_context is_continuation job s =
    if not executor_context
    then posted (post job s)
    else if is_continuation
    then invoked
    else if s.is_running
    then enqueued (record { jobs = s.jobs ++ job ∷ []; is_running = true })
    else initiated (record s { is_running = true })

-- One round of the loop of `ExecutePendingJobs`: the job to run, or `none` where the loop ends.
unfoldable pub next_job : Strand → Option ℕ × Strand
next_job s = elim s.jobs [
  | [] ↦ (none, record s { is_running = false })
  | job ∷ rest ↦ (some job, record s { jobs = rest })
]
