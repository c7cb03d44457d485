-- ===== src/Executor/Tests.antt =====
-- The theorems on the executor at concrete schedules.
use asrt.Base.{◌+◌, ◌≡◌, ◌≢◌, refl, true, false, List, [], ◌∷◌, arith}
use asrt.Executor.{
  next_round, stopped, after_job, on_job_completion, after_reactor, enqueue_on_job_arrival,
  on_job_arrival, enqueue_private,
}
use asrt.Executor.Schedule.{
  Move, posts, posts_inside, arrives, takes, returns, reactor_returns, outstanding, run, step,
  new_world,
}
use asrt.Executor.Count.{job_count_lem, completion_never_stops}

-- A job is posted, runs, posts another one, and both end; then an operation arrives, and its handler runs.
abbrev three_jobs : List Move
three_jobs =
    takes
    ∷ posts 1
    ∷ takes
    ∷ posts_inside 0 2
    ∷ returns 0
    ∷ takes
    ∷ returns 0
    ∷ arrives
    ∷ reactor_returns (3 ∷ [])
    ∷ takes
    ∷ returns 0
    ∷ []

job_count_lem_example :
    let w = run (new_world true true) three_jobs in
    w.executor.job_count + w.uncounted ≡ outstanding w
unfolding run step next_round after_job on_job_completion after_reactor enqueue_on_job_arrival
    on_job_arrival enqueue_private
job_count_lem_example = job_count_lem true true three_jobs (omega arith) refl

completion_never_stops_example :
    let w = run (new_world true true) three_jobs in
    (w.executor.stop_requested ≡ false) × (next_round w.executor ≢ stopped)
unfolding run step next_round after_job on_job_completion after_reactor enqueue_on_job_arrival
    on_job_arrival enqueue_private
completion_never_stops_example = completion_never_stops true true three_jobs (omega arith) refl

-- A read and a write on one descriptor, for which one arrival is counted, both complete.
abbrev two_directions : List Move
two_directions =
    takes
    ∷ arrives
    ∷ reactor_returns (1 ∷ 2 ∷ [])
    ∷ takes
    ∷ returns 0
    ∷ takes
    ∷ returns 0
    ∷ posts 3
    ∷ []

two_directions_stop : (run (new_world true true) two_directions).executor.stop_requested ≡ true
unfolding run step next_round after_job on_job_completion after_reactor enqueue_on_job_arrival
    on_job_arrival
two_directions_stop = refl
