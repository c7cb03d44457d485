-- ===== src/Strand/Tests.antt =====
-- The theorems on strands at concrete schedules.
use asrt.Base.{◌+◌, ◌≤◌, ◌≡◌, ◌≢◌, true, false, List, [], ◌∷◌, ◌++◌, length}
use asrt.Strand.Schedule.{
  from_other_strands, unmarked, foreign, Move, posts, dispatches, begins, takes, new_world, run,
  one_job_in_order,
}
use asrt.Strand.Drain.{drain, strand_drains}

-- Two jobs are posted and one is dispatched while the first runs, and one from another strand's job.
abbrev three_jobs : List Move
three_jobs =
    posts 1 ∷ posts 2 ∷ begins ∷ takes ∷ dispatches true unmarked 3 ∷ dispatches true foreign 4 ∷ []

one_job_in_order_example :
    let w = run new_world three_jobs in
    (w.busy ≤ 1)
    × (w.started ++ w.strand.jobs ≡ w.accepted)
    × (w.strand.jobs ≢ [] → w.scheduled + w.idle + w.busy ≡ 1)
    × (w.beside ≡ from_other_strands three_jobs)
one_job_in_order_example = one_job_in_order three_jobs

strand_drains_example :
    let w = run new_world three_jobs in
    let w' = run w (drain (length w.strand.jobs)) in
    (w'.started ≡ w.accepted)
    × (w'.strand.is_running ≡ false)
    × (w'.scheduled + w'.idle + w'.busy ≡ 0)
strand_drains_example = strand_drains three_jobs
