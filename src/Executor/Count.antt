-- ===== src/Executor/Count.antt =====
-- The count of jobs under every interleaving of threads that post operations, run them and run the
-- reactor, and what becomes of the promise to stop when the work is done.
use asrt.Base.{
  ℕ, zero, suc, ◌+◌, ◌^◌, ◌≤◌, ◌<◌, ◌≡◌, ◌≢◌, refl, Bool, true, false, Option, none, some, List, [],
  ◌∷◌, ◌++◌, arith, ◌==◌, ◌⊎◌, length, get_elem?, set, All, inl, inr, subst, Bool-cases,
  Option-cases, ap, sym, ◌∙◌,
}
use asrt.Executor.{
  Executor, ThreadInfo, operations, stopped, enqueue_on_job_arrival, on_job_arrival,
  enqueue_private, next_round, round_of, after_reactor, after_job, on_job_completion,
}
use asrt.Executor.Schedule.{
  jobs, remove_at, World, Move, posts, posts_inside, arrives, takes, returns, reactor_returns,
  with_round, step, run, IsCounted, private_jobs, outstanding, charge, IsSound, IsStopped,
  new_world,
}

pub jobs-append : (xs ys : List (Option ℕ)) → jobs (xs ++ ys) ≡ jobs xs + jobs ys
jobs-append [] ys = omega arith
jobs-append (none ∷ xs) ys = jobs-append xs ys
jobs-append (some op ∷ xs) ys = ground (arith, jobs-append xs ys)

jobs-operations : (ops : List ℕ) → jobs (operations ops) ≡ length ops
jobs-operations [] = refl
jobs-operations (op ∷ ops) = ground (arith, jobs-operations ops)

length-snoc : (xs : List ℕ) (x : ℕ) → length (xs ++ x ∷ []) ≡ length xs + 1
length-snoc [] x = refl
length-snoc (y ∷ xs) x = ground (arith, length-snoc xs x)

not_none : {t : ThreadInfo} → ¬ (none ≡ some t)
not_none h = cc

remove_at-facts :
    (ts : List ThreadInfo) (i : ℕ) (t : ThreadInfo)
    → get_elem? ts i ≡ some t
    → All IsCounted ts
    → (length (remove_at ts i) + 1 ≡ length ts)
      × (private_jobs (remove_at ts i) + length t.private_op_queue ≡ private_jobs ts)
      × All IsCounted (remove_at ts i)
      × IsCounted t
remove_at-facts [] i t h v = absurd (not_none h)
remove_at-facts (x ∷ ts) zero t h v = ground arith
remove_at-facts (x ∷ ts) (suc i) t h v = ground (arith, remove_at-facts ts i t h v.1)

-- The threads after thread `i` has put an operation into its private queue.
posted-facts :
    (ts : List ThreadInfo) (i op : ℕ) (t : ThreadInfo)
    → get_elem? ts i ≡ some t
    → All IsCounted ts
    → private_jobs ts + 1 < 2 ^ 32
    → let ts' = set ts i (enqueue_private op t) in
      (length ts' ≡ length ts) × (private_jobs ts' ≡ private_jobs ts + 1) × All IsCounted ts'
unfolding enqueue_private
posted-facts [] i op t h v l = absurd (not_none h)
posted-facts (x ∷ ts) zero op t h v l = ground (arith, length-snoc t.private_op_queue op)
posted-facts (x ∷ ts) (suc i) op t h v l = ground (arith, posted-facts ts i op t h v.1)

-- The executor behind an operation that has posted some jobs of its own.
after_job-facts :
    (t : ThreadInfo) (x : Executor)
    → IsCounted t
    → 1 ≤ x.job_count + length t.private_op_queue
    → x.job_count + length t.private_op_queue < 2 ^ 32
    → let x' = (after_job t x).1 in
      (x'.job_count + 1 ≡ x.job_count + length t.private_op_queue)
      × (jobs x'.operation_queue ≡ jobs x.operation_queue + length t.private_op_queue)
      × (x'.stop_requested ≡ x.stop_requested)
unfolding after_job on_job_completion
after_job-facts t x v one l = ground (
  arith,
  jobs-append x.operation_queue (operations t.private_op_queue),
  jobs-operations t.private_op_queue,
)

-- The completion of an operation that has posted none, when the count is 0.
after_job-stops :
    (t : ThreadInfo) (x : Executor)
    → IsCounted t
    → x.job_count + length t.private_op_queue ≡ 0
    → (after_job t x).1.stop_requested ≡ true
unfolding after_job on_job_completion
after_job-stops t x v nothing = ground arith

-- A step keeps the count right and raises it by at most one, or requests a stop.
IsKept : World → World → Type 0
IsKept w w' = (IsSound w' × (charge w' ≤ charge w + 1)) ⊎ IsStopped w'

posts-IsKept :
    (w : World) (op : ℕ) → IsSound w → charge w + 1 < 2 ^ 32 → IsKept w (step w (posts op))
unfolding step IsKept enqueue_on_job_arrival on_job_arrival
posts-IsKept w op v l = inl (
  record {
    counted = v.counted;
    count = omega (arith, v.count, jobs-append w.executor.operation_queue (some op ∷ []));
    going = v.going;
  },
  omega arith,
)

inside-IsKept :
    (w : World) (i op : ℕ)
    → IsSound w
    → charge w + 1 < 2 ^ 32
    → IsKept w (step w (posts_inside i op))
unfolding step IsKept
inside-IsKept w i op v l = elim (Option-cases (get_elem? w.busy i)) [
  | inl absent ↦ rw (absent, step) (inl (v, omega arith))
  | inr (t, there) ↦
      let (same, more, counted) = posted-facts w.busy i op t there v.counted (omega arith) in
      rw (there, step)
        (inl (
          record { counted = counted; count = omega (arith, v.count, same); going = v.going },
          omega (arith, more),
        ))
]

arrives-IsKept : (w : World) → IsSound w → charge w + 1 < 2 ^ 32 → IsKept w (step w arrives)
unfolding step IsKept on_job_arrival
arrives-IsKept w v l =
    inl
      (record { counted = v.counted; count = omega (arith, v.count); going = v.going }, omega arith)

round_of-IsKept :
    (ops : List (Option ℕ)) (w : World)
    → w.executor.operation_queue ≡ ops
    → IsSound w
    → IsKept w (with_round w (round_of ops w.executor))
unfolding IsKept with_round round_of
round_of-IsKept [] w h v = inl (v, omega arith)
round_of-IsKept (none ∷ rest) w h v = inl (
  record { counted = v.counted; count = omega (arith, v.count, ap jobs h); going = v.going },
  omega arith,
)
round_of-IsKept (some job ∷ rest) w h v = inl (
  record {
    counted = (refl, v.counted);
    count = omega (arith, v.count, ap jobs h);
    going = v.going;
  },
  omega arith,
)

takes-IsKept : (w : World) → IsSound w → IsKept w (step w takes)
unfolding step next_round
takes-IsKept w v =
    let round : next_round w.executor ≡ round_of w.executor.operation_queue w.executor =
      rw v.going refl in
    subst (λ r. IsKept w (with_round w r)) (sym round)
      (round_of-IsKept w.executor.operation_queue w refl v)

returns-IsKept :
    (w : World) (i : ℕ) → IsSound w → charge w + 1 < 2 ^ 32 → IsKept w (step w (returns i))
unfolding step IsKept
returns-IsKept w i v l = elim (Option-cases (get_elem? w.busy i)) [
  | inl absent ↦ rw (absent, step) (inl (v, omega arith))
  | inr (t, there) ↦
      let (fewer, less, counted, own) = remove_at-facts w.busy i t there v.counted in
      elim (Bool-cases (w.executor.job_count + length t.private_op_queue == 0)) [
        | inl nothing ↦
            rw (there, step)
              (inr (
                after_job-stops t w.executor own (ground arith),
                ground (arith, v.count, fewer, nothing),
              ))
        | inr something ↦
            let (count, queue, going) =
              after_job-facts t w.executor own (ground arith) (omega (arith, less)) in
            rw (there, step)
              (inl (
                record {
                  counted = counted;
                  count = omega (arith, v.count, fewer, count, queue);
                  going = going ∙ v.going;
                },
                omega (arith, less, count),
              ))
      ]
]

reactor-IsKept :
    (w : World) (ops : List ℕ)
    → IsSound w
    → charge w + 1 < 2 ^ 32
    → IsKept w (step w (reactor_returns ops))
unfolding step IsKept after_reactor
reactor-IsKept w ops v l = elim (Bool-cases (w.polling == 0)) [
  | inl impossible ↦ rw impossible (inl (v, omega arith))
  | inr possible ↦
      let queue : jobs (w.executor.operation_queue ++ operations ops ++ none ∷ [])
          ≡ jobs w.executor.operation_queue + length ops =
        omega (
          arith,
          jobs-append (w.executor.operation_queue ++ operations ops) (none ∷ []),
          jobs-append w.executor.operation_queue (operations ops),
          jobs-operations ops,
        ) in
      rw possible (
        inl (
          record { counted = v.counted; count = omega (arith, v.count, queue); going = v.going },
          omega arith,
        ))
]

step-IsKept : (w : World) (m : Move) → IsSound w → charge w + 1 < 2 ^ 32 → IsKept w (step w m)
step-IsKept w (posts op) v l = posts-IsKept w op v l
step-IsKept w (posts_inside i op) v l = inside-IsKept w i op v l
step-IsKept w arrives v l = arrives-IsKept w v l
step-IsKept w takes v l = takes-IsKept w v
step-IsKept w (returns i) v l = returns-IsKept w i v l
step-IsKept w (reactor_returns ops) v l = reactor-IsKept w ops v l

-- A stop stays requested.
step-IsStopped : (w : World) (m : Move) → IsStopped w → IsStopped (step w m)
unfolding step with_round next_round after_job on_job_completion after_reactor
    enqueue_on_job_arrival on_job_arrival
step-IsStopped w (posts op) v = ground arith
step-IsStopped w (posts_inside i op) v = ground arith
step-IsStopped w arrives v = ground arith
step-IsStopped w takes v = ground arith
step-IsStopped w (returns i) v = ground arith
step-IsStopped w (reactor_returns ops) v = ground arith

run-IsStopped : (w : World) (ms : List Move) → IsStopped w → IsStopped (run w ms)
unfolding run
run-IsStopped w [] v = v
run-IsStopped w (m ∷ ms) v = run-IsStopped (step w m) ms (step-IsStopped w m v)

run-IsSound :
    (w : World) (ms : List Move)
    → IsSound w
    → charge w + length ms < 2 ^ 32
    → IsSound (run w ms) ⊎ IsStopped (run w ms)
unfolding run IsKept
run-IsSound w [] v l = inl v
run-IsSound w (m ∷ ms) v l = elim (step-IsKept w m v (omega arith)) [
  | inl (v', more) ↦ run-IsSound (step w m) ms v' (omega (arith, more))
  | inr stops ↦ inr (run-IsStopped (step w m) ms stops)
]

new_world-IsSound :
    (has_reactor single_thread : Bool) → IsSound (new_world has_reactor single_thread)
new_world-IsSound false single_thread = record { counted = tt; count = refl; going = refl }
new_world-IsSound true single_thread = record { counted = tt; count = refl; going = refl }

reached :
    (has_reactor single_thread : Bool) (ms : List Move)
    → length ms < 2 ^ 32
    → let w = run (new_world has_reactor single_thread) ms in IsSound w ⊎ IsStopped w
reached has_reactor single_thread ms l =
    run-IsSound (new_world has_reactor single_thread) ms
      (new_world-IsSound has_reactor single_thread) (omega arith)

not_stopped : (ops : List (Option ℕ)) (x : Executor) → round_of ops x ≢ stopped
unfolding round_of
not_stopped [] x = λ h. cc
not_stopped (none ∷ ops) x = λ h. cc
not_stopped (some job ∷ ops) x = λ h. cc

next_round-going : (x : Executor) → x.stop_requested ≡ false → next_round x ≢ stopped
unfolding next_round
next_round-going x h =
    rw (h, next_round) (not_stopped x.operation_queue (record x { stop_requested = false }))

-- Under every interleaving of fewer than 2^32 moves, until a stop is requested, the count of the executor
-- and the number of handlers that the reactor has queued without an arrival make up the jobs that are
-- queued or running and the asynchronous operations that are pending: the count is exact as long as
-- every handler stands for an arrival, and too low by one for each that does not.
pub job_count_lem :
    (has_reactor single_thread : Bool) (ms : List Move)
    → length ms < 2 ^ 32
    → (run (new_world has_reactor single_thread) ms).executor.stop_requested ≡ false
    → let w = run (new_world has_reactor single_thread) ms in
      w.executor.job_count + w.uncounted ≡ outstanding w
job_count_lem has_reactor single_thread ms l going = elim (reached has_reactor single_thread ms l) [
  | inl v ↦ v.count
  | inr (stops, some_uncounted) ↦ absurd cc
]

-- Under every interleaving of fewer than 2^32 moves, none of which is an explicit stop, in which the
-- reactor has queued no handler without an arrival, the completion of jobs has not requested a stop, and
-- no next round ends Run, whether or not jobs remain.
pub completion_never_stops :
    (has_reactor single_thread : Bool) (ms : List Move)
    → length ms < 2 ^ 32
    → (run (new_world has_reactor single_thread) ms).uncounted ≡ 0
    → let w = run (new_world has_reactor single_thread) ms in
      (w.executor.stop_requested ≡ false) × (next_round w.executor ≢ stopped)
completion_never_stops has_reactor single_thread ms l all_counted =
    elim (reached has_reactor single_thread ms l) [
      | inl v ↦ (
        v.going,
        next_round-going (run (new_world has_reactor single_thread) ms).executor v.going,
      )
      | inr (stops, some_uncounted) ↦ absurd (omega (arith, some_uncounted, all_counted))
    ]
