-- ===== src/Executor/Schedule.antt =====
-- The executor with its threads: what they do to it between two critical sections, in any order.
use asrt.Base.{
  ℕ, zero, suc, ◌+◌, ◌-◌, ◌≡◌, ◌≤◌, Bool, true, false, Option, none, some, List, [], ◌∷◌, ◌==◌,
  if◌then◌else◌, length, get_elem?, set, All,
}
use asrt.Reactor.Entry.{ok}
use asrt.Executor.{
  Executor, ThreadInfo, new_thread_info, Round, stopped, waits, runs_reactor, runs_job,
  enqueue_on_job_arrival, on_job_arrival, enqueue_private, next_round, after_reactor, after_job,
}

-- How many jobs stand in a queue.
abbrev pub jobs : List (Option ℕ) → ℕ
jobs [] = 0
jobs (none ∷ ops) = jobs ops
jobs (some op ∷ ops) = suc (jobs ops)

abbrev pub remove_at {ℓ} : {A : Type ℓ} → List A → ℕ → List A
remove_at [] i = []
remove_at (x ∷ xs) zero = xs
remove_at (x ∷ xs) (suc i) = x ∷ remove_at xs i

-- The executor, the threads inside an operation, the number of threads inside the reactor's Run, the
-- number of asynchronous operations that have arrived and whose handlers are not queued yet, and how many
-- handlers the reactor has queued for which no operation had arrived: an event that is registered
-- eagerly queues a handler without an operation, and OnStartOfOperation reports one arrival for a read and
-- a write on one descriptor, whose events can queue two.
pub record World : Type 0 where
  pub executor : Executor
  pub busy : List ThreadInfo
  pub polling : ℕ
  pub pending : ℕ
  pub uncounted : ℕ

-- A post from outside; a post by the operation of thread `i`; the start of an asynchronous operation; a
-- round of a thread; the return of the operation of thread `i`; and the return of the reactor's Run
-- with some operations.
pub data Move : Type 0 where
  posts : ℕ → Move
  posts_inside : ℕ → ℕ → Move
  arrives takes : Move
  returns : ℕ → Move
  reactor_returns : List ℕ → Move

unfoldable pub with_round : World → Round → World
with_round w stopped = w
with_round w waits = w
with_round w (runs_reactor block x wakes) = record w { executor = x; polling = w.polling + 1 }
with_round w (runs_job job x wakes) = record w { executor = x; busy = new_thread_info ∷ w.busy }

-- A move that no thread can make changes nothing.
unfoldable pub step : World → Move → World
unfolding with_round
step w (posts op) = record w { executor = (enqueue_on_job_arrival op w.executor).0 }
step w (posts_inside i op) = elim (get_elem? w.busy i) [
  | none ↦ w
  | some t ↦ record w { busy = set w.busy i (enqueue_private op t) }
]
step w arrives = record w { executor = on_job_arrival w.executor; pending = w.pending + 1 }
step w takes = with_round w (next_round w.executor)
step w (returns i) = elim (get_elem? w.busy i) [
  | none ↦ w
  | some t ↦ record w { executor = (after_job t w.executor).1; busy = remove_at w.busy i }
]
step w (reactor_returns ops) = if w.polling == 0 then w else record w {
  executor =
      (after_reactor (ok tt) (record { private_op_queue = ops; private_job_count = 0 })
        w.executor).2;
  polling = w.polling - 1;
  pending = w.pending - length ops;
  uncounted = w.uncounted + (length ops - w.pending);
}

unfoldable pub run : World → List Move → World
run w [] = w
run w (m ∷ ms) = run (step w m) ms

-- A thread's private count is that of its private queue.
abbrev pub IsCounted : ThreadInfo → Type 0
IsCounted t = t.private_job_count ≡ length t.private_op_queue

abbrev pub private_jobs : List ThreadInfo → ℕ
private_jobs [] = 0
private_jobs (t ∷ ts) = length t.private_op_queue + private_jobs ts

-- The jobs that are queued or running, and the asynchronous operations that are pending.
abbrev pub outstanding : World → ℕ
outstanding w = jobs w.executor.operation_queue + length w.busy + w.pending

-- What the count is, and can become when the running operations end.
abbrev pub charge : World → ℕ
charge w = w.executor.job_count + private_jobs w.busy

pub record IsSound (w : World) : Type 0 where
  pub counted : All IsCounted w.busy
  pub count : w.executor.job_count + w.uncounted ≡ outstanding w
  pub going : w.executor.stop_requested ≡ false

-- A stop was requested, and a handler queued that no arrival stands for.
abbrev pub IsStopped : World → Type 0
IsStopped w = (w.executor.stop_requested ≡ true) × (1 ≤ w.uncounted)

-- An executor that is not stopped, with the reactor's null task in its queue or not.
abbrev pub new_world : Bool → Bool → World
new_world has_reactor single_thread = record {
  executor = record {
    operation_queue = if has_reactor then none ∷ [] else [];
    job_count = 0;
    stop_requested = false;
    has_reactor = has_reactor;
    reactor_needs_interrupt = false;
    single_thread = single_thread;
    cv_wait_count = 0;
  };
  busy = [];
  polling = 0;
  pending = 0;
  uncounted = 0;
}
