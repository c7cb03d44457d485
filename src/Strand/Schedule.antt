-- ===== src/Strand/Schedule.antt =====
-- A strand under every interleaving of the threads that post, dispatch and run its jobs. The marker that
-- IsContinuation looks for is one thread-local flag for all strands: a thread that runs a job of
-- another strand has it too.
use asrt.Base.{
  ℕ, ◌+◌, ◌-◌, ◌≤◌, ◌≡◌, ◌≢◌, refl, Bool, true, false, ◌&&◌, Option, none, some, List, [], ◌∷◌,
  ◌++◌, arith, ◌==◌, if◌then◌else◌, ap, sym, ◌∙◌, ◌⊎◌, inl, inr, Bool-cases,
}
use asrt.Strand.{
  Strand, new_strand, post, Dispatched, posted, invoked, enqueued, initiated, dispatch, next_job,
}

-- A strand with its threads: `scheduled` counts the closures of `ExecutePendingJobs` that the executor
-- holds, `idle` the loops between two jobs and `busy` the jobs that are running. `accepted` are the
-- jobs in the order of the critical sections that took them, `started` those that were started,
-- `inlined` those that ran inside a running job of the strand, and `beside` those that ran at once on a
-- thread that runs a job of another strand.
pub record World : Type 0 where
  pub strand : Strand
  pub scheduled : ℕ
  pub idle : ℕ
  pub busy : ℕ
  pub accepted : List ℕ
  pub started : List ℕ
  pub inlined : List ℕ
  pub beside : List ℕ

-- Whose marker a thread has.
pub data Marker : Type 0 where
  unmarked own foreign : Marker

abbrev is_continuation : Marker → Bool
is_continuation unmarked = false
is_continuation own = true
is_continuation foreign = true

pub data Move : Type 0 where
  posts : ℕ → Move
  dispatches : Bool → Marker → ℕ → Move
  begins takes finishes : Move

abbrev pub new_world : World
new_world = record {
  strand = new_strand;
  scheduled = 0;
  idle = 0;
  busy = 0;
  accepted = [];
  started = [];
  inlined = [];
  beside = [];
}

with_post : ℕ → World → Strand × Bool → World
with_post job w (s, trigger_run) = record w {
  strand = s;
  accepted = w.accepted ++ job ∷ [];
  scheduled = w.scheduled + (if trigger_run then 1 else 0);
}

with_dispatch : Marker → ℕ → World → Dispatched → World
unfolding with_post
with_dispatch marker job w (posted r) = with_post job w r
with_dispatch foreign job w invoked = record w { beside = w.beside ++ job ∷ [] }
with_dispatch _ job w invoked = record w { inlined = w.inlined ++ job ∷ [] }
with_dispatch marker job w (enqueued s) = record w { strand = s; accepted = w.accepted ++ job ∷ [] }
with_dispatch marker job w (initiated s) = record w {
  strand = s;
  accepted = w.accepted ++ job ∷ [];
  started = w.started ++ job ∷ [];
  busy = w.busy + 1;
}

unfoldable pub with_next : World → Option ℕ × Strand → World
with_next w (none, s) = record w { strand = s; idle = w.idle - 1 }
with_next w (some job, s) = record w {
  strand = s;
  idle = w.idle - 1;
  busy = w.busy + 1;
  started = w.started ++ job ∷ [];
}

abbrev is_own : Marker → Bool
is_own own = true
is_own _ = false

-- A move that no thread can make changes nothing: this strand's marker needs a running job.
unfoldable pub step : World → Move → World
unfolding with_post with_dispatch with_next
step w (posts job) = with_post job w (post job w.strand)
step w (dispatches context marker job) =
    if is_own marker && (w.busy == 0)
    then w
    else with_dispatch marker job w (dispatch context (is_continuation marker) job w.strand)
step w begins =
    if w.scheduled == 0 then w else record w { scheduled = w.scheduled - 1; idle = w.idle + 1 }
step w takes = if w.idle == 0 then w else with_next w (next_job w.strand)
step w finishes = if w.busy == 0 then w else record w { busy = w.busy - 1; idle = w.idle + 1 }

unfoldable pub run : World → List Move → World
run w [] = w
run w (m ∷ ms) = run (step w m) ms

pub record IsSound (w : World) : Type 0 where
  pub owner : w.scheduled + w.idle + w.busy ≡ (if w.strand.is_running then 1 else 0)
  pub quiet : w.strand.is_running ≡ false → w.strand.jobs ≡ []
  pub order : w.started ++ w.strand.jobs ≡ w.accepted

append_assoc : (xs ys zs : List ℕ) → xs ++ (ys ++ zs) ≡ (xs ++ ys) ++ zs
append_assoc [] ys zs = refl
append_assoc (x ∷ xs) ys zs = ap (λ r. x ∷ r) (append_assoc xs ys zs)

pub append_nil : (xs : List ℕ) → xs ++ [] ≡ xs
append_nil [] = refl
append_nil (x ∷ xs) = ap (λ r. x ∷ r) (append_nil xs)

pub List-cases : (xs : List ℕ) → (xs ≡ []) ⊎ ((x : ℕ) × (rest : List ℕ) × (xs ≡ x ∷ rest))
List-cases [] = inl refl
List-cases (x ∷ xs) = inr (x, xs, refl)

-- A job that goes to the end of the jobs goes to the end of the accepted ones.
order_kept :
    (started jobs accepted : List ℕ) (job : ℕ)
    → started ++ jobs ≡ accepted
    → started ++ (jobs ++ job ∷ []) ≡ accepted ++ job ∷ []
order_kept started jobs accepted job h =
    append_assoc started jobs (job ∷ []) ∙ ap (λ xs. xs ++ job ∷ []) h

enqueued-IsSound :
    (marker : Marker) (w : World) (job : ℕ)
    → IsSound w
    → w.strand.is_running ≡ true
    → IsSound (
        with_dispatch marker job w
          (enqueued (record { jobs = w.strand.jobs ++ job ∷ []; is_running = true })))
unfolding with_dispatch
enqueued-IsSound marker w job v h = record {
  owner = ground (arith, v.owner);
  quiet = λ k. cc;
  order = order_kept w.started w.strand.jobs w.accepted job v.order;
}

initiated-IsSound :
    (marker : Marker) (w : World) (job : ℕ)
    → IsSound w
    → w.strand.is_running ≡ false
    → IsSound (with_dispatch marker job w (initiated (record w.strand { is_running = true })))
unfolding with_dispatch
initiated-IsSound marker w job v h =
    let empty = v.quiet h in
    let all : w.started ≡ w.accepted =
      sym (append_nil w.started) ∙ ap (λ xs. w.started ++ xs) (sym empty) ∙ v.order in
    record {
      owner = ground (arith, v.owner);
      quiet = λ k. cc;
      order =
          ap (λ xs. (w.started ++ job ∷ []) ++ xs) empty
          ∙ append_nil (w.started ++ job ∷ [])
          ∙ ap (λ xs. xs ++ job ∷ []) all;
    }

post-IsSound : (w : World) (job : ℕ) → IsSound w → IsSound (with_post job w (post job w.strand))
unfolding post with_post
post-IsSound w job v = record {
  owner = ground (arith, v.owner);
  quiet = λ h. cc;
  order = order_kept w.started w.strand.jobs w.accepted job v.order;
}

dispatch-IsSound :
    (w : World) (context : Bool) (marker : Marker) (job : ℕ)
    → IsSound w
    → IsSound (with_dispatch marker job w (dispatch context (is_continuation marker) job w.strand))
unfolding dispatch with_dispatch with_post
dispatch-IsSound w false marker job v = post-IsSound w job v
dispatch-IsSound w true own job v = ground (arith, v.owner, v.quiet, v.order)
dispatch-IsSound w true foreign job v = ground (arith, v.owner, v.quiet, v.order)
dispatch-IsSound w true unmarked job v = elim (Bool-cases w.strand.is_running) [
  | inl h ↦ rw h (enqueued-IsSound unmarked w job v h)
  | inr h ↦ rw h (initiated-IsSound unmarked w job v h)
]

-- The end of the loop, and the next job.
round-IsSound :
    (jobs : List ℕ) (w : World)
    → w.strand.jobs ≡ jobs
    → IsSound w
    → w.idle ≢ 0
    → IsSound (
        with_next w (elim jobs [
          | [] ↦ (none, record w.strand { is_running = false })
          | job ∷ rest ↦ (some job, record w.strand { jobs = rest })
        ]))
unfolding with_next
round-IsSound [] w empty v h = record {
  owner = ground (arith, v.owner);
  quiet = λ _. empty;
  order = v.order;
}
round-IsSound (job ∷ rest) w jobs v h = record {
  owner = ground (arith, v.owner);
  quiet = λ k. absurd (ground (arith, v.owner));
  order =
      sym (append_assoc w.started (job ∷ []) rest)
      ∙ ap (λ xs. w.started ++ xs) (sym jobs)
      ∙ v.order;
}

next_job-IsSound : (w : World) → IsSound w → w.idle ≢ 0 → IsSound (with_next w (next_job w.strand))
unfolding next_job
next_job-IsSound w v h = round-IsSound w.strand.jobs w refl v h

pub step-IsSound : (w : World) (m : Move) → IsSound w → IsSound (step w m)
unfolding step
step-IsSound w (posts job) v = post-IsSound w job v
step-IsSound w (dispatches context marker job) v =
    elim (Bool-cases (is_own marker && (w.busy == 0))) [
      | inl impossible ↦ rw impossible v
      | inr possible ↦ rw possible (dispatch-IsSound w context marker job v)
    ]
step-IsSound w begins v = ground (arith, v.owner, v.quiet, v.order)
step-IsSound w takes v = elim (Bool-cases (w.idle == 0)) [
  | inl impossible ↦ rw impossible v
  | inr possible ↦ rw possible (next_job-IsSound w v (ground arith))
]
step-IsSound w finishes v = ground (arith, v.owner, v.quiet, v.order)

pub run-IsSound : (w : World) (ms : List Move) → IsSound w → IsSound (run w ms)
unfolding run
run-IsSound w [] v = v
run-IsSound w (m ∷ ms) v = run-IsSound (step w m) ms (step-IsSound w m v)

pub new_world-IsSound : IsSound new_world
new_world-IsSound = record { owner = refl; quiet = λ _. refl; order = refl }

waiting : (w : World) → IsSound w → w.strand.jobs ≢ [] → w.scheduled + w.idle + w.busy ≡ 1
waiting w v h = elim (Bool-cases w.strand.is_running) [
  | inl running ↦ ground (arith, v.owner)
  | inr free ↦ absurd (h (v.quiet free))
]

-- The jobs that threads inside the executor dispatch while they run a job of another strand.
unfoldable pub from_other_strands : List Move → List ℕ
from_other_strands [] = []
from_other_strands (dispatches true foreign job ∷ ms) = job ∷ from_other_strands ms
from_other_strands (m ∷ ms) = from_other_strands ms

step-beside : (w : World) (m : Move) → (step w m).beside ≡ w.beside ++ from_other_strands (m ∷ [])
unfolding step with_post with_dispatch with_next dispatch post next_job from_other_strands
step-beside w (posts job) = sym (append_nil w.beside)
step-beside w (dispatches false unmarked job) = sym (append_nil w.beside)
step-beside w (dispatches false own job) = ground (arith, append_nil w.beside)
step-beside w (dispatches false foreign job) = sym (append_nil w.beside)
step-beside w (dispatches true unmarked job) = ground (arith, append_nil w.beside)
step-beside w (dispatches true own job) = ground (arith, append_nil w.beside)
step-beside w (dispatches true foreign job) = refl
step-beside w begins = ground (arith, append_nil w.beside)
step-beside w takes = ground (arith, append_nil w.beside)
step-beside w finishes = ground (arith, append_nil w.beside)

from_other_strands-cons :
    (m : Move) (ms : List Move)
    → from_other_strands (m ∷ ms) ≡ from_other_strands (m ∷ []) ++ from_other_strands ms
unfolding from_other_strands
from_other_strands-cons (posts job) ms = refl
from_other_strands-cons (dispatches false marker job) ms = refl
from_other_strands-cons (dispatches true unmarked job) ms = refl
from_other_strands-cons (dispatches true own job) ms = refl
from_other_strands-cons (dispatches true foreign job) ms = refl
from_other_strands-cons begins ms = refl
from_other_strands-cons takes ms = refl
from_other_strands-cons finishes ms = refl

run-beside : (w : World) (ms : List Move) → (run w ms).beside ≡ w.beside ++ from_other_strands ms
unfolding run from_other_strands
run-beside w [] = sym (append_nil w.beside)
run-beside w (m ∷ ms) =
    run-beside (step w m) ms
    ∙ ap (λ xs. xs ++ from_other_strands ms) (step-beside w m)
    ∙ sym (append_assoc w.beside (from_other_strands (m ∷ [])) (from_other_strands ms))
    ∙ ap (λ xs. w.beside ++ xs) (sym (from_other_strands-cons m ms))

-- Under every interleaving of posts, dispatches and executor threads, also of threads that run jobs of other
-- strands: at most one of the jobs that the strand takes runs at a time; these are started in the order in
-- which they were taken, those not yet started being exactly the waiting ones; whenever jobs wait,
-- exactly one thread or queued closure is there to run them; and the jobs that the strand does not
-- take, but runs at once outside its own jobs, are exactly those that threads inside the executor
-- dispatch from jobs of other strands.
pub one_job_in_order :
    (ms : List Move)
    → let w = run new_world ms in
      (w.busy ≤ 1)
      × (w.started ++ w.strand.jobs ≡ w.accepted)
      × (w.strand.jobs ≢ [] → w.scheduled + w.idle + w.busy ≡ 1)
      × (w.beside ≡ from_other_strands ms)
one_job_in_order ms =
    let v = run-IsSound new_world ms new_world-IsSound in
    (ground (arith, v.owner), v.order, λ h. waiting (run new_world ms) v h, run-beside new_world ms)
