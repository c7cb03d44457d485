-- ===== src/Strand/Drain.antt =====
-- What the threads of a strand make of it when nothing new comes.
use asrt.Base.{
  ℕ, zero, suc, ◌+◌, ◌≡◌, refl, false, List, [], ◌∷◌, ◌++◌, arith, if◌then◌else◌, length, ap, sym,
  ◌∙◌, inl, inr, Bool-cases,
}
use asrt.Strand.{next_job}
use asrt.Strand.Schedule.{
  World, Move, begins, takes, finishes, new_world, step, run, with_next, IsSound, append_nil,
  List-cases, step-IsSound, run-IsSound, new_world-IsSound,
}

-- What the threads do when nothing new comes: the running job ends, a queued closure begins, and the
-- loop runs `n` jobs and ends.
abbrev pub rounds : ℕ → List Move
rounds zero = takes ∷ []
rounds (suc n) = takes ∷ finishes ∷ rounds n

abbrev pub drain : ℕ → List Move
drain n = finishes ∷ begins ∷ rounds n

idle_only : (w : World) → IsSound w → w.idle ≡ 1 → (w.busy ≡ 0) × (w.scheduled ≡ 0)
idle_only w v i = ground (arith, v.owner)

-- The loop's last round.
last_round :
    (w : World)
    → w.strand.jobs ≡ []
    → w.idle ≡ 1
    → w.busy ≡ 0
    → w.scheduled ≡ 0
    → let w' = step w takes in
      (w'.started ≡ w.started)
      × (w'.strand.is_running ≡ false)
      × (w'.scheduled + w'.idle + w'.busy ≡ 0)
unfolding step with_next next_job
last_round w empty i b s = ground arith

-- A round that runs a job.
job_round :
    (w : World) (job : ℕ) (rest : List ℕ)
    → w.strand.jobs ≡ job ∷ rest
    → w.idle ≡ 1
    → w.busy ≡ 0
    → let w' = step (step w takes) finishes in
      (w'.strand.jobs ≡ rest) × (w'.idle ≡ 1) × (w'.accepted ≡ w.accepted)
unfolding step with_next next_job
job_round w job rest jobs i b = ground arith

length_zero : (xs : List ℕ) → length xs ≡ 0 → xs ≡ []
length_zero [] h = refl
length_zero (x ∷ xs) h = absurd (omega arith)

drain-rounds :
    (n : ℕ) (w : World)
    → IsSound w
    → length w.strand.jobs ≡ n
    → w.idle ≡ 1
    → let w' = run w (rounds n) in
      (w'.started ≡ w.accepted)
      × (w'.strand.is_running ≡ false)
      × (w'.scheduled + w'.idle + w'.busy ≡ 0)
unfolding run
drain-rounds zero w v l i =
    let empty = length_zero w.strand.jobs l in
    let (b, s) = idle_only w v i in
    let (same, free, none_left) = last_round w empty i b s in
    (
      same ∙ sym (append_nil w.started) ∙ ap (λ xs. w.started ++ xs) (sym empty) ∙ v.order,
      free,
      none_left,
    )
drain-rounds (suc n) w v l i = elim (List-cases w.strand.jobs) [
  | inl empty ↦ absurd (omega (arith, l, ap length empty))
  | inr (job, rest, jobs) ↦
      let (jobs', i', same) = job_round w job rest jobs i (idle_only w v i).0 in
      let w' = step (step w takes) finishes in
      let v' = step-IsSound (step w takes) finishes (step-IsSound w takes v) in
      let (all, free, none_left) =
        drain-rounds n w' v' (ground (arith, l, ap length jobs, ap length jobs')) i' in
      (all ∙ same, free, none_left)
]

-- Without an owner the strand is free and nothing happens.
free-rounds : (n : ℕ) (w : World) → w.idle ≡ 0 → w.busy ≡ 0 → run w (rounds n) ≡ w
unfolding run step
free-rounds zero w i b = ground arith
free-rounds (suc n) w i b = ground (arith, free-rounds n w)

-- The running job ends and the queued closure begins.
settled :
    (w : World)
    → IsSound w
    → let w' = step (step w finishes) begins in
      (w'.strand ≡ w.strand)
      × (w'.accepted ≡ w.accepted)
      × (w'.idle ≡ (if w.strand.is_running then 1 else 0))
      × (w'.busy ≡ 0)
unfolding step
settled w v = ground (arith, v.owner)

rested :
    (w : World)
    → IsSound w
    → w.strand.is_running ≡ false
    → (w.started ≡ w.accepted) × (w.strand.is_running ≡ false) × (w.scheduled + w.idle + w.busy ≡ 0)
rested w v h = (
  sym (append_nil w.started) ∙ ap (λ xs. w.started ++ xs) (sym (v.quiet h)) ∙ v.order,
  h,
  ground (arith, v.owner),
)

-- From every state that can be reached, when nothing new comes and the threads go on, as many rounds
-- as jobs wait are enough: every job that was taken has been started, in order, no job is running, and
-- the strand is free.
pub strand_drains :
    (ms : List Move)
    → let w = run new_world ms in
      let w' = run w (drain (length w.strand.jobs)) in
      (w'.started ≡ w.accepted)
      × (w'.strand.is_running ≡ false)
      × (w'.scheduled + w'.idle + w'.busy ≡ 0)
unfolding run
strand_drains ms =
    let w = run new_world ms in
    let v = run-IsSound new_world ms new_world-IsSound in
    let w' = step (step w finishes) begins in
    let v' = step-IsSound (step w finishes) begins (step-IsSound w finishes v) in
    let (same, accepted, idle, busy) = settled w v in
    elim (Bool-cases w.strand.is_running) [
      | inl running ↦
          let (all, free, none_left) =
            drain-rounds (length w.strand.jobs) w' v' (ap (λ s. length s.jobs) same)
              (ground arith) in
          (all ∙ accepted, free, none_left)
      | inr free ↦
          let stays = free-rounds (length w.strand.jobs) w' (ground arith) busy in
          let (all, still, none_left) = rested w' v' (ap (λ s. s.is_running) same ∙ free) in
          rw stays (all ∙ accepted, still, none_left)
    ]
