-- ===== src/Timer/Schedule/Armed.antt =====
-- The timerfd and the heap: starting a timer keeps the timerfd armed in time for the earliest queued
-- timer, and what removing a timer does to it.
use asrt.Base.{
  ℕ, ◌+◌, ◌≤◌, ◌<◌, ◌≡◌, ◌≢◌, refl, Option, none, some, List, [], ◌∷◌, ◌++◌, arith, ◌==◌, ltb,
  if◌then◌else◌, length, get_elem?-of_lt, Bool-cases, inl, inr, ap, ◌∙◌,
}
use asrt.Reactor.Entry.{ok}
use asrt.Timer.Queue.{
  TimerEntry, QueuedTimer, TimerEffect, set_time, job_arrival, TimerQueue, is_next_expiring,
  update_timer_fd,
}
use asrt.Timer.Schedule.{do_add_timer, add_timer}
use asrt.Timer.Schedule.Heap.{
  NotBefore, IsHeap, count_tag, MakesHeap, NotBefore-append, NotBefore-weaken, count-append,
}

-- The time at which the timerfd fires, after some effects; `none` is disarmed.
abbrev pub armed_after : List TimerEffect → Option ℕ → Option ℕ
armed_after [] armed = armed
armed_after (set_time t ∷ rest) armed = armed_after rest (if t == 0 then none else some t)
armed_after (job_arrival ∷ rest) armed = armed_after rest armed

-- If a timer is queued, the timerfd fires, and no later than the earliest queued timer expires.
abbrev pub IsArmed : Option ℕ → List QueuedTimer → Type 0
IsArmed armed [] = Unit
IsArmed armed (x ∷ xs) = (t : ℕ) × (armed ≡ some t) × NotBefore t (x ∷ xs)

pub IsArmed-of :
    (t : ℕ) (armed : Option ℕ) (xs : List QueuedTimer)
    → armed ≡ some t
    → NotBefore t xs
    → IsArmed armed xs
IsArmed-of t armed [] h k = tt
IsArmed-of t armed (x ∷ xs) h k = (t, h, k)

-- The timerfd after `DoAddTimer` has put an entry for `expiry` into the queue.
armed_when_added : ℕ → List QueuedTimer → Option ℕ → Option ℕ
armed_when_added expiry xs armed = if is_next_expiring expiry xs then some expiry else armed

added-bound :
    (expiry tag : ℕ) (armed : Option ℕ) (xs : List QueuedTimer)
    → IsHeap xs
    → IsArmed armed xs
    → (t : ℕ) × (armed_when_added expiry xs armed ≡ some t)
      × NotBefore t (xs ++ record { expiry = expiry; tag = tag } ∷ [])
unfolding armed_when_added is_next_expiring
added-bound expiry tag armed [] h a = (expiry, refl, (omega arith, tt))
added-bound expiry tag armed (x ∷ xs) h a = elim (Bool-cases (ltb expiry x.expiry)) [
  | inl sooner ↦
      let less : expiry ≤ x.expiry = ground arith in
      (
        expiry,
        rw sooner refl,
        NotBefore-append expiry (x ∷ xs) _ (less, NotBefore-weaken expiry x.expiry xs less h)
            (omega arith),
      )
  | inr later ↦
      let first = a.2.0 in
      let bound : a.0 ≤ expiry = ground arith in
      (a.0, rw later a.1, NotBefore-append a.0 (x ∷ xs) _ a.2 bound)
]

abbrev added : ℕ → ℕ → List QueuedTimer → List QueuedTimer
added tag expiry xs = xs ++ record { expiry = expiry; tag = tag } ∷ []

module _ (make_heap : List QueuedTimer → List QueuedTimer) {H : Type 0} where
  -- What `DoAddTimer` and `DoRemoveTimer` make of the queue and of the timerfd, armed as `armed` before:
  -- the heap is a heap, the timerfd is in time for it, and tag `tag` is queued `more` times more.
  pub record Kept (q q' : TimerQueue H) (armed : Option ℕ) (effects : List TimerEffect)
      : Type 0 where
    pub heap : IsHeap q'.queued_timers
    pub in_time : IsArmed (armed_after effects armed) q'.queued_timers

  add_timer-fields :
      (tag expiry interval : ℕ) (q : TimerQueue H) (e : TimerEntry H) (armed : Option ℕ)
      → expiry ≢ 0
      → let r = add_timer make_heap tag expiry interval none q e in
        (r ≡ (ok tt, r.1, r.2))
        × (r.1.queued_timers ≡ make_heap (added tag expiry q.queued_timers))
        × (armed_after r.2 armed ≡ armed_when_added expiry q.queued_timers armed)
  unfolding add_timer armed_when_added update_timer_fd
  add_timer-fields tag expiry interval q e armed nz =
      elim (Bool-cases (is_next_expiring expiry q.queued_timers)) [
        | inl first ↦ ground arith
        | inr later ↦ ground arith
      ]

  -- With `make_heap` as documented, a successful timerfd_settime, a queue that is a heap with the
  -- timerfd armed in time for it, a reserved tag and an expiry that is not zero: `DoAddTimer` succeeds,
  -- the queue is a heap again, the timerfd fires no later than the earliest timer in it, and the new
  -- timer is queued once more while every other timer is queued as often as before.
  pub do_add_timer-Armed :
      (tag expiry interval : ℕ) (q : TimerQueue H) (armed : Option ℕ)
      → MakesHeap make_heap
      → expiry ≢ 0
      → tag < length q.timers
      → IsHeap q.queued_timers
      → IsArmed armed q.queued_timers
      → (q' : TimerQueue H) × (effects : List TimerEffect) × (do_add_timer make_heap tag expiry
            interval none q
          ≡ some (ok tt, q', effects))
        × Kept q q' armed effects
        × ((other : ℕ)
            → count_tag other q'.queued_timers
              ≡ count_tag other q.queued_timers + (if tag == other then 1 else 0))
  unfolding do_add_timer armed_when_added is_next_expiring
  do_add_timer-Armed tag expiry interval q armed mh nz inside heap a =
      let (e, there) = get_elem?-of_lt q.timers tag inside in
      let (t, fires, bound) = added-bound expiry tag armed q.queued_timers heap a in
      let r = add_timer make_heap tag expiry interval none q e in
      let (done, queue, fd) = add_timer-fields tag expiry interval q e armed nz in
      (
        r.1,
        r.2,
        rw there (ap some done),
        record {
          heap = rw queue (mh.front_earliest (added tag expiry q.queued_timers));
          in_time =
              rw (queue, fd)
                (IsArmed-of t _ (make_heap (added tag expiry q.queued_timers)) fires
                  (mh.same_bounds (added tag expiry q.queued_timers) t bound));
        },
        λ other. rw queue (
            mh.same_count (added tag expiry q.queued_timers) other
            ∙ count-append other q.queued_timers _),
      )
