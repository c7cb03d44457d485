-- ===== src/Timer/Expiry.antt =====
-- include/asrt/timer/timer_queue.hpp: what happens when a timer expires, and `Enqueue`, which calls
-- the handler of a zero expiry itself.
pub mod OneShot
use asrt.Base.{
  ◌>>=◌, ℕ, zero, suc, ◌+◌, true, false, Option, none, some, List, [], ◌∷◌, ◌==◌, leb,
  if◌then◌else◌, get_elem?, set,
}
use asrt.ErrorCode.{ErrorCode}
use asrt.Reactor.Entry.{Result, ok}
use asrt.Timer.Queue.{
  TimerEntry, QueuedTimer, TimerEffect, set_time, job_arrival, TimerQueue, find_tag, with_expiry,
}
use asrt.Timer.Schedule.{remove_timer_from_queue, do_add_timer}

module _ (make_heap : List QueuedTimer → List QueuedTimer) {H : Type 0} where
  -- `UpdateTimerExpiry`.
  unfoldable pub update_timer_expiry : ℕ → ℕ → ℕ → TimerQueue H → Option (TimerQueue H)
  unfolding find_tag with_expiry
  update_timer_expiry tag expiry interval q = do
    e ← get_elem? q.timers tag
    let timers' = set q.timers tag (record e { expiry = expiry; interval = interval })
    some (record q {
      timers = timers';
      queued_timers = elim (find_tag tag q.queued_timers) [
        | none ↦ q.queued_timers
        | some i ↦ make_heap (with_expiry tag expiry q.queued_timers)
      ];
    })

  -- `HandleOneExpiry` behind the call of the handler, which started at `prev_expiry`.
  after_handler : ℕ → ℕ → TimerQueue H → TimerEntry H → Option (TimerQueue H)
  after_handler prev_expiry tag q e =
      if q.release_handler_memory
      then some (record q {
        timers = set q.timers tag (record e { in_progress = false; handler = none });
        release_handler_memory = false;
      })
      else let q' = record q { timers = set q.timers tag (record e { in_progress = false }) } in
        if e.interval == 0
        then some (remove_timer_from_queue make_heap tag q').1
        else update_timer_expiry tag (prev_expiry + e.interval) e.interval q'

  -- `HandleOneExpiry`. The handler runs with the mutex free: `body` is what it and other threads make
  -- of the queue meanwhile.
  unfoldable pub handle_one_expiry :
      (H → ℕ → TimerQueue H → TimerQueue H) → ℕ → ℕ → TimerQueue H → Option (TimerQueue H)
  unfolding after_handler
  handle_one_expiry body prev_expiry tag q = do
    e ← get_elem? q.timers tag
    h ← e.handler
    let q' = body h tag (record q { timers = set q.timers tag (record e { in_progress = true }) })
    e' ← get_elem? q'.timers tag
    after_handler prev_expiry tag q' e'

  -- `Enqueue`: a zero expiry calls the handler at once.
  unfoldable pub enqueue :
      (H → ℕ → TimerQueue H → TimerQueue H)
      → ℕ
      → ℕ
      → ℕ
      → ℕ
      → Option ErrorCode
      → TimerQueue H
      → Option (Result (Unit {0}) × TimerQueue H × List TimerEffect)
  enqueue body now tag expiry interval answer q =
      if expiry == 0
      then (do q' ← handle_one_expiry body now tag q; some (ok tt, q', []))
      else do_add_timer make_heap tag expiry interval answer q

  -- The loop of `HandleExpiry`, on fuel: round `i` tests the front against clock reading 2 i and calls
  -- the handler at reading 2 i + 1.
  unfoldable pub expire_loop :
      (H → ℕ → TimerQueue H → TimerQueue H) → (ℕ → ℕ) → ℕ → ℕ → TimerQueue H → Option (TimerQueue H)
  expire_loop body clock zero i q = none
  expire_loop body clock (suc fuel) i q = elim q.queued_timers [
    | [] ↦ some q
    | front ∷ rest ↦ elim (get_elem? q.timers front.tag) [
      | none ↦ none
      | some e ↦ elim (leb e.expiry (clock i)) [
        | false ↦ some q
        | true ↦ elim (handle_one_expiry body (clock (i + 1)) front.tag q) [
          | none ↦ none
          | some q' ↦ expire_loop body clock fuel (i + 2) q'
        ]
      ]
    ]
  ]

  -- `HandleExpiry`: the loop, then the timerfd is armed for the front of the queue.
  unfoldable pub handle_expiry :
      (H → ℕ → TimerQueue H → TimerQueue H)
      → (ℕ → ℕ)
      → ℕ
      → TimerQueue H
      → Option (TimerQueue H × List TimerEffect)
  unfolding expire_loop
  handle_expiry body clock fuel q = do
    q' ← expire_loop body clock fuel 0 q
    some (
      q',
      elim q'.queued_timers [ [] ↦ [] | front ∷ rest ↦ set_time front.expiry ∷ job_arrival ∷ [] ],
    )
