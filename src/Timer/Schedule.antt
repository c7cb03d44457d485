-- ===== src/Timer/Schedule.antt =====
-- include/asrt/timer/timer_queue.hpp: putting a timer into the heap of queued timers and taking it
-- out. `std::make_heap` is the section's parameter.
pub mod Heap
pub mod Armed
pub mod Removal
use asrt.Base.{
  ◌>>=◌, ℕ, zero, suc, ◌+◌, ◌%◌, ◌-◌, Bool, true, false, not, ◌&&◌, Option, none, some, List, [],
  ◌∷◌, ◌++◌, ◌==◌, ltb, leb, if◌then◌else◌, length, get_elem?, set, replicate,
}
use asrt.ErrorCode.{ErrorCode, api_error, capacity_exceeded}
use asrt.Reactor.Entry.{Result, ok, err, outcome}
use asrt.Timer.Queue.{
  TimerEntry, QueuedTimer, TimerEffect, set_time, TimerQueue, find_tag, move_back_to,
  is_next_expiring, is_front, update_timer_fd, recycle_timer_tag,
}

module _ (make_heap : List QueuedTimer → List QueuedTimer) {H : Type 0} where
  -- `RemoveTimerFromQueue`.
  unfoldable pub remove_timer_from_queue : ℕ → TimerQueue H → Result (Unit {0}) × TimerQueue H
  unfolding find_tag move_back_to
  remove_timer_from_queue tag q = elim (find_tag tag q.queued_timers) [
    | none ↦ (err api_error, q)
    | some i ↦ (ok tt, record q { queued_timers = make_heap (move_back_to i q.queued_timers) })
  ]

  add_timer :
      ℕ
      → ℕ
      → ℕ
      → Option ErrorCode
      → TimerQueue H
      → TimerEntry H
      → Result (Unit {0}) × TimerQueue H × List TimerEffect
  unfolding is_next_expiring update_timer_fd
  add_timer tag expiry interval answer q e =
      let q' = record q {
        timers =
            set q.timers tag (record e { expiry = expiry; interval = interval; is_valid = true });
        queued_timers = make_heap (q.queued_timers ++ record { expiry = expiry; tag = tag } ∷ []);
      } in
      if is_next_expiring expiry q.queued_timers
      then (outcome answer, q', set_time expiry ∷ [])
      else (ok tt, q', [])

  -- `DoAddTimer`.
  unfoldable pub do_add_timer :
      ℕ
      → ℕ
      → ℕ
      → Option ErrorCode
      → TimerQueue H
      → Option (Result (Unit {0}) × TimerQueue H × List TimerEffect)
  unfolding add_timer
  do_add_timer tag expiry interval answer q = do
    e ← get_elem? q.timers tag
    some (add_timer tag expiry interval answer q e)

  -- The first half of `DoRemoveTimer`, for a timer that is still valid.
  retire_timer : ℕ → TimerQueue H → TimerEntry H → TimerQueue H
  retire_timer tag q e =
      if e.in_progress
      then record q {
        timers = set q.timers tag (record e { is_valid = false });
        release_handler_memory = true;
      }
      else record q { timers = set q.timers tag (record e { handler = none; is_valid = false }) }

  -- The second half: the front of the new queue decides whether the timerfd is disarmed.
  disarm_if_front :
      ℕ
      → Option ErrorCode
      → Result (Unit {0}) × TimerQueue H
      → Option (Result (Unit {0}) × TimerQueue H × List TimerEffect)
  unfolding is_front update_timer_fd
  disarm_if_front tag answer (err error, q) = some (err error, q, [])
  disarm_if_front tag answer (ok _, q) = do
    front ← is_front tag q.queued_timers
    some (if front then (outcome answer, q, set_time 0 ∷ []) else (ok tt, q, []))

  -- `DoRemoveTimer`.
  unfoldable pub do_remove_timer :
      ℕ
      → Option ErrorCode
      → TimerQueue H
      → Option (Result (Unit {0}) × TimerQueue H × List TimerEffect)
  unfolding retire_timer disarm_if_front
  do_remove_timer tag answer q = do
    e ← get_elem? q.timers tag
    if e.is_valid
        then disarm_if_front tag answer (remove_timer_from_queue tag (retire_timer tag q e))
        else some (ok tt, q, [])

  recycle_on_success :
      ℕ
      → Result (Unit {0}) × TimerQueue H × List TimerEffect
      → Result (Unit {0}) × TimerQueue H × List TimerEffect
  recycle_on_success tag (ok _, q, effects) = (ok tt, recycle_timer_tag tag q, effects)
  recycle_on_success tag (err error, q, effects) = (err error, q, effects)

  -- `Dequeue`.
  unfoldable pub dequeue :
      ℕ
      → Option ErrorCode
      → TimerQueue H
      → Option (Result (Unit {0}) × TimerQueue H × List TimerEffect)
  unfolding recycle_on_success
  dequeue tag answer q = do r ← do_remove_timer tag answer q; some (recycle_on_success tag r)
