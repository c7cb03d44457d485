-- ===== src/Timer/Tests.antt =====
-- The timer queue's theorems on concrete queues, with a `make_heap` that brings an earliest entry to
-- the front.
use asrt.Base.{
  zero, ℕ, suc, ◌+◌, ◌≤◌, ◌≡◌, ◌≢◌, ◌↔◌, refl, true, false, none, some, List, [], ◌∷◌, arith, ◌==◌,
  leb, if◌then◌else◌, length, Bool-cases, inl, inr,
}
use asrt.Reactor.Entry.{ok}
use asrt.Timer.Queue.{
  TimerEntry, QueuedTimer, TimerEffect, TimerQueue, reserve, get_next_available_tag,
  recycle_timer_tag,
}
use asrt.Timer.Queue.Tags.{tags_unique, reserve_iff}
use asrt.Timer.Queue.Uses.{occurs, Use, reserves, recycles, Users, no_users, run_uses, use_step}
use asrt.Timer.Schedule.{do_add_timer, do_remove_timer}
use asrt.Timer.Schedule.Heap.{NotBefore, IsHeap, count_tag, MakesHeap, NotBefore-weaken}
use asrt.Timer.Schedule.Armed.{IsArmed, Kept, do_add_timer-Armed}
use asrt.Timer.Expiry.{handle_expiry}
use asrt.Timer.Expiry.OneShot.{idle, rearmed, IsOneShot, IsUndue, IsCaughtUp, one_shots_expire}
use asrt.Timer.Schedule.Removal.{do_remove_timer-Kept}

abbrev insert_front : QueuedTimer → List QueuedTimer → List QueuedTimer
insert_front x [] = x ∷ []
insert_front x (y ∷ ys) = if leb x.expiry y.expiry then x ∷ y ∷ ys else y ∷ x ∷ ys

abbrev earliest_first : List QueuedTimer → List QueuedTimer
earliest_first [] = []
earliest_first (x ∷ xs) = insert_front x (earliest_first xs)

insert_front-IsHeap :
    (x : QueuedTimer) (ys : List QueuedTimer) → IsHeap ys → IsHeap (insert_front x ys)
insert_front-IsHeap x [] h = tt
insert_front-IsHeap x (y ∷ ys) h = elim (Bool-cases (leb x.expiry y.expiry)) [
  | inl first ↦
      let less : x.expiry ≤ y.expiry = ground arith in
      rw first (less, NotBefore-weaken x.expiry y.expiry ys less h)
  | inr later ↦ rw later (ground arith, h)
]

insert_front-count :
    (x : QueuedTimer) (ys : List QueuedTimer) (tag : ℕ)
    → count_tag tag (insert_front x ys) ≡ count_tag tag (x ∷ ys)
insert_front-count x [] tag = refl
insert_front-count x (y ∷ ys) tag = ground arith

insert_front-length :
    (x : QueuedTimer) (ys : List QueuedTimer) → length (insert_front x ys) ≡ length (x ∷ ys)
insert_front-length x [] = refl
insert_front-length x (y ∷ ys) = ground arith

insert_front-bounds :
    (x : QueuedTimer) (ys : List QueuedTimer) (e : ℕ)
    → NotBefore e (x ∷ ys)
    → NotBefore e (insert_front x ys)
insert_front-bounds x [] e h = h
insert_front-bounds x (y ∷ ys) e h = ground arith

earliest_first-IsHeap : (xs : List QueuedTimer) → IsHeap (earliest_first xs)
earliest_first-IsHeap [] = tt
earliest_first-IsHeap (x ∷ xs) =
    insert_front-IsHeap x (earliest_first xs) (earliest_first-IsHeap xs)

earliest_first-count :
    (xs : List QueuedTimer) (tag : ℕ) → count_tag tag (earliest_first xs) ≡ count_tag tag xs
earliest_first-count [] tag = refl
earliest_first-count (x ∷ xs) tag =
    omega (arith, insert_front-count x (earliest_first xs) tag, earliest_first-count xs tag)

earliest_first-length : (xs : List QueuedTimer) → length (earliest_first xs) ≡ length xs
earliest_first-length [] = refl
earliest_first-length (x ∷ xs) =
    omega (arith, insert_front-length x (earliest_first xs), earliest_first-length xs)

earliest_first-bounds :
    (xs : List QueuedTimer) (e : ℕ) → NotBefore e xs → NotBefore e (earliest_first xs)
earliest_first-bounds [] e h = tt
earliest_first-bounds (x ∷ xs) e h =
    insert_front-bounds x (earliest_first xs) e (h.0, earliest_first-bounds xs e h.1)

earliest_first-MakesHeap : MakesHeap earliest_first
earliest_first-MakesHeap = record {
  front_earliest = earliest_first-IsHeap;
  same_count = earliest_first-count;
  same_length = earliest_first-length;
  same_bounds = earliest_first-bounds;
}

abbrev waiting : TimerEntry ℕ
waiting = record {
  expiry = 50;
  interval = 0;
  handler = some 7;
  is_valid = true;
  in_progress = false;
}

abbrev two_queued : TimerQueue ℕ
two_queued = record {
  timers = waiting ∷ waiting ∷ [];
  recycle_bin = [];
  queued_timers = record { expiry = 40; tag = 1 } ∷ record { expiry = 50; tag = 0 } ∷ [];
  tag_end = 2;
  release_handler_memory = false;
}

abbrev one_queued : TimerQueue ℕ
one_queued = record two_queued { queued_timers = record { expiry = 50; tag = 0 } ∷ [] }

do_add_timer-Armed_example :
    (q' : TimerQueue ℕ) × (effects : List TimerEffect) × (do_add_timer earliest_first 1 30 0 none
        one_queued
      ≡ some (ok tt, q', effects))
    × Kept earliest_first one_queued q' (some 50) effects
    × ((other : ℕ)
        → count_tag other q'.queued_timers
          ≡ count_tag other one_queued.queued_timers + (if 1 == other then 1 else 0))
do_add_timer-Armed_example =
    do_add_timer-Armed earliest_first 1 30 0 one_queued (some 50) earliest_first-MakesHeap
      (omega arith) (omega arith) tt (50, refl, (omega arith, tt))

do_remove_timer-Kept_example :
    (q' : TimerQueue ℕ) × (do_remove_timer earliest_first 1 none two_queued ≡ some (ok tt, q', []))
    × IsHeap q'.queued_timers
    × IsArmed (some 40) q'.queued_timers
    × ((other : ℕ)
        → count_tag other q'.queued_timers + (if 1 == other then 1 else 0)
          ≡ count_tag other two_queued.queued_timers)
do_remove_timer-Kept_example =
    do_remove_timer-Kept earliest_first 1 none two_queued (some 40) earliest_first-MakesHeap
      (record { entry = waiting; present = refl; valid = refl; once = refl }) (omega arith)
      (40, refl, (omega arith, (omega arith, tt)))

abbrev reserve_and_recycle : List (Use ℕ)
reserve_and_recycle = reserves 7 ∷ reserves 8 ∷ recycles 0 ∷ []

abbrev users_after : Users ℕ
users_after = elim (run_uses no_users reserve_and_recycle) [ none ↦ no_users | some u ↦ u ]

tags_unique_example :
    (occurs 1 users_after.held + occurs 1 users_after.queue.recycle_bin ≤ 1)
    × (occurs 1 users_after.held ≢ 0 → suc 1 ≤ length users_after.queue.timers)
unfolding run_uses use_step reserve recycle_timer_tag get_next_available_tag
tags_unique_example = tags_unique reserve_and_recycle users_after refl 1

reserve_iff_example :
    ((reserve 9 users_after.queue ≡ none)
      ↔ ((users_after.queue.tag_end ≡ 254) × (users_after.queue.recycle_bin ≡ [])))
    × (((tag : ℕ) × (q : TimerQueue ℕ) × (reserve 9 users_after.queue ≡ some (ok tag, q)))
        ↔ ¬ ((users_after.queue.tag_end ≡ 254) × (users_after.queue.recycle_bin ≡ [])))
unfolding run_uses use_step reserve recycle_timer_tag get_next_available_tag
reserve_iff_example = reserve_iff reserve_and_recycle users_after 9 refl

two_queued-IsOneShot :
    (tag : ℕ)
    → count_tag tag two_queued.queued_timers ≢ 0
    → IsOneShot earliest_first two_queued.timers tag
two_queued-IsOneShot zero h = (waiting, 7, refl, refl, refl)
two_queued-IsOneShot (suc zero) h = (waiting, 7, refl, refl, refl)
two_queued-IsOneShot (suc (suc tag)) h = absurd (h (ground arith))

abbrev clock_from_49 : ℕ → ℕ
clock_from_49 i = 49 + i

one_shots_expire_example :
    (q' : TimerQueue ℕ) × (handle_expiry earliest_first
        (idle earliest_first)
        clock_from_49
        3
        two_queued
      ≡ some (q', rearmed q'.queued_timers))
    × IsCaughtUp earliest_first clock_from_49 q'
    × ((tag : ℕ) → count_tag tag q'.queued_timers ≤ count_tag tag two_queued.queued_timers)
    × ((tag : ℕ)
        → IsUndue earliest_first clock_from_49 6 two_queued.timers tag
        → count_tag tag q'.queued_timers ≡ count_tag tag two_queued.queued_timers)
one_shots_expire_example =
    one_shots_expire earliest_first clock_from_49 3 two_queued earliest_first-MakesHeap
      (record { one_shot = two_queued-IsOneShot; quiet = refl }) (omega arith, tt) (omega arith)
