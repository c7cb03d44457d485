-- ===== src/Timer/Schedule/Removal.antt =====
-- What `DoRemoveTimer` and `Dequeue` do for a timer that is queued.
use asrt.Base.{
  ℕ, zero, suc, ◌+◌, ◌-◌, ◌≤◌, ◌<◌, ◌≡◌, ◌≢◌, refl, true, false, Option, none, some, List, [], ◌∷◌,
  arith, ◌==◌, if◌then◌else◌, length, set, length-set, get_elem?, Bool-cases, inl, inr, ap, ◌∙◌,
}
use asrt.ErrorCode.{ErrorCode}
use asrt.Reactor.Entry.{ok}
use asrt.Timer.Queue.{
  TimerEntry, QueuedTimer, TimerQueue, find_tag, drop_last, back, move_back_to, is_front,
}
use asrt.Timer.Schedule.{
  remove_timer_from_queue, do_remove_timer, retire_timer, disarm_if_front, dequeue,
}
use asrt.Timer.Schedule.Heap.{
  NotBefore, IsHeap, count_tag, MakesHeap, count-move_back_to, NotBefore-move_back_to,
}
use asrt.Timer.Schedule.Armed.{IsArmed, IsArmed-of}

pub find_tag-of_count :
    (tag : ℕ) (xs : List QueuedTimer) → count_tag tag xs ≢ 0 → (i : ℕ) × (find_tag tag xs ≡ some i)
unfolding find_tag
find_tag-of_count tag [] h = absurd (h refl)
find_tag-of_count tag (x ∷ xs) h = elim (Bool-cases (x.tag == tag)) [
  | inl here ↦ (0, ground arith)
  | inr there ↦ let (i, found) = find_tag-of_count tag xs (ground arith) in (suc i, ground arith)
]

length-drop_last :
    (x : QueuedTimer) (xs : List QueuedTimer) → length (drop_last (x ∷ xs)) ≡ length xs
unfolding drop_last
length-drop_last x [] = refl
length-drop_last x (y ∷ ys) = ground (arith, length-drop_last y ys)

length-move_back_to :
    (i : ℕ) (x : QueuedTimer) (xs : List QueuedTimer) → length (move_back_to i (x ∷ xs)) ≡ length xs
unfolding move_back_to
length-move_back_to zero x xs = length-drop_last (back x xs) xs
length-move_back_to (suc i) x xs =
    length-drop_last x (set xs i (back x xs)) ∙ length-set xs i (back x xs)

pub length-removed : (i : ℕ) (xs : List QueuedTimer) → length (move_back_to i xs) ≡ length xs - 1
unfolding move_back_to
length-removed i [] = refl
length-removed i (x ∷ xs) = ground (arith, length-move_back_to i x xs)

is_front-other :
    (tag : ℕ) (xs : List QueuedTimer)
    → count_tag tag xs ≡ 0
    → 0 < length xs
    → is_front tag xs ≡ some false
unfolding is_front
is_front-other tag [] h k = absurd (omega arith)
is_front-other tag (x ∷ xs) h k = ground arith

is_front-nil : (tag : ℕ) (xs : List QueuedTimer) → length xs ≡ 0 → is_front tag xs ≡ none
unfolding is_front
is_front-nil tag [] h = refl
is_front-nil tag (x ∷ xs) h = absurd (omega arith)

IsArmed-bound :
    (armed : Option ℕ) (xs ys : List QueuedTimer)
    → 0 < length xs
    → IsArmed armed xs
    → ((t : ℕ) → NotBefore t xs → NotBefore t ys)
    → IsArmed armed ys
IsArmed-bound armed [] ys h a f = absurd (omega arith)
IsArmed-bound armed (x ∷ xs) ys h a f = IsArmed-of a.0 armed ys a.1 (f a.0 a.2)

module _ (make_heap : List QueuedTimer → List QueuedTimer) {H : Type 0} where
  -- The queue that removal of the entry at `i` leaves.
  unfoldable pub without : ℕ → TimerQueue H → TimerQueue H
  without i q = record q { queued_timers = make_heap (move_back_to i q.queued_timers) }

  pub removed :
      (tag i : ℕ) (q : TimerQueue H)
      → find_tag tag q.queued_timers ≡ some i
      → remove_timer_from_queue make_heap tag q ≡ (ok tt, without i q)
  unfolding remove_timer_from_queue without
  removed tag i q h = rw (h, remove_timer_from_queue) refl

  -- The timer's entry is valid, and the queue has the timer once.
  pub record IsQueued (tag : ℕ) (q : TimerQueue H) : Type 0 where
    pub entry : TimerEntry H
    pub present : get_elem? q.timers tag ≡ some entry
    pub valid : entry.is_valid ≡ true
    pub once : count_tag tag q.queued_timers ≡ 1

  do_remove_timer-step :
      (tag : ℕ) (answer : Option ErrorCode) (q : TimerQueue H) (v : IsQueued tag q)
      → do_remove_timer make_heap tag answer q
        ≡ disarm_if_front make_heap tag answer
            (remove_timer_from_queue make_heap tag (retire_timer make_heap tag q v.entry))
  unfolding do_remove_timer
  do_remove_timer-step tag answer q v = rw (v.present, v.valid, do_remove_timer) refl

  retire_timer-queue :
      (tag : ℕ) (q : TimerQueue H) (e : TimerEntry H)
      → (retire_timer make_heap tag q e).queued_timers ≡ q.queued_timers
  unfolding retire_timer
  retire_timer-queue tag q e = ground arith

  disarm-step :
      (tag : ℕ) (answer : Option ErrorCode) (q : TimerQueue H)
      → is_front tag q.queued_timers ≡ some false
      → disarm_if_front make_heap tag answer (ok tt, q) ≡ some (ok tt, q, [])
  unfolding disarm_if_front
  disarm-step tag answer q h = rw h refl

  disarm-fault :
      (tag : ℕ) (answer : Option ErrorCode) (q : TimerQueue H)
      → is_front tag q.queued_timers ≡ none
      → disarm_if_front make_heap tag answer (ok tt, q) ≡ none
  unfolding disarm_if_front
  disarm-fault tag answer q h = rw h refl

  -- The removal, up to the test of the new front.
  removal :
      (tag : ℕ) (answer : Option ErrorCode) (q : TimerQueue H) (v : IsQueued tag q)
      → (i : ℕ) × (find_tag tag q.queued_timers ≡ some i)
        × (do_remove_timer make_heap tag answer q
            ≡ disarm_if_front make_heap tag answer
                (ok tt, without i (retire_timer make_heap tag q v.entry)))
        × ((without i (retire_timer make_heap tag q v.entry)).queued_timers
            ≡ make_heap (move_back_to i q.queued_timers))
  unfolding without
  removal tag answer q v =
      let (i, found) =
        find_tag-of_count tag q.queued_timers (λ z. absurd (omega (arith, z, v.once))) in
      let same = retire_timer-queue tag q v.entry in
      let r =
        removed tag i (retire_timer make_heap tag q v.entry) (ap (find_tag tag) same ∙ found) in
      (
        i,
        found,
        do_remove_timer-step tag answer q v ∙ ap (disarm_if_front make_heap tag answer) r,
        ap (λ xs. make_heap (move_back_to i xs)) same,
      )

  -- With `make_heap` as documented and a timerfd armed in time for the queue: removing a valid timer
  -- that is queued once, beside others, succeeds and makes no call of timerfd_settime, even if the
  -- timer was the next to expire; it takes the timer out of the queue and no other, the queue is a
  -- heap, and the timerfd is still in time for it.
  pub do_remove_timer-Kept :
      (tag : ℕ) (answer : Option ErrorCode) (q : TimerQueue H) (armed : Option ℕ)
      → MakesHeap make_heap
      → IsQueued tag q
      → 2 ≤ length q.queued_timers
      → IsArmed armed q.queued_timers
      → (q' : TimerQueue H) × (do_remove_timer make_heap tag answer q ≡ some (ok tt, q', []))
        × IsHeap q'.queued_timers
        × IsArmed armed q'.queued_timers
        × ((other : ℕ)
            → count_tag other q'.queued_timers + (if tag == other then 1 else 0)
              ≡ count_tag other q.queued_timers)
  do_remove_timer-Kept tag answer q armed mh v more a =
      let (i, found, eq, queue) = removal tag answer q v in
      let xs = move_back_to i q.queued_timers in
      let q' = without i (retire_timer make_heap tag q v.entry) in
      let count : (other : ℕ)
          → count_tag other q'.queued_timers + (if tag == other then 1 else 0)
            ≡ count_tag other q.queued_timers =
        λ other.
          rw (queue, mh.same_count xs other)
            (count-move_back_to tag other q.queued_timers i found) in
      let gone : count_tag tag q'.queued_timers ≡ 0 = ground (arith, count tag, v.once) in
      let size : 0 < length q'.queued_timers =
        rw (queue, mh.same_length xs, length-removed i q.queued_timers) (omega arith) in
      (
        q',
        eq ∙ disarm-step tag answer q' (is_front-other tag q'.queued_timers gone size),
        rw queue (mh.front_earliest xs),
        rw queue (
            IsArmed-bound armed q.queued_timers (make_heap xs) (omega arith) a
              (λ t b. mh.same_bounds xs t (NotBefore-move_back_to t q.queued_timers i b))),
        count,
      )

  -- With `make_heap` as documented: removing a valid timer that is the only one queued, by
  -- `DoRemoveTimer` or `Dequeue`, reads the front of the queue after it has become empty, which is
  -- undefined behaviour.
  pub dequeue_last_faults :
      (tag : ℕ) (answer : Option ErrorCode) (q : TimerQueue H)
      → MakesHeap make_heap
      → IsQueued tag q
      → length q.queued_timers ≡ 1
      → (do_remove_timer make_heap tag answer q ≡ none) × (dequeue make_heap tag answer q ≡ none)
  unfolding dequeue
  dequeue_last_faults tag answer q mh v last =
      let (i, found, eq, queue) = removal tag answer q v in
      let xs = move_back_to i q.queued_timers in
      let q' = without i (retire_timer make_heap tag q v.entry) in
      let size : length q'.queued_timers ≡ 0 =
        rw (queue, mh.same_length xs, length-removed i q.queued_timers) (omega arith) in
      let fault = eq ∙ disarm-fault tag answer q' (is_front-nil tag q'.queued_timers size) in
      (fault, rw fault refl)
