-- ===== src/Timer/Queue.antt =====
-- include/asrt/timer/timer_queue.hpp, class TimerQueue: storage of reserved timers, the heap of
-- queued timers, and the timerfd that is armed for the next expiry. Times and durations are counts of
-- nanoseconds that are not negative; a tag is the index of its timer. `none` stands for undefined
-- behaviour: an access out of range, `front()` of an empty vector, or a call of an empty handler.
-- `std::make_heap`, the clock, the answers of timerfd_settime (`none` for success) and the user's
-- handlers are arguments.
pub mod Uses
pub mod Tags
use asrt.Base.{
  ◌>>=◌, ℕ, zero, suc, ◌+◌, ◌%◌, ◌-◌, Bool, true, false, not, ◌&&◌, Option, none, some, List, [],
  ◌∷◌, ◌++◌, ◌==◌, ltb, leb, if◌then◌else◌, length, get_elem?, set, replicate,
}
use asrt.ErrorCode.{ErrorCode, api_error, capacity_exceeded}
use asrt.Reactor.Entry.{Result, ok, err, outcome}

-- `kMaxTimerQueueSize` is 255.
abbrev pub max_timer_count : ℕ
max_timer_count = 254

abbrev pub invalid_timer_tag : ℕ
invalid_timer_tag = 255

-- `kMaxExpiry`, the greatest count of nanoseconds.
abbrev pub max_expiry : ℕ
max_expiry = 9223372036854775807

-- `H` is the type of handlers; `none` is an empty one.
pub record TimerEntry (H : Type 0) : Type 0 where
  pub expiry : ℕ
  pub interval : ℕ
  pub handler : Option H
  pub is_valid : Bool
  pub in_progress : Bool

pub record QueuedTimer : Type 0 where
  pub expiry : ℕ
  pub tag : ℕ

-- `timerfd_settime` to an absolute time, where 0 disarms; and `OnJobArrival` of the executor.
pub data TimerEffect : Type 0 where
  set_time : ℕ → TimerEffect
  job_arrival : TimerEffect

pub record TimerQueue (H : Type 0) : Type 0 where
  pub timers : List (TimerEntry H)
  pub recycle_bin : List ℕ
  pub queued_timers : List QueuedTimer
  pub tag_end : ℕ
  pub release_handler_memory : Bool

-- `find_if` by tag: the index of the first entry of the tag.
unfoldable pub find_tag : ℕ → List QueuedTimer → Option ℕ
find_tag tag [] = none
find_tag tag (x ∷ xs) =
    if x.tag == tag
    then some 0
    else (elim (find_tag tag xs) [ none ↦ none | some i ↦ some (suc i) ])

-- The vector without its last element.
unfoldable pub drop_last : List QueuedTimer → List QueuedTimer
drop_last [] = []
drop_last (x ∷ []) = []
drop_last (x ∷ y ∷ xs) = x ∷ drop_last (y ∷ xs)

-- The last element of a vector that starts with `x`.
unfoldable pub back : QueuedTimer → List QueuedTimer → QueuedTimer
back x [] = x
back x (y ∷ ys) = back y ys

-- What `RemoveTimerFromQueue` does with the vector before it makes a heap again: the entry at the index
-- is overwritten with the last one, and that is dropped.
unfoldable pub move_back_to : ℕ → List QueuedTimer → List QueuedTimer
unfolding drop_last back
move_back_to i [] = []
move_back_to i (x ∷ xs) = drop_last (set (x ∷ xs) i (back x xs))

-- `IsNextExpiring(Expiry)`.
unfoldable pub is_next_expiring : ℕ → List QueuedTimer → Bool
is_next_expiring expiry [] = true
is_next_expiring expiry (x ∷ xs) = ltb expiry x.expiry

-- `IsNextExpiring(TimerTag)`, with `front()` of an empty vector.
unfoldable pub is_front : ℕ → List QueuedTimer → Option Bool
is_front tag [] = none
is_front tag (x ∷ xs) = some (x.tag == tag)

-- `UpdateTimerExpiry` on the queue: the first entry of the tag gets the expiry.
unfoldable pub with_expiry : ℕ → ℕ → List QueuedTimer → List QueuedTimer
with_expiry tag expiry [] = []
with_expiry tag expiry (x ∷ xs) =
    if x.tag == tag then record x { expiry = expiry } ∷ xs else x ∷ with_expiry tag expiry xs

-- `UpdateTimerFd`: a zero expiry disarms.
unfoldable pub update_timer_fd : Option ErrorCode → ℕ → Result (Unit {0}) × List TimerEffect
update_timer_fd answer expiry = (outcome answer, set_time expiry ∷ [])

module _ {H : Type 0} where
  -- The constructor, once the timerfd is there.
  abbrev pub new_queue : TimerQueue H
  new_queue = record {
    timers = replicate max_timer_count (record {
      expiry = max_expiry;
      interval = 0;
      handler = none;
      is_valid = false;
      in_progress = false;
    });
    recycle_bin = [];
    queued_timers = [];
    tag_end = 0;
    release_handler_memory = false;
  }

  -- `GetNextAvailableTag`. `tag_end_` is a `std::uint8_t`.
  unfoldable pub get_next_available_tag : TimerQueue H → Result ℕ × TimerQueue H
  get_next_available_tag q =
      if leb q.tag_end max_timer_count
      then elim q.recycle_bin [
        | [] ↦ (ok q.tag_end, record q { tag_end = (q.tag_end + 1) % 256 })
        | tag ∷ rest ↦ (ok tag, record q { recycle_bin = rest })
      ]
      else (err capacity_exceeded, q)

  reserve_tag : H → Result ℕ × TimerQueue H → Option (Result ℕ × TimerQueue H)
  reserve_tag h (err error, q) = some (err error, q)
  reserve_tag h (ok tag, q) = do
    e ← get_elem? q.timers tag
    some (
      ok tag,
      record q { timers = set q.timers tag (record e { handler = some h; in_progress = false }) },
    )

  -- `Reserve`.
  unfoldable pub reserve : H → TimerQueue H → Option (Result ℕ × TimerQueue H)
  unfolding reserve_tag
  reserve h q = reserve_tag h (get_next_available_tag q)

  -- `RecycleTimerTag`.
  unfoldable pub recycle_timer_tag : ℕ → TimerQueue H → TimerQueue H
  recycle_timer_tag tag q = record q { recycle_bin = q.recycle_bin ++ tag ∷ [] }
