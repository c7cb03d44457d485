-- ===== src/MessageQueue.antt =====
-- include/asrt/client_server/message_queue.hpp, class ThreadSafeQueue: the deque behind the mutex.
-- `none` is an access to an empty deque; `Pop`, which waits until there is an item, has none to return
-- as long as it waits.
pub mod Order
use asrt.Base.{ℕ, zero, suc, Bool, true, false, Option, none, some, List, [], ◌∷◌, ◌++◌}

module _ {T : Type 0} where
  unfoldable pub is_empty : List T → Bool
  is_empty [] = true
  is_empty (item ∷ queue) = false

  unfoldable pub front : List T → Option T
  front [] = none
  front (item ∷ queue) = some item

  -- `pop_back` of a deque that starts with `item`.
  unfoldable pub pop_back : T → List T → List T
  pop_back item [] = []
  pop_back item (next ∷ queue) = item ∷ pop_back next queue

  -- `PopFront`, and `Pop` behind its wait.
  unfoldable pub pop_front : List T → Option (T × List T)
  unfolding pop_back
  pop_front [] = none
  pop_front (item ∷ queue) = some (item, pop_back item queue)

  -- `PushBack`, and `EmplaceBack`, which copies too.
  unfoldable pub push_back : T → List T → List T
  push_back item queue = queue ++ item ∷ []

  unfoldable pub clear : List T → List T
  clear queue = []
