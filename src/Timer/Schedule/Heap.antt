-- ===== src/Timer/Schedule/Heap.antt =====
-- `std::make_heap` as the timer queue uses it, and the vector that the queue hands to it.
use asrt.Base.{
  ℕ, zero, suc, ◌+◌, ◌≤◌, ◌≡◌, refl, some, List, [], ◌∷◌, ◌++◌, arith, ◌==◌, if◌then◌else◌, length,
  set, All, ap,
}
use asrt.Timer.Queue.{QueuedTimer, find_tag, drop_last, back, move_back_to}

-- Every entry of `xs` expires at `expiry` or later.
abbrev pub NotBefore : ℕ → List QueuedTimer → Type 0
NotBefore expiry xs = All (λ x. expiry ≤ x.expiry) xs

-- The front entry is the earliest.
abbrev pub IsHeap : List QueuedTimer → Type 0
IsHeap [] = Unit
IsHeap (x ∷ xs) = NotBefore x.expiry xs

-- How often a tag is queued.
abbrev pub count_tag : ℕ → List QueuedTimer → ℕ
count_tag tag [] = 0
count_tag tag (x ∷ xs) = (if x.tag == tag then 1 else 0) + count_tag tag xs

-- The documented behaviour of `std::make_heap` under "expires later": it rearranges the entries and
-- puts an earliest one in front.
pub record MakesHeap (make_heap : List QueuedTimer → List QueuedTimer) : Type 0 where
  pub front_earliest : (xs : List QueuedTimer) → IsHeap (make_heap xs)
  pub same_count :
      (xs : List QueuedTimer) (tag : ℕ) → count_tag tag (make_heap xs) ≡ count_tag tag xs
  pub same_length : (xs : List QueuedTimer) → length (make_heap xs) ≡ length xs
  pub same_bounds :
      (xs : List QueuedTimer) (expiry : ℕ) → NotBefore expiry xs → NotBefore expiry (make_heap xs)

abbrev one : ℕ → QueuedTimer → ℕ
one tag x = if x.tag == tag then 1 else 0

back_self : (x : QueuedTimer) (xs : List QueuedTimer) → back (back x xs) xs ≡ back x xs
unfolding back
back_self x [] = refl
back_self x (y ∷ ys) = refl

back-set :
    (d : QueuedTimer) (xs : List QueuedTimer) (i : ℕ) → back d (set xs i (back d xs)) ≡ back d xs
unfolding back
back-set d [] i = refl
back-set d (y ∷ ys) zero = back_self y ys
back-set d (y ∷ ys) (suc i) = back-set y ys i

count-drop_last :
    (tag : ℕ) (x : QueuedTimer) (xs : List QueuedTimer)
    → count_tag tag (drop_last (x ∷ xs)) + one tag (back x xs) ≡ count_tag tag (x ∷ xs)
unfolding drop_last back
count-drop_last tag x [] = omega arith
count-drop_last tag x (y ∷ ys) = omega (arith, count-drop_last tag y ys)

count-set :
    (found tag : ℕ) (xs : List QueuedTimer) (i : ℕ) (b : QueuedTimer)
    → find_tag found xs ≡ some i
    → count_tag tag (set xs i b) + (if found == tag then 1 else 0) ≡ count_tag tag xs + one tag b
unfolding find_tag
count-set found tag [] i b h = cc
count-set found tag (x ∷ xs) zero b h = ground arith
count-set found tag (x ∷ xs) (suc i) b h = ground (arith, count-set found tag xs i b)

find_tag-nil : (found i : ℕ) → ¬ (find_tag found [] ≡ some i)
unfolding find_tag
find_tag-nil found i h = cc

-- Taking out the entry that was found lowers the count of its tag by one, and no other.
pub count-move_back_to :
    (found tag : ℕ) (xs : List QueuedTimer) (i : ℕ)
    → find_tag found xs ≡ some i
    → count_tag tag (move_back_to i xs) + (if found == tag then 1 else 0) ≡ count_tag tag xs
unfolding move_back_to
count-move_back_to found tag [] i h = absurd (find_tag-nil found i h)
count-move_back_to found tag (x ∷ xs) zero h = omega (
  arith,
  count-drop_last tag (back x xs) xs,
  ap (one tag) (back_self x xs),
  count-set found tag (x ∷ xs) 0 (back x xs) h,
)
count-move_back_to found tag (x ∷ xs) (suc i) h = omega (
  arith,
  count-drop_last tag x (set xs i (back x xs)),
  ap (one tag) (back-set x xs i),
  count-set found tag (x ∷ xs) (suc i) (back x xs) h,
)

NotBefore-back :
    (e : ℕ) (x : QueuedTimer) (xs : List QueuedTimer)
    → NotBefore e (x ∷ xs)
    → e ≤ (back x xs).expiry
unfolding back
NotBefore-back e x [] h = h.0
NotBefore-back e x (y ∷ ys) h = NotBefore-back e y ys h.1

NotBefore-set :
    (e : ℕ) (xs : List QueuedTimer) (i : ℕ) (b : QueuedTimer)
    → e ≤ b.expiry
    → NotBefore e xs
    → NotBefore e (set xs i b)
NotBefore-set e [] i b k h = tt
NotBefore-set e (x ∷ xs) zero b k h = (k, h.1)
NotBefore-set e (x ∷ xs) (suc i) b k h = (h.0, NotBefore-set e xs i b k h.1)

NotBefore-drop_last : (e : ℕ) (xs : List QueuedTimer) → NotBefore e xs → NotBefore e (drop_last xs)
unfolding drop_last
NotBefore-drop_last e [] h = tt
NotBefore-drop_last e (x ∷ []) h = tt
NotBefore-drop_last e (x ∷ y ∷ xs) h = (h.0, NotBefore-drop_last e (y ∷ xs) h.1)

pub NotBefore-move_back_to :
    (e : ℕ) (xs : List QueuedTimer) (i : ℕ) → NotBefore e xs → NotBefore e (move_back_to i xs)
unfolding move_back_to
NotBefore-move_back_to e [] i h = tt
NotBefore-move_back_to e (x ∷ xs) i h =
    NotBefore-drop_last e _ (NotBefore-set e (x ∷ xs) i (back x xs) (NotBefore-back e x xs h) h)

pub NotBefore-append :
    (e : ℕ) (xs : List QueuedTimer) (x : QueuedTimer)
    → NotBefore e xs
    → e ≤ x.expiry
    → NotBefore e (xs ++ x ∷ [])
NotBefore-append e [] x h k = (k, tt)
NotBefore-append e (y ∷ ys) x h k = (h.0, NotBefore-append e ys x h.1 k)

pub NotBefore-weaken : (e f : ℕ) (xs : List QueuedTimer) → e ≤ f → NotBefore f xs → NotBefore e xs
NotBefore-weaken e f [] k h = tt
NotBefore-weaken e f (x ∷ xs) k h = (omega arith, NotBefore-weaken e f xs k h.1)

pub count-append :
    (tag : ℕ) (xs : List QueuedTimer) (x : QueuedTimer)
    → count_tag tag (xs ++ x ∷ []) ≡ count_tag tag xs + one tag x
count-append tag [] x = omega arith
count-append tag (y ∷ ys) x = omega (arith, count-append tag ys x)
