-- ===== src/Util.antt =====
-- include/asrt/util.hpp: the removal of one element of a vector, whose place the last one takes. Elements
-- are numbers.
pub mod Removal
use asrt.Base.{ℕ, suc, Option, none, some, List, [], ◌∷◌, ◌==◌, length, set, if◌then◌else◌}

-- The position of the first element that equals `x`, as std::find.
abbrev pub find_value : ℕ → List ℕ → Option ℕ
find_value x [] = none
find_value x (y ∷ ys) =
    if y == x then some 0 else elim (find_value x ys) [ none ↦ none | some i ↦ some (suc i) ]

abbrev pub pop_back : List ℕ → List ℕ
pop_back [] = []
pop_back (x ∷ []) = []
pop_back (x ∷ y ∷ ys) = x ∷ pop_back (y ∷ ys)

-- The last element of `x ∷ xs`.
abbrev pub back : ℕ → List ℕ → ℕ
back x [] = x
back x (y ∷ ys) = back y ys

-- `QuickRemoveOne` at a position: the last element takes the place of the one removed.
unfoldable pub quick_remove_at : ℕ → List ℕ → List ℕ
quick_remove_at i [] = []
quick_remove_at i (x ∷ xs) =
    if i == length xs then pop_back (x ∷ xs) else pop_back (set (x ∷ xs) i (back x xs))

-- `QuickRemoveOne` of a value; `none` where its assertion fails.
unfoldable pub quick_remove_one : ℕ → List ℕ → Option (List ℕ)
unfolding quick_remove_at
quick_remove_one x xs = elim (find_value x xs) [
  | none ↦ none
  | some i ↦ some (quick_remove_at i xs)
]

-- `QuickRemoveOneIf`, of the first element that equals `x`.
unfoldable pub quick_remove_one_if : ℕ → List ℕ → List ℕ
unfolding quick_remove_at
quick_remove_one_if x xs = elim (find_value x xs) [ none ↦ xs | some i ↦ quick_remove_at i xs ]
