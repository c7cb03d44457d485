-- ===== src/Util/Removal.antt =====
-- What a removal leaves, by the number of times that each value occurs.
use asrt.Base.{
  Bool-cases, lt_of_get_elem?, inl, inr, ◌⊎◌, Option-cases, ℕ, zero, suc, ◌+◌, ◌<◌, ◌≡◌, refl, ap,
  ◌∙◌, Bool, none, some, List, [], ◌∷◌, ◌==◌, ==_iff, length, length-set, set, get_elem?,
  if◌then◌else◌, arith,
}
use asrt.Util.{find_value, pop_back, back, quick_remove_at, quick_remove_one_if}

abbrev pub one_if : Bool → ℕ
one_if b = if b then 1 else 0

abbrev pub count : ℕ → List ℕ → ℕ
count y [] = 0
count y (x ∷ xs) = one_if (x == y) + count y xs

count-pop_back :
    (y x : ℕ) (xs : List ℕ)
    → count y (pop_back (x ∷ xs)) + one_if (back x xs == y) ≡ count y (x ∷ xs)
count-pop_back y x [] = omega arith
count-pop_back y x (w ∷ ws) = omega (arith, count-pop_back y w ws)

-- The last element moved to position `i`, where `z` stood.
count-pop_back-set :
    (y x : ℕ) (xs : List ℕ) (i z : ℕ)
    → i < length xs
    → get_elem? (x ∷ xs) i ≡ some z
    → count y (pop_back (set (x ∷ xs) i (back x xs))) + one_if (z == y) ≡ count y (x ∷ xs)
count-pop_back-set y x [] i z small e = elim small [ ]
count-pop_back-set y x (w ∷ ws) zero z small e = ground (arith, count-pop_back y w ws)
count-pop_back-set y x (w ∷ []) (suc i) z small e = absurd (omega arith)
count-pop_back-set y x (w ∷ v ∷ vs) (suc zero) z small e =
    omega (arith, count-pop_back-set y w (v ∷ vs) zero z (omega arith) e)
count-pop_back-set y x (w ∷ v ∷ vs) (suc (suc i)) z small e =
    omega (arith, count-pop_back-set y w (v ∷ vs) (suc i) z (omega arith) e)

length-pop_back : (x : ℕ) (xs : List ℕ) → length (pop_back (x ∷ xs)) ≡ length xs
length-pop_back x [] = refl
length-pop_back x (y ∷ ys) = ap suc (length-pop_back y ys)

length-pop_back-set :
    (x : ℕ) (xs : List ℕ) (i v : ℕ) → length (pop_back (set (x ∷ xs) i v)) ≡ length xs
length-pop_back-set x xs zero v = length-pop_back v xs
length-pop_back-set x xs (suc i) v = length-pop_back x (set xs i v) ∙ length-set xs i v

length-quick_remove_at : (i x : ℕ) (xs : List ℕ) → length (quick_remove_at i (x ∷ xs)) ≡ length xs
unfolding quick_remove_at
length-quick_remove_at i x xs =
    ground (arith, length-pop_back x xs, length-pop_back-set x xs i (back x xs))

-- A listed id can be removed, and the list is then shorter by one.
pub removes_one :
    (x i : ℕ) (xs : List ℕ)
    → find_value x xs ≡ some i
    → length (quick_remove_at i xs) + 1 ≡ length xs
removes_one x i [] e = ground arith
removes_one x i (z ∷ zs) e = omega (arith, length-quick_remove_at i z zs)

get_elem?-back : (x : ℕ) (xs : List ℕ) → get_elem? (x ∷ xs) (length xs) ≡ some (back x xs)
get_elem?-back x [] = refl
get_elem?-back x (w ∷ ws) = get_elem?-back w ws

count-quick_remove_at :
    (y z i : ℕ) (xs : List ℕ)
    → get_elem? xs i ≡ some z
    → count y (quick_remove_at i xs) + one_if (z == y) ≡ count y xs
unfolding quick_remove_at
count-quick_remove_at y z i [] e = ground arith
count-quick_remove_at y z i (x ∷ xs) e = elim (Bool-cases (i == length xs)) [
  | inl last ↦
      let same : i ≡ length xs = (==_iff i (length xs)).0 last in
      let at_back : z ≡ back x xs =
        ground (arith, get_elem?-back x xs, ap (get_elem? (x ∷ xs)) same) in
      rw last (rw at_back (count-pop_back y x xs))
  | inr other ↦ rw other (
      count-pop_back-set y x xs i z
        (ground (arith, lt_of_get_elem? (x ∷ xs) i e, ==_iff i (length xs))) e)
]

-- Where a value is found, and where it is not.
pub find_value-some : (x i : ℕ) (xs : List ℕ) → find_value x xs ≡ some i → get_elem? xs i ≡ some x
find_value-some x i [] e = ground arith
find_value-some x zero (y ∷ ys) e = ground (arith, ==_iff y x)
find_value-some x (suc i) (y ∷ ys) e = ground (arith, find_value-some x i ys)

pub find_value-none : (x : ℕ) (xs : List ℕ) → find_value x xs ≡ none → count x xs ≡ 0
find_value-none x [] e = refl
find_value-none x (y ∷ ys) e = ground (arith, find_value-none x ys)

-- A removal takes one occurrence of the value away, if there is one.
pub count-quick_remove_one_if :
    (x y : ℕ) (xs : List ℕ)
    → count y (quick_remove_one_if x xs) + one_if (x == y) ≡ count y xs
      ⊎ (count x xs ≡ 0) × (quick_remove_one_if x xs ≡ xs)
unfolding quick_remove_one_if
count-quick_remove_one_if x y xs = elim (Option-cases (find_value x xs)) [
  | inl absent ↦ inr (find_value-none x xs absent, rw (absent, quick_remove_one_if) refl)
  | inr (i, found) ↦ inl (
      rw (found, quick_remove_one_if)
        (count-quick_remove_at y x i xs (find_value-some x i xs found)))
]
