-- ===== src/MessageQueue/Order.antt =====
-- What the users of the queue get out of it.
use asrt.Base.{
  ℕ, zero, suc, ◌≡◌, refl, Option, none, some, List, [], ◌∷◌, ◌++◌, arith, length, ap, sym, ◌∙◌,
  replicate, append_assoc, append-nil,
}
use asrt.MessageQueue.{pop_back, pop_front, push_back}

module _ {T : Type 0} where
  -- `n` items taken one after the other, and the queue that is left.
  unfoldable pub pops : ℕ → List T → Option (List T × List T)
  unfolding pop_front
  pops zero queue = some ([], queue)
  pops (suc n) queue = elim (pop_front queue) [
    | none ↦ none
    | some (item, rest) ↦ elim (pops n rest) [
      | none ↦ none
      | some (items, left) ↦ some (item ∷ items, left)
    ]
  ]

  -- Items pushed one after the other.
  unfoldable pub pushes : List T → List T → List T
  pushes [] queue = queue
  pushes (item ∷ items) queue = pushes items (push_back item queue)

  pushes-append : (items queue : List T) → pushes items queue ≡ queue ++ items
  unfolding pushes push_back
  pushes-append [] queue = sym (append-nil queue)
  pushes-append (x ∷ items) queue =
      pushes-append items (queue ++ x ∷ []) ∙ append_assoc queue (x ∷ []) items

  pop_back-append :
      (x : T) (xs : List T) (y : T) (ys : List T)
      → pop_back x (xs ++ y ∷ ys) ≡ x ∷ (xs ++ pop_back y ys)
  unfolding pop_back
  pop_back-append x [] y ys = refl
  pop_back-append x (z ∷ xs) y ys = ap (λ r. x ∷ r) (pop_back-append z xs y ys)

  length-pop_back : (y : T) (ys : List T) → length (pop_back y ys) ≡ length ys
  unfolding pop_back
  length-pop_back y [] = refl
  length-pop_back y (z ∷ ys) = ground (arith, length-pop_back z ys)

  pops-front :
      (n : ℕ) (items : List T) (x : T) (xs : List T)
      → length items ≡ n
      → pops n (x ∷ (xs ++ items)) ≡ some (replicate n x, x ∷ xs)
  unfolding pops pop_front
  pops-front zero [] x xs h = ap (λ r. some ([], x ∷ r)) (append-nil xs)
  pops-front zero (y ∷ ys) x xs h = absurd (omega arith)
  pops-front (suc n) [] x xs h = absurd (omega arith)
  pops-front (suc n) (y ∷ ys) x xs h =
      let size : length (pop_back y ys) ≡ n = omega (arith, length-pop_back y ys) in
      rw (pop_back-append x xs y ys, pops-front n (pop_back y ys) x xs size) refl

  -- Pushing any items onto a queue that is not empty and then popping as many never returns any of
  -- them: every pop returns the item in front, which stays there, and the queue is left as it was
  -- before the pushes.
  pub push_pop_repeats_front :
      (items : List T) (x : T) (xs : List T)
      → pops (length items) (pushes items (x ∷ xs)) ≡ some (replicate (length items) x, x ∷ xs)
  push_pop_repeats_front items x xs =
      ap (pops (length items)) (pushes-append items (x ∷ xs))
      ∙ pops-front (length items) items x xs refl
