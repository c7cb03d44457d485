-- ===== src/NetBuffer/Contents.antt =====
-- What the views of a buffer show, and that they stay inside it.
use asrt.Base.{
  ℕ, zero, suc, ◌+◌, ◌-◌, ◌≤◌, ◌<◌, ◌≡◌, refl, sym, ap, ◌∙◌, min, List, [], ◌∷◌, ◌++◌, arith, take,
  drop, none, some, ◌⊎◌, inl, inr, ◌≢◌,
}
use asrt.NetBuffer.{BufferView, advance, first, sub_view, contents, dynamic_extent, size_t_range}

module _ {ℓ} {A : Type ℓ} where
  drop_nil : (n : ℕ) → ◌≡◌ {A = List A} (drop n []) []
  drop_nil zero = refl
  drop_nil (suc n) = refl

  pub drop-drop : (n m : ℕ) (xs : List A) → drop m (drop n xs) ≡ drop (n + m) xs
  drop-drop zero m xs = let e : m ≡ 0 + m = omega arith in ap (λ (k : ℕ). drop k xs) e
  drop-drop (suc n) m [] = drop_nil m ∙ sym (drop_nil (suc n + m))
  drop-drop (suc n) m (x ∷ xs) =
      let e : suc (n + m) ≡ suc n + m = omega arith in
      drop-drop n m xs ∙ ap (λ (k : ℕ). drop k (x ∷ xs)) e

  pub take_nil : (n : ℕ) → ◌≡◌ {A = List A} (take n []) []
  take_nil zero = refl
  take_nil (suc n) = refl

  pub take-append-take-drop :
      (n m : ℕ) (xs : List A) → take n xs ++ take m (drop n xs) ≡ take (n + m) xs
  take-append-take-drop zero m xs = let e : m ≡ 0 + m = omega arith in ap (λ (k : ℕ). take k xs) e
  take-append-take-drop (suc n) m [] = take_nil m ∙ sym (take_nil (suc n + m))
  take-append-take-drop (suc n) m (x ∷ xs) =
      let e : suc (n + m) ≡ suc n + m = omega arith in
      ap (λ r. x ∷ r) (take-append-take-drop n m xs) ∙ ap (λ (k : ℕ). take k (x ∷ xs)) e

  take-drop-take :
      (offset n size : ℕ) (xs : List A)
      → offset + n ≤ size
      → take n (drop offset (take size xs)) ≡ take n (drop offset xs)
  take-drop-take zero zero size xs h = refl
  take-drop-take zero (suc n) zero xs h = absurd (omega arith)
  take-drop-take zero (suc n) (suc size) [] h = refl
  take-drop-take zero (suc n) (suc size) (x ∷ xs) h =
      ap (λ r. x ∷ r) (take-drop-take zero n size xs (omega arith))
  take-drop-take (suc offset) n zero xs h = absurd (omega arith)
  take-drop-take (suc offset) n (suc size) [] h = refl
  take-drop-take (suc offset) n (suc size) (x ∷ xs) h =
      take-drop-take offset n size xs (omega arith)

le_or_lt : (a b : ℕ) → (a ≤ b) ⊎ (b < a)
le_or_lt a b = omega arith

-- Advancing a view twice is advancing it by the sum.
advance_add : (n m : ℕ) (v : BufferView) → advance m (advance n v) ≡ advance (n + m) v
unfolding advance
advance_add n m v = ground arith

advance_start : (n : ℕ) (v : BufferView) → (advance n v).start ≡ v.start + min n v.size
unfolding advance
advance_start n v = ground arith

advance_size : (n : ℕ) (v : BufferView) → (advance n v).size ≡ v.size - min n v.size
unfolding advance
advance_size n v = ground arith

contents-advance :
    (n : ℕ) (memory : List ℕ) (v : BufferView)
    → contents memory (advance n v)
      ≡ take (v.size - min n v.size) (drop (min n v.size) (drop v.start memory))
unfolding contents
contents-advance n memory v =
    rw (advance_start n v, advance_size n v, drop-drop v.start (min n v.size) memory) refl

-- The bytes that `first` keeps, followed by those that `Advance` leaves, are the bytes of the view, for
-- any number of bytes; advancing in two steps is advancing once by the sum.
pub first-advance :
    (n m : ℕ) (memory : List ℕ) (v : BufferView)
    → (contents memory (first n v) ++ contents memory (advance n v) ≡ contents memory v)
      × (advance m (advance n v) ≡ advance (n + m) v)
unfolding contents first
first-advance n m memory v =
    let k = min n v.size in
    let whole : k + (v.size - k) ≡ v.size = omega arith in
    (
      rw (contents-advance n memory v) (
          take-append-take-drop k (v.size - k) (drop v.start memory)
          ∙ ap (λ (t : ℕ). take t (drop v.start memory)) whole),
      advance_add n m v,
    )

-- A `SubView` with a count, where the sum of offset and count stays below 2^64: its assertions hold
-- exactly when the range lies inside the view, and then the view it returns shows the bytes of the
-- range.
pub sub_view_lem :
    (offset count : ℕ) (memory : List ℕ) (v : BufferView)
    → offset + count < size_t_range
    → count ≢ dynamic_extent
    → ((offset + count ≤ v.size)
        × (w : BufferView) × (sub_view offset count v ≡ some w)
        × (contents memory w ≡ take count (drop offset (contents memory v))))
      ⊎ ((v.size < offset + count) × (sub_view offset count v ≡ none))
unfolding sub_view contents
sub_view_lem offset count memory v fits counted = elim (le_or_lt (offset + count) v.size) [
  | inl inside ↦ inl (
    inside,
    record { start = v.start + offset; size = count },
    ground arith,
    rw (drop-drop v.start offset memory) at
        (sym (take-drop-take offset count v.size (drop v.start memory) inside)),
  )
  | inr outside ↦ inr (outside, ground arith)
]
