-- ===== src/Base/Course.antt =====
-- Courses of a machine whose steps start handlers and notify them.
use asrt.Base.{
  ◌≡◌, refl, Option, none, some, List, [], ◌∷◌, ◌++◌, append_assoc, append-nil, All, arith,
}

-- A step's result: the handlers it starts, the new state, and the handlers it notifies; `none` where
-- the step fails.
abbrev pub Stepped : Type 0 → Type 0 → Type 0
Stepped W H = Option (List H × W × List H)

module _ {M W H : Type 0} (step : M → W → Stepped W H) where
  unfoldable pub course : List M → W → Stepped W H
  course [] w = some ([], w, [])
  course (m ∷ ms) w = elim (step m w) [
    | none ↦ none
    | some (starts, w', ends_with) ↦ elim (course ms w') [
      | none ↦ none
      | some (more, w'', rest) ↦ some (starts ++ more, w'', ends_with ++ rest)
    ]
  ]

module _ {W H : Type 0} (held : W → List H) (IsSound : W → Type 0) where
  -- The step does not fail and leaves a sound state, and the handlers that were held and those started
  -- are those notified and those held now, in order.
  abbrev pub IsNotified : W → Stepped W H → Type 0
  IsNotified w none = ⊥
  IsNotified w (some (starts, w', ends_with)) =
      IsSound w' × (held w ++ starts ≡ ends_with ++ held w')

  -- What is said of a course from a state that holds no handler.
  abbrev pub IsAnswered : Stepped W H → Type 0
  IsAnswered none = ⊥
  IsAnswered (some (starts, w, ends_with)) = starts ≡ ends_with ++ held w

  pub IsAnswered-of : (w : W) (o : Stepped W H) → held w ≡ [] → IsNotified w o → IsAnswered o
  IsAnswered-of w none e fails = elim fails [ ]
  IsAnswered-of w (some (starts, w', ends_with)) e (sound, moved) = cc

module _ {H : Type 0} where
  joins :
      (a starts more ends_with b rest c : List H)
      → a ++ starts ≡ ends_with ++ b
      → b ++ more ≡ rest ++ c
      → a ++ (starts ++ more) ≡ (ends_with ++ rest) ++ c
  joins a starts more ends_with b rest c first second = grind (
    arith,
    append_assoc a starts more,
    append_assoc ends_with b more,
    append_assoc ends_with rest c,
  )

module _ {M W H : Type 0} (step : M → W → Stepped W H) (held : W → List H) (IsSound : W → Type 0)
    (IsExpected : M → Type 0)
    (kept : (m : M) (w : W) → IsSound w → IsExpected m → IsNotified held IsSound w (step m w)) where
  -- A step and the course behind it.
  IsNotified-step :
      (m : M) (ms : List M) (w : W) (o : Stepped W H)
      → step m w ≡ o
      → IsNotified held IsSound w o
      → ((w' : W) → IsSound w' → IsNotified held IsSound w' (course step ms w'))
      → IsNotified held IsSound w (course step (m ∷ ms) w)
  unfolding course
  IsNotified-step m ms w none e fails ih = elim fails [ ]
  IsNotified-step m ms w (some (starts, w', ends_with)) e (sound', first) ih =
      rw (e, IsNotified) (later (course step ms w') (ih w' sound'))
    where
      later :
          (o : Stepped W H)
          → IsNotified held IsSound w' o
          → IsNotified held IsSound w (elim o [
            | none ↦ none
            | some (more, w'', rest) ↦ some (starts ++ more, w'', ends_with ++ rest)
          ])
      later none fails = elim fails [ ]
      later (some (more, w'', rest)) (sound'', second) =
          (sound'', joins (held w) starts more ends_with (held w') rest (held w'') first second)

  -- Steps that keep the balance make courses that keep it.
  pub course-IsNotified :
      (ms : List M) (w : W)
      → IsSound w
      → All IsExpected ms
      → IsNotified held IsSound w (course step ms w)
  unfolding course
  course-IsNotified [] w sound expected = (sound, append-nil (held w))
  course-IsNotified (m ∷ ms) w sound (expected, more) =
      IsNotified-step m ms w (step m w) refl (kept m w sound expected)
        (λ w' sound'. course-IsNotified ms w' sound' more)
