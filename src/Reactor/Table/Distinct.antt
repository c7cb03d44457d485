-- ===== src/Reactor/Table/Distinct.antt =====
-- Registered entries with different descriptors, and what writing one entry does to that.
use asrt.Base.{
  ℕ, zero, suc, ◌+◌, ◌-◌, ◌≤◌, ◌<◌, ◌≡◌, refl, inl, inr, ◌⊎◌, true, false, not, ◌&&◌, some, List,
  [], ◌∷◌, arith, get_elem?, set, Bool-cases,
}
use asrt.Base.Int.{ℤ, pos, negsuc, eqb}
use asrt.ErrorCode.{ErrorCode}
use asrt.Reactor.Entry.{Entry, NativeHandle, Result, ok, err}
use asrt.Reactor.Table.Spec.{has_source, first_free, IsUnusedFrom}

pub eqb_comm : (a b : ℤ) → eqb a b ≡ eqb b a
eqb_comm (pos a) (pos b) = ground arith
eqb_comm (negsuc a) (negsuc b) = ground arith
eqb_comm (pos a) (negsuc b) = refl
eqb_comm (negsuc a) (pos b) = refl

pub eqb_refl : (a : ℤ) → eqb a a ≡ true
eqb_refl (pos a) = ground arith
eqb_refl (negsuc a) = ground arith

pub Result-cases :
    {A : Type 0} (r : Result A) → ((a : A) × (r ≡ ok a)) ⊎ ((e : ErrorCode) × (r ≡ err e))
Result-cases (ok a) = inl (a, refl)
Result-cases (err e) = inr (e, refl)

module _ {H : Type 0} where
  -- No two registered entries have the same descriptor.
  abbrev pub IsDistinct : List (Entry H) → Type 0
  IsDistinct [] = Unit
  IsDistinct (e ∷ es) = (e.valid ≡ true → has_source e.io_source es ≡ false) × IsDistinct es

  pub IsUnusedFrom-set :
      (m p : ℕ) (es : List (Entry H)) (e : Entry H)
      → p < m
      → IsUnusedFrom m es
      → IsUnusedFrom m (set es p e)
  IsUnusedFrom-set m p [] e h u = tt
  IsUnusedFrom-set zero p (x ∷ es) e h u = absurd (omega arith)
  IsUnusedFrom-set (suc m) zero (x ∷ es) e h u = u
  IsUnusedFrom-set (suc m) (suc p) (x ∷ es) e h u = IsUnusedFrom-set m p es e (omega arith) u

  pub has_source-set :
      (io : NativeHandle) (p : ℕ) (es : List (Entry H)) (e : Entry H)
      → has_source io es ≡ false
      → eqb e.io_source io ≡ false
      → has_source io (set es p e) ≡ false
  has_source-set io p [] e h k = refl
  has_source-set io zero (x ∷ es) e h k = ground arith
  has_source-set io (suc p) (x ∷ es) e h k = ground (arith, has_source-set io p es e)

  pub IsDistinct-set :
      (io : NativeHandle) (p : ℕ) (es : List (Entry H)) (e : Entry H)
      → e.io_source ≡ io
      → has_source io es ≡ false
      → IsDistinct es
      → IsDistinct (set es p e)
  IsDistinct-set io p [] e q h d = tt
  IsDistinct-set io zero (x ∷ es) e q h d = (λ v. rw q (ground arith), d.1)
  IsDistinct-set io (suc p) (x ∷ es) e q h d = (
    λ v.
        has_source-set x.io_source p es e (d.0 v)
          (rw q (rw (eqb_comm io x.io_source) (ground arith))),
    IsDistinct-set io p es e q (ground arith) d.1,
  )

  pub first_free-free :
      (i : ℕ) (es : List (Entry H)) (j : ℕ)
      → first_free i es ≡ some j
      → (i ≤ j)
        × ((e : Entry H) × (get_elem? es (j - i) ≡ some e)
            × (e.valid ≡ false)
            × (e.handler_posted ≡ false))
  first_free-free i [] j h = cc
  first_free-free i (x ∷ es) j h = elim (Bool-cases (not x.valid && not x.handler_posted)) [
    | inl free ↦
        let here : i ≡ j = ground arith in
        let z : j - i ≡ 0 = omega arith in (omega arith, (x, rw z, ground arith, ground arith))
    | inr used ↦
        let rest = first_free-free (i + 1) es j (rw used at h) in
        let z : j - i ≡ suc (j - (i + 1)) = omega (arith, rest.0) in
        (omega (arith, rest.0), (rest.1.0, rw z rest.1.1, rest.1.2, rest.1.3))
  ]
