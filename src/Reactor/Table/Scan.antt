-- ===== src/Reactor/Table/Scan.antt =====
-- The loop of the search: what it has found at its end, and where the last slot in use stands.
use asrt.Base.{
  ℕ, zero, suc, ◌+◌, ◌-◌, ◌≤◌, ◌<◌, ◌≡◌, refl, ◌⊎◌, inl, inr, true, false, Option, none, some, List,
  [], ◌∷◌, arith, if◌then◌else◌, length,
}
use native.Mathlib.Decide.{dec_le}
use asrt.Reactor.Entry.{Entry, NativeHandle}
use asrt.Reactor.Table.{duplicate, scanned, or_else, is_free, scan}
use asrt.Reactor.Table.Spec.{has_source, first_free, IsUnusedFrom}

-- The first free slot, with the one found before the loop came here.
abbrev pub joined : Option ℕ → Option ℕ → Option ℕ
joined (some p) q = some p
joined none q = q

module _ {H : Type 0} where
  unused-no_source :
      (io : NativeHandle) (es : List (Entry H)) → IsUnusedFrom 0 es → has_source io es ≡ false
  unused-no_source io [] u = refl
  unused-no_source io (e ∷ es) u = ground (arith, unused-no_source io es u.2)

  unused_tail :
      (n : ℕ) (e : Entry H) (es : List (Entry H))
      → IsUnusedFrom n (e ∷ es)
      → IsUnusedFrom (n - 1) es
  unused_tail zero e es u = u.2
  unused_tail (suc n) e es u = let q : suc n - 1 ≡ n = omega arith in rw q u

  pub unused_head :
      (n : ℕ) (e : Entry H) (es : List (Entry H))
      → IsUnusedFrom n (e ∷ es)
      → n ≡ 0
      → (e.valid ≡ false) × (e.handler_posted ≡ false)
  unused_head zero e es u z = (u.0, u.1)
  unused_head (suc n) e es u z = absurd (omega arith)

  pub unused_next :
      (u i : ℕ) (e : Entry H) (es : List (Entry H))
      → IsUnusedFrom (u - i) (e ∷ es)
      → IsUnusedFrom (u - (i + 1)) es
  unused_next u i e es unused =
      let q : u - (i + 1) ≡ u - i - 1 = omega arith in rw q (unused_tail (u - i) e es unused)

  pub scan-duplicate :
      (io : NativeHandle) (es : List (Entry H)) (u i : ℕ) (p l : Option ℕ)
      → IsUnusedFrom (u - i) es
      → has_source io es ≡ true
      → scan io u i es p l ≡ duplicate
  unfolding scan
  scan-duplicate io [] u i p l unused h = cc
  scan-duplicate io (e ∷ es) u i p l unused h =
      let next = unused_next u i e es unused in
      elim (dec_le i u) [
        | yes inside ↦ ground (
          arith,
          scan-duplicate io es u (i + 1) (if is_free e then or_else p i else p)
              (if is_free e then (elim p [ none ↦ some i | some q ↦ l ]) else some i) next,
        )
        | no outside ↦ ground (
          arith,
          unused_head (u - i) e es unused (omega arith),
          unused-no_source io es (let q : u - (i + 1) ≡ 0 = omega arith in rw q at next),
        )
      ]

  -- The last slot in use among those from index `i` on, the first free one counted as used.
  unfoldable pub last_of : ℕ → List (Entry H) → Option ℕ → ℕ → ℕ
  last_of i [] p l = l
  last_of i (e ∷ es) p l =
      last_of (i + 1) es (if is_free e then or_else p i else p)
        (if is_free e then (elim p [ none ↦ i | some q ↦ l ]) else i)

  pub last_of-ge :
      (i : ℕ) (es : List (Entry H)) (p : Option ℕ) (l : ℕ) → l < i → l ≤ last_of i es p l
  unfolding last_of
  last_of-ge i [] p l h = omega arith
  last_of-ge i (e ∷ es) none l h =
      ground (arith, last_of-ge (i + 1) es (some i) i, last_of-ge (i + 1) es none i)
  last_of-ge i (e ∷ es) (some q) l h =
      ground (arith, last_of-ge (i + 1) es (some q) i, last_of-ge (i + 1) es (some q) l)

  pub last_of-lt :
      (i : ℕ) (es : List (Entry H)) (p : Option ℕ) (l : ℕ)
      → l < i
      → last_of i es p l < i + length es
  unfolding last_of
  last_of-lt i [] p l h = omega arith
  last_of-lt i (e ∷ es) none l h =
      ground (arith, last_of-lt (i + 1) es (some i) i, last_of-lt (i + 1) es none i)
  last_of-lt i (e ∷ es) (some q) l h =
      ground (arith, last_of-lt (i + 1) es (some q) i, last_of-lt (i + 1) es (some q) l)

  last_of-unused :
      (i : ℕ) (es : List (Entry H)) (q l : ℕ) → IsUnusedFrom 0 es → last_of i es (some q) l ≡ l
  unfolding last_of is_free
  last_of-unused i [] q l u = refl
  last_of-unused i (e ∷ es) q l u = ground (arith, last_of-unused (i + 1) es q l u.2)

  pub unused_cons :
      (n : ℕ) (e : Entry H) (es : List (Entry H))
      → IsUnusedFrom (n - 1) es
      → (n ≡ 0 → (e.valid ≡ false) × (e.handler_posted ≡ false))
      → IsUnusedFrom n (e ∷ es)
  unused_cons zero e es u h = ((h refl).0, (h refl).1, u)
  unused_cons (suc n) e es u h = let q : suc n - 1 ≡ n = omega arith in rw q at u

  pub unused_behind_last :
      (i : ℕ) (es : List (Entry H)) (p : Option ℕ) (l : ℕ)
      → l < i
      → IsUnusedFrom (suc (last_of i es p l) - i) es
  unfolding last_of is_free
  unused_behind_last i [] p l h = tt
  unused_behind_last i (e ∷ es) p l h =
      let p' = if is_free e then or_else p i else p in
      let l' = if is_free e then (elim p [ none ↦ i | some q ↦ l ]) else i in
      unused_cons (suc (last_of (i + 1) es p' l') - i) e es
        (let z : suc (last_of (i + 1) es p' l') - i - 1 ≡ suc (last_of (i + 1) es p' l') - (i + 1) =
            omega arith in
          rw z (unused_behind_last (i + 1) es p' l' (ground arith)))
        (λ z. ground (arith, z, last_of-ge (i + 1) es p' l'))

  pub scan-scanned :
      (io : NativeHandle) (es : List (Entry H)) (u i : ℕ) (p : Option ℕ) (l : ℕ)
      → IsUnusedFrom (u - i) es
      → (i ≤ u) ⊎ ((q : ℕ) × (p ≡ some q))
      → has_source io es ≡ false
      → scan io u i es p (some l) ≡ scanned (joined p (first_free i es)) (some (last_of i es p l))
  unfolding scan last_of is_free
  scan-scanned io [] u i p l unused start h = ground arith
  scan-scanned io (e ∷ es) u i none l unused (inr (q, absent)) h = cc
  scan-scanned io (e ∷ es) u i none l unused (inl inside) h =
      let next = unused_next u i e es unused in
      ground (
        arith,
        unused_head (u - i) e es unused,
        scan-scanned io es u (i + 1) (some i) i next (inr (i, refl)),
        scan-scanned io es u (i + 1) none i next,
      )
  scan-scanned io (e ∷ es) u i (some q) l unused start h =
      let next = unused_next u i e es unused in
      elim (dec_le i u) [
        | yes inside ↦ ground (
          arith,
          scan-scanned io es u (i + 1) (some q) i next (inr (q, refl)),
          scan-scanned io es u (i + 1) (some q) l next (inr (q, refl)),
        )
        | no outside ↦ ground (
          arith,
          unused_head (u - i) e es unused (omega arith),
          last_of-unused (i + 1) es q l (let z : u - (i + 1) ≡ 0 = omega arith in rw z at next),
        )
      ]

  pub position-le-last :
      (i : ℕ) (es : List (Entry H)) (p : Option ℕ) (l r : ℕ)
      → l < i
      → ((q : ℕ) → p ≡ some q → q ≤ l)
      → joined p (first_free i es) ≡ some r
      → r ≤ last_of i es p l
  unfolding last_of is_free
  position-le-last i [] none l r h b e = cc
  position-le-last i [] (some q) l r h b e = ground (arith, b q)
  position-le-last i (e ∷ es) none l r h b k = ground (
    arith,
    position-le-last (i + 1) es (some i) i r (omega arith) (λ q z. ground arith),
    position-le-last (i + 1) es none i r (omega arith) (λ q z. cc),
  )
  position-le-last i (e ∷ es) (some q) l r h b k = ground (
    arith,
    b q refl,
    position-le-last (i + 1) es (some q) i r (omega arith) (λ x z. ground (arith, b q refl)),
    position-le-last (i + 1) es (some q) l r (omega arith) b,
  )

  pub first_free-lt :
      (i : ℕ) (es : List (Entry H)) (r : ℕ) → first_free i es ≡ some r → r < i + length es
  first_free-lt i [] r e = cc
  first_free-lt i (x ∷ es) r e = ground (arith, first_free-lt (i + 1) es r)
