-- ===== src/Reactor/Table/Search.antt =====
-- The search for a slot agrees with its specification.
use asrt.Base.{
  ℕ, suc, ◌+◌, ◌-◌, ◌≤◌, ◌<◌, ◌≡◌, refl, inl, inr, true, false, Option, none, some, List, [], ◌∷◌,
  arith, ◌==◌, if◌then◌else◌, length, Bool-cases, ap, ◌∙◌,
}
use asrt.ErrorCode.{capacity_exceeded}
use asrt.Reactor.Entry.{Entry, NativeHandle, Result, ok, err}
use asrt.Reactor.Table.{Table, scanned, is_free, scan, find_free_operation_slot}
use asrt.Reactor.Table.Spec.{has_source, first_free, IsUnusedFrom, found, IsTable, IsMarker}
use asrt.Reactor.Table.Scan.{
  last_of, scan-duplicate, last_of-lt, unused_cons, unused_head, unused_next, unused_behind_last,
  scan-scanned, position-le-last, first_free-lt,
}

module _ {H : Type 0} where
  scan_start :
      (io : NativeHandle) (e : Entry H) (es : List (Entry H)) (u : ℕ)
      → IsUnusedFrom u (e ∷ es)
      → has_source io (e ∷ es) ≡ false
      → scan io u 0 (e ∷ es) none none
        ≡ scanned (first_free 0 (e ∷ es)) (some (last_of 0 (e ∷ es) none 0))
  unfolding scan last_of is_free
  scan_start io e es u unused h =
      let at : IsUnusedFrom (u - 0) (e ∷ es) = let z : u - 0 ≡ u = omega arith in rw z unused in
      let next = unused_next u 0 e es at in
      ground (
        arith,
        unused_head u e es unused,
        scan-scanned io es u (0 + 1) (some 0) 0 next (inr (0, refl)),
        scan-scanned io es u (0 + 1) none 0 next,
      )

  find-unfold :
      (io : NativeHandle) (t : Table H) (p : Option ℕ) (l : ℕ)
      → scan io t.used_operations_end 0 t.operations none none ≡ scanned p (some l)
      → find_free_operation_slot io t
        ≡ some (
          (elim p [ none ↦ err capacity_exceeded | some q ↦ ok q ]),
          (if t.used_operations_end == length t.operations then t.used_operations_end else l + 1),
        )
  unfolding find_free_operation_slot
  find-unfold io t p l e = ground arith

  abbrev first_position : Entry H → Option ℕ
  first_position e = if is_free e then some 0 else none

  last_of-cons :
      (e : Entry H) (es : List (Entry H))
      → last_of 0 (e ∷ es) none 0 ≡ last_of 1 es (first_position e) 0
  unfolding last_of
  last_of-cons e es = ground arith

  marker-unused :
      (e : Entry H) (es : List (Entry H)) → IsUnusedFrom (last_of 0 (e ∷ es) none 0 + 1) (e ∷ es)
  marker-unused e es =
      let l = last_of 1 es (first_position e) 0 in
      let z : last_of 0 (e ∷ es) none 0 + 1 ≡ suc l = omega (arith, last_of-cons e es) in
      rw z (
        unused_cons (suc l) e es (unused_behind_last 1 es (first_position e) 0 (omega arith))
          (λ k. absurd (omega arith)))

  marker-lt : (e : Entry H) (es : List (Entry H)) → last_of 0 (e ∷ es) none 0 < length (e ∷ es)
  marker-lt e es =
      omega (arith, last_of-cons e es, last_of-lt 1 es (first_position e) 0 (omega arith))

  marker-position :
      (e : Entry H) (es : List (Entry H)) (r : ℕ)
      → first_free 0 (e ∷ es) ≡ some r
      → r ≤ last_of 0 (e ∷ es) none 0
  unfolding is_free
  marker-position e es r h = ground (
    arith,
    last_of-cons e es,
    position-le-last 1 es (first_position e) 0 r (omega arith) (λ q z. ground arith),
  )

  found-free :
      (io : NativeHandle) (es : List (Entry H)) (r : ℕ)
      → has_source io es ≡ false
      → found io es ≡ ok r
      → first_free 0 es ≡ some r
  found-free io es r h e = ground arith

  found-none :
      (io : NativeHandle) (es : List (Entry H))
      → has_source io es ≡ false
      → (elim (first_free 0 es) as (λ _. Result ℕ) [ none ↦ err capacity_exceeded | some q ↦ ok q ])
        ≡ found io es
  found-none io es h = rw h

  -- The marker behind the last slot in use, or the table's end if it has been reached.
  abbrev next_marker : Entry H → List (Entry H) → ℕ → ℕ
  next_marker e es u = if u == length (e ∷ es) then u else last_of 0 (e ∷ es) none 0 + 1

  next_marker-IsMarker :
      (io : NativeHandle) (e : Entry H) (es : List (Entry H)) (u : ℕ)
      → u ≤ length (e ∷ es)
      → IsUnusedFrom u (e ∷ es)
      → has_source io (e ∷ es) ≡ false
      → IsMarker (e ∷ es) (next_marker e es u) io
  next_marker-IsMarker io e es u f unused h = elim (Bool-cases (u == length (e ∷ es))) [
    | inl same ↦ rw same (
      f,
      unused,
      λ p k. ground (arith, first_free-lt 0 (e ∷ es) p (found-free io (e ∷ es) p h k)),
    )
    | inr differs ↦ rw differs (
      omega (arith, marker-lt e es),
      marker-unused e es,
      λ p k. omega (arith, marker-position e es p (found-free io (e ∷ es) p h k)),
    )
  ]

  find-free :
      (io : NativeHandle) (es : List (Entry H)) (u : ℕ)
      → 0 < length es
      → u ≤ length es
      → IsUnusedFrom u es
      → has_source io es ≡ false
      → (m : ℕ) × (find_free_operation_slot io (record { operations = es; used_operations_end = u })
          ≡ some (found io es, m))
        × IsMarker es m io
  find-free io [] u n f unused h = absurd (omega arith)
  find-free io (e ∷ es) u n f unused h = (
    next_marker e es u,
    find-unfold io (record { operations = e ∷ es; used_operations_end = u }) (first_free 0 (e ∷ es))
          (last_of 0 (e ∷ es) none 0) (scan_start io e es u unused h)
        ∙ ap (λ r. some (r, next_marker e es u)) (found-none io (e ∷ es) h),
    next_marker-IsMarker io e es u f unused h,
  )

  find-duplicate :
      (io : NativeHandle) (t : Table H)
      → IsTable t
      → has_source io t.operations ≡ true
      → find_free_operation_slot io t ≡ some (found io t.operations, t.used_operations_end)
  unfolding find_free_operation_slot
  find-duplicate io t v h =
      let at : IsUnusedFrom (t.used_operations_end - 0) t.operations =
        let z : t.used_operations_end - 0 ≡ t.used_operations_end = omega arith in rw z v.unused in
      ground (arith, scan-duplicate io t.operations t.used_operations_end 0 none none at h)

  -- In a well-formed table, the search always ends with a set iterator and agrees with one look at
  -- the whole table: an error if some registered entry, wherever it stands, has the descriptor; else
  -- the first slot that is neither registered nor posted; else the capacity error. The end marker
  -- that it leaves is inside the table, has nothing in use at or behind it, and stands behind the
  -- slot found.
  pub find_free_operation_slot-found :
      (io : NativeHandle) (t : Table H)
      → IsTable t
      → (m : ℕ) × (find_free_operation_slot io t ≡ some (found io t.operations, m))
        × IsMarker t.operations m io
  find_free_operation_slot-found io t v = elim (Bool-cases (has_source io t.operations)) [
    | inl dup ↦
        (t.used_operations_end, find-duplicate io t v dup, (v.fits, v.unused, λ p k. ground arith))
    | inr fresh ↦ find-free io t.operations t.used_operations_end v.has_entry v.fits v.unused fresh
  ]
