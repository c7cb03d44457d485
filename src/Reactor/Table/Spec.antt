-- ===== src/Reactor/Table/Spec.antt =====
-- What the search for a slot promises, by one look at the whole table, and the invariant it relies on.
use asrt.Base.{
  ℕ, zero, suc, ◌+◌, ◌≤◌, ◌<◌, ◌≡◌, Bool, false, not, ◌&&◌, ◌||◌, Option, none, some, List, [], ◌∷◌,
  if◌then◌else◌, length,
}
use asrt.Base.Int.{eqb}
use asrt.ErrorCode.{api_error, capacity_exceeded}
use asrt.Reactor.Entry.{Entry, NativeHandle, Result, ok, err}
use asrt.Reactor.Table.{Table}

module _ {H : Type 0} where
  -- Some entry of the table is registered for the descriptor.
  abbrev pub has_source : NativeHandle → List (Entry H) → Bool
  has_source io_source [] = false
  has_source io_source (e ∷ es) = (e.valid && eqb e.io_source io_source) || has_source io_source es

  -- The index, counted from `i`, of the first entry that is neither registered nor posted.
  abbrev pub first_free : ℕ → List (Entry H) → Option ℕ
  first_free i [] = none
  first_free i (e ∷ es) =
      if not e.valid && not e.handler_posted then some i else first_free (i + 1) es

  -- Nothing at or behind index `n` is registered or posted.
  abbrev pub IsUnusedFrom : ℕ → List (Entry H) → Type 0
  IsUnusedFrom n [] = Unit
  IsUnusedFrom zero (e ∷ es) = (e.valid ≡ false) × (e.handler_posted ≡ false) × IsUnusedFrom zero es
  IsUnusedFrom (suc n) (e ∷ es) = IsUnusedFrom n es

  -- What the search returns.
  abbrev pub found : NativeHandle → List (Entry H) → Result ℕ
  found io_source es =
      if has_source io_source es
      then err api_error
      else elim (first_free 0 es) [ none ↦ err capacity_exceeded | some p ↦ ok p ]

  -- The table has an entry, its end marker lies inside, and nothing behind the marker is in use.
  pub record IsTable (t : Table H) : Type 0 where
    pub has_entry : 0 < length t.operations
    pub fits : t.used_operations_end ≤ length t.operations
    pub unused : IsUnusedFrom t.used_operations_end t.operations

  -- What the search leaves of the table: the new end marker.
  abbrev pub IsMarker : List (Entry H) → ℕ → NativeHandle → Type 0
  IsMarker es m io = (m ≤ length es) × IsUnusedFrom m es × ((p : ℕ) → found io es ≡ ok p → p < m)
