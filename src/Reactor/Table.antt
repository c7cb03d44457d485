-- ===== src/Reactor/Table.antt =====
-- include/asrt/reactor/epoll_reactor.hpp: the table of operation entries, the search for a free slot
-- (`FindFreeOperationSlot`) and registration (`RegisterImpl`). The iterator `used_operations_end_` is
-- the index that it points to.
pub mod Spec
pub mod Scan
pub mod Search
pub mod Distinct
pub mod Sources
use asrt.Base.{
  ℕ, zero, suc, ◌+◌, ◌≡◌, Bool, true, false, not, ◌&&◌, ◌||◌, Option, none, some, List, [], ◌∷◌,
  ◌==◌, leb, if◌then◌else◌, length, get_elem?, set,
}
use asrt.Base.Int.{eqb}
use asrt.ErrorCode.{ErrorCode, api_error, capacity_exceeded}
use asrt.Reactor.Events.{
  Events, oneshot_software_event, persistent_software_event as persistent_event,
}
use asrt.Reactor.Entry.{
  Entry, NativeHandle, invalid_native_handle, Effect, Result, ok, err, EventRegistrationType,
  one_shot_software_event, persistent_software_event, register_entry,
}

pub record Table (H : Type 0) : Type 0 where
  pub operations : List (Entry H)
  pub used_operations_end : ℕ

-- What the loop of the search has found: a registered entry of the same descriptor, or the first
-- free entry and the last one used, where there are such.
pub data ScanResult : Type 0 where
  duplicate : ScanResult
  scanned : Option ℕ → Option ℕ → ScanResult

-- The first free slot that was found stays.
abbrev or_else : Option ℕ → ℕ → Option ℕ
or_else none i = some i
or_else (some p) i = some p

module _ {H : Type 0} where
  unfoldable pub is_free : Entry H → Bool
  is_free e = not e.valid && not e.handler_posted

  -- The loop from index `i` on, over the entries from there: up to `used_end` and to the table's end.
  unfoldable pub scan : NativeHandle → ℕ → ℕ → List (Entry H) → Option ℕ → Option ℕ → ScanResult
  unfolding is_free
  scan io_source used_end i [] position last_used = scanned position last_used
  scan io_source used_end i (e ∷ es) position last_used =
      let position' = if is_free e then or_else position i else position in
      let last_used' =
        if is_free e then (elim position [ none ↦ some i | some p ↦ last_used ]) else some i in
      let rest = scan io_source used_end (i + 1) es position' last_used' in
      if leb i used_end
      then (if e.valid && eqb e.io_source io_source then duplicate else rest)
      else scanned position last_used

  -- `FindFreeOperationSlot`: the slot or the error, and the new `used_operations_end_`. `none` is the
  -- read of an iterator that was never set.
  unfoldable pub find_free_operation_slot : NativeHandle → Table H → Option (Result ℕ × ℕ)
  find_free_operation_slot io_source t =
      elim (scan io_source t.used_operations_end 0 t.operations none none) [
        | duplicate ↦ some (err api_error, t.used_operations_end)
        | scanned position last_used ↦
            let slot : Result ℕ = elim position [ none ↦ err capacity_exceeded | some p ↦ ok p ] in
            if t.used_operations_end == length t.operations
            then some (slot, t.used_operations_end)
            else elim last_used [ none ↦ none | some last ↦ some (slot, last + 1) ]
      ]

  store_at :
      ℕ → ℕ → Table H → Result (Unit {0}) × Entry H × List Effect → Result ℕ × Table H × List Effect
  store_at p used_end t (ok _, e, effects) =
      (ok p, record { operations = set t.operations p e; used_operations_end = used_end }, effects)
  store_at p used_end t (err error, e, effects) =
      (err error, record t { used_operations_end = used_end }, effects)

  -- `RegisterImpl`: the tag of the new registration is the index of its slot.
  unfoldable pub register_impl :
      EventRegistrationType
      → NativeHandle
      → Events
      → H
      → Option ErrorCode
      → Table H
      → Option (Result ℕ × Table H × List Effect)
  unfolding find_free_operation_slot store_at
  register_impl how io_source events h answer t = elim (find_free_operation_slot io_source t) [
    | none ↦ none
    | some (err error, used_end) ↦ some (err error, record t { used_operations_end = used_end }, [])
    | some (ok p, used_end) ↦ elim (get_elem? t.operations p) [
      | none ↦ none
      | some e ↦ some (store_at p used_end t (register_entry how io_source events h answer e))
    ]
  ]

  -- `RegisterOneShotSoftwareEvent` and `RegisterPersistentSoftwareEvent`.
  unfoldable pub register_one_shot_software_event :
      H → Table H → Option (Result ℕ × Table H × List Effect)
  register_one_shot_software_event h t =
      register_impl one_shot_software_event invalid_native_handle oneshot_software_event h none t

  unfoldable pub register_persistent_software_event :
      H → Table H → Option (Result ℕ × Table H × List Effect)
  register_persistent_software_event h t =
      register_impl persistent_software_event invalid_native_handle persistent_event h none t
