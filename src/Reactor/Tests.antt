-- ===== src/Reactor/Tests.antt =====
-- The reactor's theorems on concrete inputs.
use asrt.Base.{ℕ, ◌+◌, ◌≤◌, ◌≡◌, refl, true, false, some, none, List, [], ◌∷◌, arith}
use asrt.Base.Int.{pos}
use asrt.Reactor.Events.{
  of_mask, persistent_software_event, intersection, has_io_event, is_empty, add,
}
use asrt.Reactor.Entry.{
  Entry, Result, ok, io_event, fresh_entry, handle_single_event, register_entry, enter_io_handler,
  write_valid, write_monitored_events, monitored_on_register, write_handler_posted,
}
use asrt.Reactor.Entry.Invariant.{
  Slot, Move, registers, proceeds, is_untorn, captures, enters, leaves, deregisters, new_slot, step,
  run, is_some,
}
use asrt.Reactor.Entry.Lifetime.{
  new_slot-IsSound, run-IsSound, one_handler_with_memory, closed_once, deregister_queued_leaks,
}
use asrt.Reactor.Table.{Table, find_free_operation_slot, register_impl}
use asrt.Reactor.Table.Spec.{IsTable, IsMarker}
use asrt.Reactor.Table.Search.{find_free_operation_slot-found}
use asrt.Reactor.Table.Sources.{Registered, register_impl-Registered}
use asrt.Reactor.Loop.{Reactor, Turn, handle_events, software_event}
use asrt.Reactor.Loop.Software.{NoWait, IsPending}
use asrt.Reactor.Loop.Starvation.{here, software_event_starves_epoll}

-- A connection that is registered, read, and closed while its handler runs.
abbrev closing_in_handler : List (Move ℕ)
closing_in_handler =
    registers (pos 5) (of_mask 5) 7 none
    ∷ proceeds
    ∷ proceeds
    ∷ proceeds
    ∷ captures 1
    ∷ enters
    ∷ deregisters true none
    ∷ leaves
    ∷ []

one_handler_with_memory_example :
    let s = run new_slot closing_in_handler in
    (s.queued + s.running ≤ 1)
    × (s.faulted ≡ false)
    × (s.entry.execution_in_progress ≡ true → is_some s.entry.handler ≡ true)
    × (s.entry.valid ≡ true → is_some s.entry.handler ≡ true)
unfolding is_untorn run step handle_single_event register_entry has_io_event is_empty intersection
    add enter_io_handler write_valid write_monitored_events monitored_on_register
    write_handler_posted
one_handler_with_memory_example = one_handler_with_memory closing_in_handler refl

closed_once_example :
    (run new_slot closing_in_handler).closed ≡ (run new_slot closing_in_handler).asked
unfolding is_untorn run step handle_single_event register_entry has_io_event is_empty intersection
    add enter_io_handler write_valid write_monitored_events monitored_on_register
    write_handler_posted
closed_once_example = closed_once closing_in_handler refl refl

abbrev with_handler_queued : List (Move ℕ)
with_handler_queued =
    registers (pos 5) (of_mask 5) 7 none ∷ proceeds ∷ proceeds ∷ proceeds ∷ captures 1 ∷ []

abbrev queued_slot : Slot ℕ
queued_slot = run new_slot with_handler_queued

abbrev register_again : List (Move ℕ)
register_again = registers (pos 6) (of_mask 5) 8 none ∷ []

deregister_queued_leaks_example :
    let t = run (step (step queued_slot (deregisters true none)) enters) register_again in
    (t.entry.valid ≡ false) × (t.entry.handler_posted ≡ true) × (t.queued ≡ 0) × (t.running ≡ 0)
unfolding is_untorn run step handle_single_event register_entry has_io_event is_empty intersection
    add write_valid write_monitored_events monitored_on_register write_handler_posted
deregister_queued_leaks_example =
    deregister_queued_leaks queued_slot true register_again
      (run-IsSound new_slot with_handler_queued new_slot-IsSound refl) refl refl

abbrev empty_table : Table ℕ
empty_table = record { operations = fresh_entry ℕ ∷ fresh_entry ℕ ∷ []; used_operations_end = 0 }

empty_table-IsTable : IsTable empty_table
empty_table-IsTable = record {
  has_entry = omega arith;
  fits = omega arith;
  unused = (refl, refl, (refl, refl, tt));
}

find_free_operation_slot-found_example :
    (m : ℕ) × (find_free_operation_slot (pos 5) empty_table ≡ some (ok 0, m))
    × IsMarker empty_table.operations m (pos 5)
find_free_operation_slot-found_example =
    find_free_operation_slot-found (pos 5) empty_table empty_table-IsTable

register_impl-Registered_example :
    (r : Result ℕ) × (t' : Table ℕ) × (effects : List _) × (register_impl io_event
        (pos 5)
        (of_mask 5)
        7
        none
        empty_table
      ≡ some (r, t', effects))
    × Registered (pos 5) 7 empty_table r t'
register_impl-Registered_example =
    register_impl-Registered io_event (pos 5) (of_mask 5) 7 none empty_table empty_table-IsTable

abbrev persistent_entry : Entry ℕ
persistent_entry = record (fresh_entry ℕ) {
  handler = some 7;
  valid = true;
  monitored_events = persistent_software_event;
}

abbrev persistent_table : Table ℕ
persistent_table = record {
  operations = persistent_entry ∷ fresh_entry ℕ ∷ [];
  used_operations_end = 1;
}

abbrev triggered_reactor : Reactor ℕ
triggered_reactor = record {
  operations = persistent_entry ∷ [];
  triggered_software_events = 0 ∷ [];
}

triggered_reactor-IsPending : IsPending 0 triggered_reactor
triggered_reactor-IsPending = ((omega arith, tt), refl, (persistent_entry, refl, refl))

software_event_starves_epoll_example :
    NoWait []
    × ((t : Turn ℕ) × (handle_events (ok []) triggered_reactor ≡ some (ok software_event, t))
        × NoWait t.effects)
software_event_starves_epoll_example =
    software_event_starves_epoll {live = 0} (ok []) triggered_reactor-IsPending here

abbrev idle : Turn ℕ
idle = record { reactor = triggered_reactor; pushed = []; effects = [] }
