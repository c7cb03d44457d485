-- ===== src/Reactor/Entry/Lifetime.antt =====
-- What holds of an I/O entry in every interleaving: who may run its handler, when the handler's
-- memory and the descriptor are given back, and when the slot can be used again.
use asrt.Base.{ℕ, refl, ◌⊎◌, inl, inr, ◌+◌, ◌≤◌, ◌≡◌, Bool, true, false, none, List, [], ◌∷◌, arith}
use asrt.Reactor.Entry.{
  register_entry, write_valid, write_monitored_events, write_captured_events, write_handler_posted,
  deregister, handle_single_event, enter_io_handler, leave_io_handler, skip_io_handler,
  on_start_of_operation, on_event_ignored, consume_observation_status, replace_handler,
  do_modify_event,
}
use asrt.Reactor.Entry.Invariant.{
  Slot, Phase, settled, monitored, cleared, exposed, is_settled, is_untorn, tears, Move, registers,
  proceeds, deregisters, captures, enters, leaves, starts, ignores, observes, replaces, modifies,
  is_some, new_slot, step, run, IsSound, step-IsSound,
}

Phase-cases : (p : Phase) → (p ≡ settled) ⊎ (is_settled p ≡ false)
Phase-cases settled = inl refl
Phase-cases monitored = inr refl
Phase-cases cleared = inr refl
Phase-cases (exposed events) = inr refl

module _ {H : Type 0} where
  pub new_slot-IsSound : IsSound (new_slot {H = H})
  new_slot-IsSound = ground arith

  pub run-IsSound :
      (s : Slot H) (ms : List (Move H)) → IsSound s → is_untorn s ms ≡ true → IsSound (run s ms)
  unfolding run is_untorn tears
  run-IsSound s [] v untorn = v
  run-IsSound s (m ∷ ms) v untorn =
      run-IsSound (step s m) ms (step-IsSound s m v (ground arith)) (ground arith)

  -- From a new entry and under every schedule, the writes of a registration one by one, in which the reactor does not
  -- queue the handler while a registration is between its writes: at most one handler of an I/O entry is queued or
  -- running, a handler is never called after its memory was given back, and a handler that is running
  -- or registered still has its memory.
  pub one_handler_with_memory :
      (ms : List (Move H))
      → is_untorn (new_slot {H = H}) ms ≡ true
      → let s = run (new_slot {H = H}) ms in
        (s.queued + s.running ≤ 1)
        × (s.faulted ≡ false)
        × (s.entry.execution_in_progress ≡ true → is_some s.entry.handler ≡ true)
        × (s.entry.valid ≡ true → is_some s.entry.handler ≡ true)
  one_handler_with_memory ms untorn =
      let v = run-IsSound new_slot ms new_slot-IsSound untorn in
      (ground (arith, v.one_handler), v.no_fault, v.handler_runs, v.handler_kept)

  -- From a new entry and under every schedule, the writes of a registration one by one, in which the reactor does not
  -- queue the handler while a registration is between its writes: when no handler of the entry is running, the
  -- descriptors closed are exactly those that successful deregistrations were asked to close, each
  -- once and in that order.
  pub closed_once :
      (ms : List (Move H))
      → is_untorn (new_slot {H = H}) ms ≡ true
      → (run new_slot ms).running ≡ 0
      → (run new_slot ms).closed ≡ (run new_slot ms).asked
  closed_once ms untorn idle =
      let v = run-IsSound new_slot ms new_slot-IsSound untorn in
      ground (arith, v.closed_or_owed, v.close_releases, v.release_runs, v.running_flag)

  -- Deregistered, with no handler queued or running, and yet marked as posted.
  abbrev IsLeaked : Slot H → Type 0
  IsLeaked s =
      (s.entry.valid ≡ false)
      × (s.entry.handler_posted ≡ true)
      × (s.queued ≡ 0)
      × (s.running ≡ 0)
      × (s.phase ≡ settled)

  step-IsLeaked : (s : Slot H) (m : Move H) → IsLeaked s → IsLeaked (step s m)
  unfolding step write_valid write_monitored_events write_captured_events write_handler_posted
      register_entry deregister handle_single_event enter_io_handler leave_io_handler
      skip_io_handler on_start_of_operation on_event_ignored consume_observation_status
      replace_handler do_modify_event
  step-IsLeaked s (registers io events h answer) v = ground arith
  step-IsLeaked s proceeds v = ground arith
  step-IsLeaked s (deregisters closing answer) v = ground arith
  step-IsLeaked s (captures mask) v = ground arith
  step-IsLeaked s enters v = ground arith
  step-IsLeaked s leaves v = ground arith
  step-IsLeaked s (starts op_type) v = ground arith
  step-IsLeaked s (ignores ev) v = ground arith
  step-IsLeaked s (observes ev) v = ground arith
  step-IsLeaked s (replaces h) v = ground arith
  step-IsLeaked s (modifies how ev answer) v = ground arith

  run-IsLeaked : (s : Slot H) (ms : List (Move H)) → IsLeaked s → IsLeaked (run s ms)
  unfolding run
  run-IsLeaked s [] v = v
  run-IsLeaked s (m ∷ ms) v = run-IsLeaked (step s m) ms (step-IsLeaked s m v)

  deregister_queued-IsLeaked :
      (s : Slot H) (closing : Bool)
      → IsSound s
      → s.entry.valid ≡ true
      → s.queued ≡ 1
      → IsLeaked (step (step s (deregisters closing none)) enters)
  unfolding step deregister enter_io_handler
  deregister_queued-IsLeaked s closing v valid one = elim (Phase-cases s.phase) [
    | inl done ↦ ground (arith, v.one_handler, v.running_flag, done)
    | inr torn ↦ absurd (ground (arith, v.one_handler, v.not_posted torn))
  ]

  -- From a sound state in which an I/O source is registered and its handler waits in the queue: if
  -- the source is deregistered, then, once that handler has come and gone, the slot stays marked as
  -- posted whatever happens afterwards. It is never free for another registration, though nothing is
  -- queued or running.
  pub deregister_queued_leaks :
      (s : Slot H) (closing : Bool) (ms : List (Move H))
      → IsSound s
      → s.entry.valid ≡ true
      → s.queued ≡ 1
      → let t = run (step (step s (deregisters closing none)) enters) ms in
        (t.entry.valid ≡ false) × (t.entry.handler_posted ≡ true) × (t.queued ≡ 0) × (t.running ≡ 0)
  deregister_queued_leaks s closing ms v valid one =
      let (invalid, posted, empty, idle, done) =
        run-IsLeaked _ ms (deregister_queued-IsLeaked s closing v valid one) in
      (invalid, posted, empty, idle)

  -- An epoll event that queues the handler before a registration's last write, of handler_posted_, queues it again
  -- behind that write: two are queued.
  torn_registration_queues_two :
      (mask : ℕ) (s : Slot H)
      → s.phase ≡ cleared
      → (handle_single_event mask s.entry).1 ≡ true
      → (run s (captures mask ∷ proceeds ∷ captures mask ∷ [])).queued ≡ s.queued + 2
  unfolding run step write_handler_posted handle_single_event
  torn_registration_queues_two mask s last queues = ground arith
