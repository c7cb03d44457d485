-- ===== src/Reactor/Entry/Invariant.antt =====
-- One entry under every interleaving of the threads that use it, with the writes of a registration one by one.
-- `queued` counts the handlers of the
-- entry in the executor's queues and `running` those between their call and their return, during
-- which the mutex is free; `faulted` records a call of an empty handler; `asked` are the descriptors
-- that a successful deregistration was to close, `closed` those that were closed, newest first.
use asrt.Base.{
  ℕ, ◌+◌, ◌-◌, ◌≤◌, ◌≡◌, Bool, true, false, not, ◌&&◌, ◌||◌, Option, none, some, List, [], ◌∷◌,
  arith, ◌==◌, if◌then◌else◌,
}
use asrt.ErrorCode.{ErrorCode}
use asrt.Reactor.Events.{Events}
use asrt.Reactor.Entry.{
  Entry, NativeHandle, Effect, Result, ok, err, close, EventChangeType, io_event, Entered, returned,
  skipped, calls, fresh_entry, register_entry, deregister, handle_single_event, enter_io_handler,
  leave_io_handler, write_valid, monitored_on_register, write_monitored_events,
  write_captured_events, write_handler_posted, skip_io_handler, on_start_of_operation,
  on_event_ignored, consume_observation_status, replace_handler, do_modify_event,
}

-- How far the writes of a registration are: none is under way; or valid_ is written, with the events that
-- monitored_events_ is to hold; or monitored_events_ is; or captured_events_ is, and handler_posted_ is not.
pub data Phase : Type 0 where
  settled monitored cleared : Phase
  exposed : Events → Phase

abbrev pub is_settled : Phase → Bool
is_settled settled = true
is_settled _ = false

pub record Slot (H : Type 0) : Type 0 where
  pub entry : Entry H
  pub phase : Phase
  pub queued : ℕ
  pub running : ℕ
  pub faulted : Bool
  pub asked : List NativeHandle
  pub closed : List NativeHandle

-- What a thread can do with the entry of an I/O source. The arguments are those of the call, with the
-- answer of epoll_ctl last. `registers` ends with the write of valid_, and `proceeds` is the next write.
pub data Move (H : Type 0) : Type 0 where
  registers : NativeHandle → Events → H → Option ErrorCode → Move H
  proceeds : Move H
  deregisters : Bool → Option ErrorCode → Move H
  captures : ℕ → Move H
  enters leaves : Move H
  starts : ℕ → Move H
  ignores observes : Events → Move H
  replaces : H → Move H
  modifies : EventChangeType → Events → Option ErrorCode → Move H

abbrev pub is_some {ℓ} : {A : Type ℓ} → Option A → Bool
is_some none = false
is_some (some a) = true

abbrev closes : List Effect → List NativeHandle → List NativeHandle
closes [] fds = fds
closes (close fd ∷ rest) fds = fd ∷ closes rest fds
closes (_ ∷ rest) fds = closes rest fds

abbrev pub is_ok {ℓ} : {A : Type ℓ} → Result A → Bool
is_ok (ok a) = true
is_ok (err e) = false

module _ {H : Type 0} where
  abbrev pub new_slot : Slot H
  new_slot = record {
    entry = fresh_entry H;
    phase = settled;
    queued = 0;
    running = 0;
    faulted = false;
    asked = [];
    closed = [];
  }

  -- The queued handler starts: it returns at once, skips the call, or calls.
  entered : Slot H → Entered H → Slot H
  entered s returned = record s { queued = s.queued - 1 }
  entered s skipped =
      let (e, effects) = skip_io_handler s.entry in
      record s { queued = s.queued - 1; entry = e; closed = closes effects s.closed }
  entered s (calls h events e) = record s {
    queued = s.queued - 1;
    entry = e;
    running = s.running + 1;
    faulted = s.faulted || not (is_some h);
  }

  -- One registration is under way at a time, under the registration mutex.
  registered : NativeHandle → Events → H → Slot H → Slot H
  unfolding write_valid monitored_on_register
  registered io events h s = record s {
    entry = write_valid io_event io h s.entry;
    phase = exposed (monitored_on_register io_event events);
  }

  after_write : Slot H → Phase → Slot H
  unfolding write_monitored_events write_captured_events write_handler_posted
  after_write s settled = s
  after_write s (exposed events) = record s {
    entry = write_monitored_events events s.entry;
    phase = monitored;
  }
  after_write s monitored = record s { entry = write_captured_events s.entry; phase = cleared }
  after_write s cleared = record s { entry = write_handler_posted s.entry; phase = settled }

  -- A slot is registered only when the search finds it free; a handler starts only from the queue and
  -- returns only if it is running.
  unfoldable pub step : Slot H → Move H → Slot H
  unfolding entered registered after_write
  step s (registers io events h answer) =
      if is_settled s.phase
        && not s.entry.valid
        && not s.entry.handler_posted
        && is_ok (register_entry io_event io events h answer s.entry).0
      then registered io events h s
      else s
  step s proceeds = after_write s s.phase
  step s (deregisters closing answer) =
      let (result, e, effects) = deregister closing answer s.entry in
      record s {
        entry = e;
        asked = if is_ok result && closing then s.entry.io_source ∷ s.asked else s.asked;
        closed = closes effects s.closed;
      }
  step s (captures mask) =
      let (e, pushed) = handle_single_event mask s.entry in
      record s { entry = e; queued = s.queued + (if pushed then 1 else 0) }
  step s enters = if s.queued == 0 then s else entered s (enter_io_handler s.entry)
  step s leaves =
      if s.running == 0
      then s
      else let (e, effects) = leave_io_handler s.entry in
        record s { entry = e; running = s.running - 1; closed = closes effects s.closed }
  step s (starts op_type) = record s { entry = (on_start_of_operation op_type s.entry).0 }
  step s (ignores ev) = record s { entry = (on_event_ignored ev s.entry).0 }
  step s (observes ev) = record s { entry = consume_observation_status ev s.entry }
  step s (replaces h) = record s { entry = replace_handler h s.entry }
  step s (modifies how ev answer) = record s { entry = (do_modify_event how ev answer s.entry).1 }

  unfoldable pub run : Slot H → List (Move H) → Slot H
  run s [] = s
  run s (m ∷ ms) = run (step s m) ms

  -- The reactor queues the handler while a registration is between its writes.
  unfoldable pub tears : Slot H → Move H → Bool
  tears s (captures mask) = not (is_settled s.phase) && (handle_single_event mask s.entry).1
  tears s _ = false

  unfoldable pub is_untorn : Slot H → List (Move H) → Bool
  unfolding tears
  is_untorn s [] = true
  is_untorn s (m ∷ ms) = not (tears s m) && is_untorn (step s m) ms

  pub record IsSound (s : Slot H) : Type 0 where
    pub handler_kept : s.entry.valid ≡ true → is_some s.entry.handler ≡ true
    pub handler_runs : s.entry.execution_in_progress ≡ true → is_some s.entry.handler ≡ true
    pub running_flag : s.running ≡ (if s.entry.execution_in_progress then 1 else 0)
    pub one_handler : s.queued + s.running ≤ (if s.entry.handler_posted then 1 else 0)
    pub release_runs : s.entry.release_handler_memory ≡ true → s.entry.execution_in_progress ≡ true
    pub release_invalid : s.entry.release_handler_memory ≡ true → s.entry.valid ≡ false
    pub close_releases : s.entry.close_io_source ≡ true → s.entry.release_handler_memory ≡ true
    pub closed_or_owed :
        s.asked ≡ (if s.entry.close_io_source then s.entry.io_source ∷ s.closed else s.closed)
    pub no_fault : s.faulted ≡ false
    pub not_posted : is_settled s.phase ≡ false → s.entry.handler_posted ≡ false

  pub step-IsSound : (s : Slot H) (m : Move H) → IsSound s → tears s m ≡ false → IsSound (step s m)
  unfolding tears step write_valid monitored_on_register write_monitored_events
      write_captured_events write_handler_posted register_entry deregister handle_single_event
      enter_io_handler leave_io_handler skip_io_handler on_start_of_operation on_event_ignored
      consume_observation_status replace_handler do_modify_event
  step-IsSound s (registers io events h answer) v untorn = ground arith
  step-IsSound s proceeds v untorn = ground arith
  step-IsSound s (deregisters closing answer) v untorn = ground arith
  step-IsSound s (captures mask) v untorn = ground arith
  step-IsSound s enters v untorn = ground arith
  step-IsSound s leaves v untorn = ground arith
  step-IsSound s (starts op_type) v untorn = ground arith
  step-IsSound s (ignores ev) v untorn = ground arith
  step-IsSound s (observes ev) v untorn = ground arith
  step-IsSound s (replaces h) v untorn = ground arith
  step-IsSound s (modifies how ev answer) v untorn = ground arith
