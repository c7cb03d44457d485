-- ===== src/Reactor/Entry.antt =====
-- include/asrt/reactor/epoll_reactor.hpp: what the reactor does with one entry: registration, under the
-- registration mutex alone, and, while it holds the entry's mutex, deregistration, an epoll event, the queued
-- handler, the start of an operation, and changes of the monitored events.
-- The outcome of an epoll_ctl call is an argument (`none` for success). What an operation asks of
-- the kernel and of the executor is returned in order as a list of effects.
pub mod State
pub mod Invariant
pub mod Lifetime
use Prim.Native.Nat.{bit_or}
use asrt.Base.{
  ℕ, suc, ◌+◌, Bool, true, false, not, ◌&&◌, ◌||◌, Option, none, some, List, [], ◌∷◌, ◌++◌, ◌==◌,
  if◌then◌else◌,
}
use asrt.ErrorCode.{ErrorCode, reactor_entry_invalid}
pub use State.{
  NativeHandle, invalid_native_handle, Effect, epoll_add, epoll_modify, epoll_remove, close,
  job_arrival, EventRegistrationType, io_event, one_shot_software_event, persistent_software_event,
  EventChangeType, add_event, remove_event, set_event, Entry, fresh_entry,
}
pub use asrt.ErrorCode.{Result, ok, err, outcome}
use asrt.Reactor.Events.{
  Events, epollin, epollpri, epollout, epollet, no_events, of_mask, add, plus, minus, consume,
  intersection, is_empty, has_event, has_io_event, has_write_event, eq_events,
}

-- The part of `RegisterImpl` behind the search for a slot. Read events are registered eagerly.
unfoldable pub monitored_on_register : EventRegistrationType → Events → Events
monitored_on_register io_event events =
    if has_io_event events then add events (bit_or epollin epollpri) else events
monitored_on_register _ events = events

asks_epoll : EventRegistrationType → Events → Bool
asks_epoll io_event events = has_io_event events
asks_epoll _ events = false

is_oneshot : EventRegistrationType → Bool → Bool
is_oneshot one_shot_software_event old = true
is_oneshot _ old = old

-- The queued handler of an I/O event up to the call of the user's handler. `returned` is the early
-- return for a deregistered source, `skipped` the path past an empty report.
pub data Entered (H : Type 0) : Type 0 where
  returned skipped : Entered H
  calls : Option H → Events → Entry H → Entered H

changed_events : EventChangeType → Events → Events → Events
changed_events add_event monitored ev = plus monitored ev
changed_events remove_event monitored ev = minus monitored ev
changed_events set_event monitored ev = ev

needs_update : EventChangeType → Events → Events → Bool
needs_update add_event monitored ev =
    (has_event ev epollet && not (has_event monitored epollet))
    || (has_event ev epollout && not (has_event monitored epollout))
needs_update remove_event monitored ev =
    (has_event ev epollet && has_event monitored epollet)
    || (has_event ev epollout && has_event monitored epollout)
needs_update set_event monitored ev = not (eq_events ev monitored)

module _ {H : Type 0} where
  -- The writes of `RegisterImpl`, in order. They hold the registration mutex and not the entry's, so the reactor can
  -- look at the entry between them; the writes before that of valid_ are not told apart from it.
  unfoldable pub write_valid : EventRegistrationType → NativeHandle → H → Entry H → Entry H
  unfolding is_oneshot
  write_valid how io_source h e = record e {
    io_source = io_source;
    handler = some h;
    valid = true;
    is_software_event_oneshot = is_oneshot how e.is_software_event_oneshot;
  }

  unfoldable pub write_monitored_events : Events → Entry H → Entry H
  write_monitored_events events e = record e { monitored_events = events }

  unfoldable pub write_captured_events : Entry H → Entry H
  write_captured_events e = record e { captured_events = no_events }

  unfoldable pub write_handler_posted : Entry H → Entry H
  write_handler_posted e = record e { handler_posted = false }

  -- All of them without a pause.
  store_registration : EventRegistrationType → NativeHandle → Events → H → Entry H → Entry H
  unfolding monitored_on_register write_valid write_monitored_events write_captured_events
      write_handler_posted
  store_registration how io_source events h e = write_handler_posted (
      write_captured_events
        (write_monitored_events (monitored_on_register how events) (write_valid how io_source h e)))

  unfoldable pub register_entry :
      EventRegistrationType
      → NativeHandle
      → Events
      → H
      → Option ErrorCode
      → Entry H
      → Result (Unit {0}) × Entry H × List Effect
  unfolding store_registration asks_epoll monitored_on_register
  register_entry how io_source events h answer e =
      if asks_epoll how events
      then elim answer [
        | none ↦ (
          ok tt,
          store_registration how io_source events h e,
          epoll_add io_source (monitored_on_register how events).event_mask ∷ [],
        )
        | some error ↦
            (err error, e, epoll_add io_source (monitored_on_register how events).event_mask ∷ [])
      ]
      else (ok tt, store_registration how io_source events h e, [])

  -- What `DerigsterImpl` does once epoll has removed the descriptor: a handler that is running is
  -- released, and its descriptor closed, by the code that runs it.
  release_entry : Bool → Entry H → Entry H × List Effect
  release_entry close_on_deregister e =
      if e.execution_in_progress
      then (
        record e {
          release_handler_memory = true;
          close_io_source = close_on_deregister || e.close_io_source;
          valid = false;
        },
        [],
      )
      else (
        record e { handler = none; valid = false },
        (if close_on_deregister then close e.io_source ∷ [] else []),
      )

  -- `DerigsterImpl`.
  unfoldable pub deregister :
      Bool → Option ErrorCode → Entry H → Result (Unit {0}) × Entry H × List Effect
  unfolding release_entry
  deregister close_on_deregister answer e =
      if not e.valid then (err reactor_entry_invalid, e, []) else elim answer [
        | none ↦
            let (e', effects) = release_entry close_on_deregister e in
            (ok tt, e', epoll_remove e.io_source ∷ effects)
        | some error ↦ (err error, e, epoll_remove e.io_source ∷ [])
      ]

  -- `DeregisterSoftwareEvent`.
  unfoldable pub deregister_software_event : Entry H → Result (Unit {0}) × Entry H
  deregister_software_event e =
      if not e.valid
      then (err reactor_entry_invalid, e)
      else if e.execution_in_progress
      then (ok tt, record e { release_handler_memory = true; valid = false })
      else (ok tt, record e { handler = none; valid = false })

  -- `HandleSingleEvent`: the new entry, and whether its handler is pushed to the executor's queue.
  unfoldable pub handle_single_event : ℕ → Entry H → Entry H × Bool
  handle_single_event mask e =
      let e' = record e { captured_events = of_mask mask } in
      if not e.valid
      then (e', false)
      else if e.handler_posted
      then (e', false)
      else if is_empty (intersection (of_mask mask) e.monitored_events)
      then (e', false)
      else (record e' { handler_posted = true }, true)

  unfoldable pub enter_io_handler : Entry H → Entered H
  enter_io_handler e =
      if not e.valid
      then returned
      else let events_to_report = intersection e.captured_events e.monitored_events in
        if is_empty events_to_report
        then skipped
        else calls e.handler events_to_report (record e {
          monitored_events = consume e.monitored_events events_to_report;
          async_operation_ongoing = false;
          execution_in_progress = true;
        })

  -- The rest of the queued handler, behind the call or past it.
  finish_io_handler : Entry H → Entry H × List Effect
  finish_io_handler e = (
    record e {
      handler = if e.release_handler_memory then none else e.handler;
      release_handler_memory = false;
      close_io_source = false;
      handler_posted = false;
    },
    (if e.close_io_source then close e.io_source ∷ [] else []),
  )

  -- Behind the call: the mutex is held again.
  unfoldable pub leave_io_handler : Entry H → Entry H × List Effect
  unfolding finish_io_handler
  leave_io_handler e = finish_io_handler (record e { execution_in_progress = false })

  unfoldable pub skip_io_handler : Entry H → Entry H × List Effect
  unfolding finish_io_handler
  skip_io_handler e = finish_io_handler e

  -- The queued handler of a software event up to the call of the user's handler, and behind it.
  unfoldable pub enter_software_handler : Entry H → Option H × Entry H
  enter_software_handler e = (e.handler, record e { execution_in_progress = true })

  unfoldable pub leave_software_handler : Entry H → Entry H
  leave_software_handler e =
      if e.is_software_event_oneshot
      then record e {
        execution_in_progress = false;
        handler = none;
        release_handler_memory = false;
        valid = false;
        handler_posted = false;
      }
      else if e.release_handler_memory
      then record e {
        execution_in_progress = false;
        handler = none;
        release_handler_memory = false;
        handler_posted = false;
      }
      else record e { execution_in_progress = false; handler_posted = false }

  -- `OnStartOfOperation`: `op_type` is an event mask. A failed epoll_ctl is logged only.
  unfoldable pub on_start_of_operation : ℕ → Entry H → Entry H × List Effect
  on_start_of_operation op_type e =
      let update_epoll = (op_type == epollout) && not (has_write_event e.monitored_events) in
      let monitored = plus e.monitored_events (of_mask op_type) in
      let arrivals = if e.async_operation_ongoing then [] else job_arrival ∷ [] in
      let updates =
        if update_epoll
        then epoll_modify e.io_source (bit_or (bit_or monitored.event_mask epollin) epollpri) ∷ []
        else [] in
      (
        record e { monitored_events = monitored; async_operation_ongoing = true },
        arrivals ++ updates,
      )

  -- `OnEventIgnored`.
  unfoldable pub on_event_ignored : Events → Entry H → Entry H × List Effect
  on_event_ignored ev e =
      (record e { monitored_events = plus e.monitored_events ev }, job_arrival ∷ [])

  -- `ConsumeObservationStatusUnsafe`.
  unfoldable pub consume_observation_status : Events → Entry H → Entry H
  consume_observation_status ev e = record e { captured_events = minus e.captured_events ev }

  -- `RegisterHandler`.
  unfoldable pub replace_handler : H → Entry H → Entry H
  replace_handler h e = record e { handler = some h }

  -- `DoModifyEvent`.
  unfoldable pub do_modify_event :
      EventChangeType
      → Events
      → Option ErrorCode
      → Entry H
      → Result (Unit {0}) × Entry H × List Effect
  unfolding changed_events needs_update
  do_modify_event how ev answer e =
      let changed = changed_events how e.monitored_events ev in
      let mask = bit_or (bit_or changed.event_mask epollin) epollpri in
      if not e.valid
      then (err reactor_entry_invalid, e, [])
      else if not (needs_update how e.monitored_events ev)
      then (ok tt, record e { monitored_events = changed }, [])
      else elim answer [
        | none ↦
            (ok tt, record e { monitored_events = changed }, epoll_modify e.io_source mask ∷ [])
        | some error ↦ (err error, e, epoll_modify e.io_source mask ∷ [])
      ]

  -- `IsInUseImpl`.
  unfoldable pub is_in_use : Entry H → Bool
  is_in_use e = e.valid || e.execution_in_progress
