-- ===== src/Reactor/Loop.antt =====
-- include/asrt/reactor/epoll_reactor.hpp: the event loop (`HandleEventsImpl` and the handlers that it
-- calls), triggering of software events, and the timer handler. What is pushed to the executor's
-- queue and asked of the kernel and of the executor is returned in order. The answer of epoll_wait
-- is an argument: the error, or the events with the tag that each carries. `none` is an access to
-- `operations_` out of range.
pub mod Software
pub mod Starvation
pub mod Unblock
use asrt.Base.{
  ◌>>=◌, ℕ, ◌-◌, ◌^◌, ◌<◌, Bool, true, false, not, Option, none, some, List, [], ◌∷◌, ◌++◌, ◌==◌,
  ltb, if◌then◌else◌, length, get_elem?, set,
}
use asrt.ErrorCode.{ErrorCode, api_error}
use asrt.Reactor.Events.{has_software_event}
use asrt.Reactor.Entry.{Entry, NativeHandle, Result, ok, err, handle_single_event}

pub data UnblockReason : Type 0 where
  timeout signal software_event unblocked events_handled : UnblockReason

-- An operation in the executor's queue: the closures that the reactor makes.
pub data Operation : Type 0 where
  io_handler software_handler : ℕ → Operation
  timer_handler : Operation

pub data LoopEffect : Type 0 where
  epoll_wait read_eventfd job_arrival : LoopEffect

abbrev pub reactor_unblock_tag : ℕ
reactor_unblock_tag = 2 ^ 32 - 1

abbrev pub timer_tag : ℕ
timer_tag = 2 ^ 32 - 2

pub record EpollEvent : Type 0 where
  pub events : ℕ
  pub tag : ℕ

pub record Reactor (H : Type 0) : Type 0 where
  pub operations : List (Entry H)
  pub triggered_software_events : List ℕ

pub record Turn (H : Type 0) : Type 0 where
  pub reactor : Reactor H
  pub pushed : List Operation
  pub effects : List LoopEffect

-- What may fail by an access out of range.
module _ {H : Type 0} where
  abbrev turn : Reactor H → Turn H
  turn r = record { reactor = r; pushed = []; effects = [] }

  -- `TriggerSoftwareEvent`, for an entry that is there.
  triggered : ℕ → Entry H → Reactor H → Option (Result (Unit {0}) × Reactor H)
  triggered tag e r =
      if not e.valid
      then some (err api_error, r)
      else if not (has_software_event e.monitored_events)
      then some (err api_error, r)
      else some
          (ok tt, record r { triggered_software_events = r.triggered_software_events ++ tag ∷ [] })

  unfoldable pub trigger_software_event : ℕ → Reactor H → Option (Result (Unit {0}) × Reactor H)
  unfolding triggered
  trigger_software_event tag r = do e ← get_elem? r.operations tag; triggered tag e r

  -- The body of the loop of `HandleSoftwareEvents` for an entry that is there.
  post_software_event : ℕ → Turn H → Entry H → Turn H
  post_software_event tag t e = if not e.valid then t else record {
    reactor = record t.reactor {
      operations = set t.reactor.operations tag (record e { handler_posted = true });
    };
    pushed = t.pushed ++ software_handler tag ∷ [];
    effects = if e.is_software_event_oneshot then t.effects else t.effects ++ job_arrival ∷ [];
  }

  -- The loop over the triggered tags. The list is read and stays as it is.
  unfoldable pub post_software_events : List ℕ → Turn H → Option (Turn H)
  unfolding post_software_event
  post_software_events [] t = some t
  post_software_events (tag ∷ tags) t = do
    e ← get_elem? t.reactor.operations tag
    post_software_events tags (post_software_event tag t e)

  -- `HandleSoftwareEvents`; the number of events handled is that of the operations pushed.
  unfoldable pub handle_software_events : Reactor H → Option (Turn H)
  handle_software_events r = post_software_events r.triggered_software_events (turn r)

  -- One I/O event of the array: `HandleSingleEvent` with its push.
  handle_io_event : EpollEvent → Turn H → Entry H → Turn H
  handle_io_event event t e =
      let (e', pushes) = handle_single_event event.events e in
      record t {
        reactor = record t.reactor { operations = set t.reactor.operations event.tag e' };
        pushed = if pushes then t.pushed ++ io_handler event.tag ∷ [] else t.pushed;
      }

  -- The loop over the events of epoll_wait. The unblock event reads the eventfd and returns at once.
  unfoldable pub dispatch_events : List EpollEvent → Turn H → Option (UnblockReason × Turn H)
  unfolding handle_io_event
  dispatch_events [] t = some (events_handled, t)
  dispatch_events (event ∷ rest) t = elim (event.tag == reactor_unblock_tag) [
    | true ↦ some (unblocked, record t { effects = t.effects ++ read_eventfd ∷ [] })
    | false ↦ elim (event.tag == timer_tag) [
      | true ↦ dispatch_events rest (record t { pushed = t.pushed ++ timer_handler ∷ [] })
      | false ↦ elim (get_elem? t.reactor.operations event.tag) [
        | none ↦ none
        | some e ↦ dispatch_events rest (handle_io_event event t e)
      ]
    ]
  ]

  -- Behind the software events: the call of epoll_wait and its outcome.
  poll : Result (List EpollEvent) → Turn H → Option (Result UnblockReason × Turn H)
  poll (err error) t = some (err error, record t { effects = t.effects ++ epoll_wait ∷ [] })
  poll (ok []) t = some (ok timeout, record t { effects = t.effects ++ epoll_wait ∷ [] })
  poll (ok (event ∷ rest)) t = do
    r ← dispatch_events (event ∷ rest) (record t { effects = t.effects ++ epoll_wait ∷ [] })
    some (ok r.0, r.1)

  -- `HandleEventsImpl`.
  unfoldable pub handle_events :
      Result (List EpollEvent) → Reactor H → Option (Result UnblockReason × Turn H)
  unfolding poll
  handle_events answer r = do
    t ← handle_software_events r
    if ltb 0 (length t.pushed) then some (ok software_event, t) else poll answer t
