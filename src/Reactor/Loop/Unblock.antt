-- ===== src/Reactor/Loop/Unblock.antt =====
-- The unblock event inside the array that epoll_wait fills.
use asrt.Base.{◌≡◌, List, [], ◌∷◌, ◌++◌, arith, get_elem?, Option-cases, inl, inr, ==_iff}
use asrt.Reactor.Loop.{
  Turn, EpollEvent, reactor_unblock_tag, timer_handler, handle_io_event, dispatch_events,
}

module _ {H : Type 0} where
  -- Whatever stands in the array behind the unblock event has no influence: those events are neither
  -- recorded nor dispatched, and epoll reports an edge only once.
  pub unblock_drops_later_events :
      (before after : List EpollEvent) (event : EpollEvent) (t : Turn H)
      → event.tag ≡ reactor_unblock_tag
      → dispatch_events (before ++ event ∷ after) t ≡ dispatch_events (before ++ event ∷ []) t
  unfolding dispatch_events
  unblock_drops_later_events [] after event t h =
      rw ((==_iff event.tag reactor_unblock_tag).1 h, dispatch_events)
  unblock_drops_later_events (e ∷ before) after event t h =
      elim (Option-cases (get_elem? t.reactor.operations e.tag)) [
        | inl absent ↦ ground (
          arith,
          unblock_drops_later_events before after event
              (record t { pushed = t.pushed ++ timer_handler ∷ [] }) h,
        )
        | inr (x, there) ↦ ground (
          arith,
          unblock_drops_later_events before after event
              (record t { pushed = t.pushed ++ timer_handler ∷ [] }) h,
          unblock_drops_later_events before after event (handle_io_event e t x) h,
        )
      ]
