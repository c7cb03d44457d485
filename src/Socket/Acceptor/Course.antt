-- ===== src/Socket/Acceptor/Course.antt =====
-- A listening socket under every course of its operations and of the reactor's events, while it is not
-- closed.
use asrt.Base.{
  ℕ, ◌≡◌, ◌≢◌, refl, true, false, Option, none, some, List, [], ◌∷◌, append-nil, All, ◌⊎◌, inr,
  arith,
}
use asrt.Base.Course.{Stepped, course, IsNotified, IsAnswered, IsAnswered-of, course-IsNotified}
use asrt.ErrorCode.{Result, ok, err}
use asrt.Reactor.Entry.{NativeHandle}
use asrt.Reactor.Events.{Events, has_write_event}
use asrt.Socket.Acceptor.{
  Acceptor, in_bound, accepting, disconnected, Effect, posts, calls, new_acceptor, listen,
  do_listen, set_acceptor_socket_state, accept_sync_internal, accept_async_internal,
  begin_acceptor_event, end_acceptor_event, is_busy_result, do_accept, do_async_accept,
  accept_listening, start_accept, start_listening, wait_for_connection, complete_accept,
}

-- `event` is the reactor's event up to the end of its accept, and `ends` the rest of it.
pub data Move (H : Type 0) : Type 0 where
  calls_listen : Result (Unit {0}) → Move H
  accepts_now : Result (Unit {0}) → Result NativeHandle → ℕ → Option ℕ → Move H
  accepts_async : Result (Unit {0}) → Result NativeHandle → ℕ → Option ℕ → H → Move H
  event : Events → Result NativeHandle → Move H
  ends : Move H

-- `in_flight` is the result of the accept of an event that has not ended.
pub record World (H : Type 0) : Type 0 where
  pub acceptor : Acceptor H
  pub in_flight : Option (Result (Unit {0}))

abbrev pub bound_world : (H : Type 0) → World H
bound_world H = record {
  acceptor = record (new_acceptor H) { acceptor_sockstate = in_bound };
  in_flight = none;
}

module _ {H : Type 0} where
  -- The handlers that a step calls or posts.
  abbrev pub notified : List (Effect H) → List H
  notified [] = []
  notified (posts h result ∷ effects) = h ∷ notified effects
  notified (calls h result ∷ effects) = h ∷ notified effects
  notified (_ ∷ effects) = notified effects

  abbrev started : H → Result (Unit {0}) → List H
  started h (ok done) = h ∷ []
  started h (err error) = []

  -- The handlers of the calls of AcceptAsync that succeed, the new world, and the handlers notified.
  unfoldable pub step : Move H → World H → Stepped (World H) H
  unfolding listen accept_sync_internal accept_async_internal begin_acceptor_event
      end_acceptor_event
  step (calls_listen answer) w =
      let (result, a, effects) = listen answer w.acceptor in
      some ([], record w { acceptor = a }, notified effects)
  step (accepts_now listened answer peer endpoint) w =
      let (result, a, effects) = accept_sync_internal listened answer peer endpoint w.acceptor in
      some ([], record w { acceptor = a }, notified effects)
  step (accepts_async listened answer peer endpoint h) w =
      let (result, a, effects) = accept_async_internal listened answer peer endpoint h w.acceptor in
      some (started h result, record w { acceptor = a }, notified effects)
  step (event events answer) w = elim w.in_flight [
    | some result ↦ some ([], w, [])
    | none ↦ elim (begin_acceptor_event events answer w.acceptor) [
      | none ↦ none
      | some (flight, a, effects) ↦
          some ([], record { acceptor = a; in_flight = flight }, notified effects)
    ]
  ]
  step ends w = elim w.in_flight [
    | none ↦ some ([], w, [])
    | some result ↦ elim (end_acceptor_event result w.acceptor) [
      | none ↦ none
      | some (a, effects) ↦ some ([], record { acceptor = a; in_flight = none }, notified effects)
    ]
  ]

  -- No write event is reported, and an accept that AcceptAsync tries at once finds no connection.
  abbrev pub IsExpected : Move H → Type 0
  IsExpected (accepts_async listened answer peer endpoint h) = is_busy_result answer ≡ true
  IsExpected (event events answer) = has_write_event events ≡ false
  IsExpected _ = Unit

  -- The handler that waits for a connection.
  abbrev pub held : World H → List H
  held w = elim w.acceptor.on_accept_complete [ none ↦ [] | some h ↦ h ∷ [] ]

  -- A socket that accepts has a handler and a socket for the connection, and no other has a handler.
  abbrev pub IsSound : World H → Type 0
  IsSound w =
      let a = w.acceptor in
      ((a.acceptor_sockstate ≡ accepting) × (a.on_accept_complete ≢ none) × (a.peer_socket ≢ none))
      ⊎ ((a.acceptor_sockstate ≢ accepting)
          × (a.acceptor_sockstate ≢ disconnected)
          × (a.on_accept_complete ≡ none)
          × (w.in_flight ≡ none))

  listen-IsNotified :
      (answer : Result (Unit {0})) (w : World H)
      → IsSound w
      → IsNotified held IsSound w (step (calls_listen answer) w)
  unfolding step listen do_listen set_acceptor_socket_state
  listen-IsNotified answer w sound = ground (arith, append-nil (held w))

  accept_sync-IsNotified :
      (listened : Result (Unit {0})) (answer : Result NativeHandle) (peer : ℕ) (endpoint : Option ℕ)
      (w : World H)
      → IsSound w
      → IsNotified held IsSound w (step (accepts_now listened answer peer endpoint) w)
  unfolding step accept_sync_internal do_listen do_accept set_acceptor_socket_state accept_listening
  accept_sync-IsNotified listened answer peer endpoint w sound = ground (arith, append-nil (held w))

  accept_async-IsNotified :
      (listened : Result (Unit {0})) (answer : Result NativeHandle) (peer : ℕ) (endpoint : Option ℕ)
      (h : H) (w : World H)
      → IsSound w
      → is_busy_result answer ≡ true
      → IsNotified held IsSound w (step (accepts_async listened answer peer endpoint h) w)
  unfolding step accept_async_internal do_listen do_accept set_acceptor_socket_state do_async_accept
      start_accept start_listening wait_for_connection is_busy_result
  accept_async-IsNotified listened answer peer endpoint h w sound busy =
      ground (arith, append-nil (held w))

  event-IsNotified :
      (events : Events) (answer : Result NativeHandle) (w : World H)
      → IsSound w
      → has_write_event events ≡ false
      → IsNotified held IsSound w (step (event events answer) w)
  unfolding step begin_acceptor_event do_accept
  event-IsNotified events answer w sound reads = ground (arith, append-nil (held w))

  ends-IsNotified : (w : World H) → IsSound w → IsNotified held IsSound w (step ends w)
  unfolding step end_acceptor_event complete_accept is_busy_result
  ends-IsNotified w sound = ground (arith, append-nil (held w))

  step-IsNotified :
      (m : Move H) (w : World H) → IsSound w → IsExpected m → IsNotified held IsSound w (step m w)
  step-IsNotified (calls_listen answer) w sound expected = listen-IsNotified answer w sound
  step-IsNotified (accepts_now listened answer peer endpoint) w sound expected =
      accept_sync-IsNotified listened answer peer endpoint w sound
  step-IsNotified (accepts_async listened answer peer endpoint h) w sound expected =
      accept_async-IsNotified listened answer peer endpoint h w sound expected
  step-IsNotified (event events answer) w sound expected =
      event-IsNotified events answer w sound expected
  step-IsNotified ends w sound expected = ends-IsNotified w sound

  -- From a bound socket, while it is not closed, no call of Listen, Accept and AcceptAsync and no event
  -- of the reactor without a write uses a null socket or an empty handler, and the handlers of the calls of AcceptAsync that
  -- succeed are called or posted in the order of these calls and each once, except that the last one may
  -- still wait; this is where every accept that AcceptAsync tries at once finds no connection.
  pub accepts-IsAnswered :
      (ms : List (Move H))
      → All IsExpected ms
      → IsAnswered held IsSound (course step ms (bound_world H))
  accepts-IsAnswered ms expected =
      let w = bound_world H in
      IsAnswered-of held IsSound w (course step ms w) refl (
        course-IsNotified step held IsSound IsExpected step-IsNotified ms w
          (inr (ground arith, ground arith, refl, refl)) expected)
