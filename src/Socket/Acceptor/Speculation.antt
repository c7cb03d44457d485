-- ===== src/Socket/Acceptor/Speculation.antt =====
-- A socket whose AcceptAsync gets its answer at once.
use asrt.Base.{ℕ, ◌≡◌, refl, true, false, Option, none, some, List, [], ◌∷◌, All, arith}
use asrt.ErrorCode.{Result, ok, err, accept_operation_ongoing}
use asrt.Reactor.Entry.{NativeHandle}
use asrt.Reactor.Events.{Events}
use asrt.Socket.Acceptor.{
  Acceptor, Effect, listening, accepting, listen, accept_sync_internal, accept_async_internal,
  begin_acceptor_event, end_acceptor_event, is_busy_result, do_accept, do_async_accept,
  start_accept, set_acceptor_socket_state, complete_accept,
}

pub data UserCall (H : Type 0) : Type 0 where
  listen_call : Result (Unit {0}) → UserCall H
  accept_call : Result (Unit {0}) → Result NativeHandle → ℕ → Option ℕ → UserCall H
  accept_async_call : Result (Unit {0}) → Result NativeHandle → ℕ → Option ℕ → H → UserCall H

abbrev pub IsRefused : Result (Unit {0}) → Type 0
IsRefused result = result ≡ err accept_operation_ongoing

module _ {H : Type 0} where
  unfoldable pub call : UserCall H → Acceptor H → Result (Unit {0}) × Acceptor H × List (Effect H)
  unfolding listen accept_sync_internal accept_async_internal
  call (listen_call answer) a = listen answer a
  call (accept_call listened answer peer endpoint) a =
      accept_sync_internal listened answer peer endpoint a
  call (accept_async_call listened answer peer endpoint h) a =
      accept_async_internal listened answer peer endpoint h a

  -- The results of calls, and the socket behind them.
  unfoldable pub call_all : List (UserCall H) → Acceptor H → List (Result (Unit {0})) × Acceptor H
  unfolding call
  call_all [] a = ([], a)
  call_all (c ∷ cs) a =
      let (result, a', effects) = call c a in let rest = call_all cs a' in (result ∷ rest.0, rest.1)

  -- An event of the reactor and its accept, with nothing in between; `none` where a null pointer is
  -- used or an empty handler is called.
  unfoldable pub whole_event :
      Events → Result NativeHandle → Acceptor H → Option (Acceptor H × List (Effect H))
  unfolding begin_acceptor_event end_acceptor_event
  whole_event events answer a = elim (begin_acceptor_event events answer a) [
    | none ↦ none
    | some (none, a', effects) ↦ some (a', effects)
    | some (some result, a', effects) ↦ end_acceptor_event result a'
  ]

  call-IsRefused :
      (c : UserCall H) (a : Acceptor H)
      → a.acceptor_sockstate ≡ accepting
      → call c a ≡ (err accept_operation_ongoing, a, [])
  unfolding call listen accept_sync_internal accept_async_internal
  call-IsRefused (listen_call answer) a e = ground arith
  call-IsRefused (accept_call listened answer peer endpoint) a e = ground arith
  call-IsRefused (accept_async_call listened answer peer endpoint h) a e = ground arith

  -- Calls on a socket that accepts.
  call_all-IsRefused :
      (cs : List (UserCall H)) (a : Acceptor H)
      → a.acceptor_sockstate ≡ accepting
      → let (results, a') = call_all cs a in All IsRefused results × (a' ≡ a)
  unfolding call_all
  call_all-IsRefused [] a e = (tt, refl)
  call_all-IsRefused (c ∷ cs) a e =
      let (refused, kept) = call_all-IsRefused cs a e in
      rw (call-IsRefused c a e) ((refl, refused), kept)

  tried : Acceptor H → Acceptor H
  tried a = record a { acceptor_sockstate = accepting; speculative_accept = false }

  accept_async-tried :
      (listened : Result (Unit {0})) (answer : Result NativeHandle) (peer : ℕ) (endpoint : Option ℕ)
      (h : H) (a : Acceptor H)
      → a.acceptor_sockstate ≡ listening
      → a.speculative_accept ≡ true
      → is_busy_result answer ≡ false
      → let (result, a', effects) = accept_async_internal listened answer peer endpoint h a in
        (result ≡ ok tt) × (a' ≡ tried a)
  unfolding accept_async_internal start_accept do_async_accept do_accept is_busy_result tried
      set_acceptor_socket_state
  accept_async-tried listened answer peer endpoint h a state speculative found = ground arith

  whole_event-none :
      (events : Events) (answer : Result NativeHandle) (a : Acceptor H)
      → a.acceptor_sockstate ≡ accepting
      → a.on_accept_complete ≡ none
      → is_busy_result answer ≡ false
      → whole_event events answer a ≡ none
  unfolding whole_event begin_acceptor_event end_acceptor_event complete_accept do_accept
      is_busy_result
  whole_event-none events answer a state handler found = ground arith

  -- An AcceptAsync that is answered at once, by a connection or by an error other than try-again, is
  -- never over for the socket. Where the socket listens with speculative_accept set and no handler, the
  -- call succeeds, but every later Listen, Accept and AcceptAsync is refused with
  -- accept_operation_ongoing while the socket is not closed, and the next event that the reactor reports
  -- fails, by a null socket, an empty handler or an assertion, unless its accept finds no connection.
  pub speculative_accept_sticks :
      (listened : Result (Unit {0})) (answer : Result NativeHandle) (peer : ℕ) (endpoint : Option ℕ)
      (h : H) (a : Acceptor H) (cs : List (UserCall H)) (events : Events)
      (next : Result NativeHandle)
      → a.acceptor_sockstate ≡ listening
      → a.speculative_accept ≡ true
      → a.on_accept_complete ≡ none
      → is_busy_result answer ≡ false
      → is_busy_result next ≡ false
      → let (result, a', effects) = accept_async_internal listened answer peer endpoint h a in
        let (results, a'') = call_all cs a' in
        (result ≡ ok tt) × All IsRefused results × (whole_event events next a'' ≡ none)
  unfolding tried
  speculative_accept_sticks listened answer peer endpoint h a cs events next state speculative
        handler found again =
      let (done, left) =
        accept_async-tried listened answer peer endpoint h a state speculative found in
      let (refused, kept) = call_all-IsRefused cs (tried a) refl in
      rw left (done, refused, rw kept (whole_event-none events next (tried a) refl handler again))
