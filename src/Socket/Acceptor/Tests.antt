-- ===== src/Socket/Acceptor/Tests.antt =====
-- A socket that accepts two connections, and one whose AcceptAsync finds a connection at once.
use asrt.Base.{ℕ, ◌≡◌, refl, true, none, some, List, [], ◌∷◌, All}
use asrt.Base.Course.{course, IsAnswered}
use asrt.Base.Int.{pos}
use asrt.ErrorCode.{ok, err, try_again, is_busy, eq_code, to_underlying}
use asrt.Reactor.Events.{of_mask, has_write_event, has_event}
use asrt.Socket.Acceptor.{Acceptor, listening, new_acceptor, accept_async_internal, is_busy_result}
use asrt.Socket.Acceptor.Course.{
  Move, accepts_async, calls_listen, event, ends, step, held, IsSound, bound_world,
  accepts-IsAnswered,
}
use asrt.Socket.Acceptor.Speculation.{
  UserCall, accept_async_call, listen_call, call_all, IsRefused, whole_event,
  speculative_accept_sticks,
}

-- The second handler still waits at the end.
abbrev two_accepts : List (Move ℕ)
two_accepts =
    accepts_async (ok tt) (err try_again) 1 none 10
    ∷ event (of_mask 1) (ok (pos 7))
    ∷ calls_listen (ok tt)
    ∷ ends
    ∷ accepts_async (ok tt) (err try_again) 2 (some 5) 20
    ∷ event (of_mask 1) (err try_again)
    ∷ ends
    ∷ []

accepts-IsAnswered_example : IsAnswered held IsSound (course step two_accepts (bound_world ℕ))
unfolding is_busy_result is_busy eq_code to_underlying has_write_event has_event
accepts-IsAnswered_example =
    accepts-IsAnswered two_accepts (refl, (refl, (tt, (tt, (refl, (refl, (tt, tt)))))))

-- A socket that listens and has missed an event.
abbrev missed : Acceptor ℕ
missed = record (new_acceptor ℕ) { acceptor_sockstate = listening; speculative_accept = true }

abbrev more_calls : List (UserCall ℕ)
more_calls = listen_call (ok tt) ∷ accept_async_call (ok tt) (ok (pos 9)) 2 none 20 ∷ []

speculative_accept_sticks_example :
    let (result, a', effects) = accept_async_internal (ok tt) (ok (pos 7)) 1 none 10 missed in
    let (results, a'') = call_all more_calls a' in
    (result ≡ ok tt) × All IsRefused results × (whole_event (of_mask 1) (ok (pos 8)) a'' ≡ none)
unfolding is_busy_result
speculative_accept_sticks_example =
    speculative_accept_sticks (ok tt) (ok (pos 7)) 1 none 10 missed more_calls (of_mask 1)
      (ok (pos 8)) refl refl refl refl refl
