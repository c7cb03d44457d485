-- ===== src/Socket/BasicSocket/Course.antt =====
-- A socket under every course of its methods.
use Prim.Native.Nat.{bit_or}
use asrt.Base.{
  ℕ, ◌≡◌, ◌≢◌, refl, ap, ◌∙◌, Bool, true, false, Option, none, some, List, [], ◌∷◌, ◌++◌, arith,
  ◌⊎◌, inl, inr, All, All-append,
}
use asrt.ErrorCode.{Result, ok}
use asrt.Reactor.Entry.{NativeHandle}
use asrt.Socket.BasicSocket.{
  BasicSocket, Done, Call, register, new_socket, open_socket, close_socket, bind_socket, set_mode,
  toggle_non_blocking, is_closed, is_bound, set_flag, has_handle, assign_native_handle,
  do_open_socket, try_open_socket, as_closed, bind_open,
}

pub data Move : Type 0 where
  opens : Result NativeHandle → Result ℕ → Move
  closes : Result (Unit {0}) → Bool → Move
  binds : Result NativeHandle → Result ℕ → Bool → Result (Unit {0}) → Move
  sets_mode : Bool → Result ℕ → Result (Unit {0}) → Move

unfoldable pub step : Move → BasicSocket → Done
step (opens descriptor registration) s = open_socket descriptor registration s
step (closes answer in_use) s = close_socket answer in_use s
step (binds descriptor registration matches answer) s =
    bind_socket descriptor registration matches answer s
step (sets_mode enable flags answer) s = set_mode enable flags answer s

-- The socket and all the calls behind a course of methods.
unfoldable pub course : List Move → BasicSocket → BasicSocket × List Call
unfolding step
course [] s = (s, [])
course (move ∷ moves) s =
    let d = step move s in let rest = course moves d.after in (rest.0, d.calls ++ rest.1)

abbrev pub IsRegister : Call → Type 0
IsRegister (register handle) = Unit
IsRegister _ = ⊥

abbrev pub NotRegister : Call → Type 0
NotRegister call = ¬ IsRegister call

abbrev State : ℕ → Type 0
State n = (n ≡ 0) ⊎ (n ≡ 1) ⊎ (n ≡ 3)

State-open : (n : ℕ) → State n → (bit_or n 1 ≡ 1) ⊎ (bit_or n 1 ≡ 3)
State-open n (inl e) = inl (rw e refl)
State-open n (inr (inl e)) = inl (rw e refl)
State-open n (inr (inr e)) = inr (rw e refl)

State-bound : (n : ℕ) → State n → n ≢ 0 → bit_or n 2 ≡ 3
State-bound n (inl e) h = absurd (h e)
State-bound n (inr (inl e)) h = rw e refl
State-bound n (inr (inr e)) h = rw e refl

-- The states of a socket are closed, open, and open and bound; an open socket of a reactor has a handle
-- there.
abbrev pub IsSound : BasicSocket → Type 0
IsSound s =
    ((s.basic_socket_state ≡ 0) ⊎ (s.basic_socket_state ≡ 1) ⊎ (s.basic_socket_state ≡ 3))
    × ((s.basic_socket_state ≡ 0) ⊎ (s.has_reactor ≡ false) ⊎ (has_handle s ≡ true))

-- The same, and open if the result is a success.
abbrev IsOpened : Done → Type 0
IsOpened d = IsSound d.after × ((d.after.basic_socket_state ≢ 0) ⊎ (d.result ≢ ok tt))

do_open_socket-IsOpened :
    (descriptor : Result NativeHandle) (registration : Result ℕ) (s : BasicSocket)
    → IsSound s
    → IsOpened (do_open_socket descriptor registration s)
unfolding do_open_socket assign_native_handle set_flag has_handle
do_open_socket-IsOpened descriptor registration s (state, handle) =
    ground (arith, State-open s.basic_socket_state state)

try_open_socket-IsOpened :
    (descriptor : Result NativeHandle) (registration : Result ℕ) (s : BasicSocket)
    → IsSound s
    → IsOpened (try_open_socket descriptor registration s)
unfolding try_open_socket is_closed
try_open_socket-IsOpened descriptor registration s sound =
    ground (arith, do_open_socket-IsOpened descriptor registration s sound)

bind_open-IsSound :
    (matches : Bool) (answer : Result (Unit {0})) (d : Done)
    → IsOpened d
    → IsSound (bind_open matches answer d).after
unfolding bind_open set_flag has_handle
bind_open-IsSound matches answer d (sound, opened) =
    ground (arith, State-bound d.after.basic_socket_state sound.0)

step-IsSound : (move : Move) (s : BasicSocket) → IsSound s → IsSound (step move s).after
unfolding step open_socket close_socket bind_socket set_mode toggle_non_blocking as_closed
    has_handle
step-IsSound (opens descriptor registration) s sound =
    ground (arith, do_open_socket-IsOpened descriptor registration s sound)
step-IsSound (closes answer in_use) s sound = ground arith
step-IsSound (binds descriptor registration matches answer) s sound = ground (
  arith,
  bind_open-IsSound matches answer (try_open_socket descriptor registration s)
      (try_open_socket-IsOpened descriptor registration s sound),
)
step-IsSound (sets_mode enable flags answer) s sound = ground arith

course-IsSound_from : (moves : List Move) (s : BasicSocket) → IsSound s → IsSound (course moves s).0
unfolding course
course-IsSound_from [] s sound = sound
course-IsSound_from (move ∷ moves) s sound =
    course-IsSound_from moves (step move s).after (step-IsSound move s sound)

-- Under every course of Open, Close, Bind and changes of the mode, whatever is answered, the state is
-- closed, open, or open and bound, and an open socket of a reactor has a handle there.
pub course-IsSound :
    (has_reactor : Bool) (moves : List Move) → IsSound (course moves (new_socket has_reactor)).0
course-IsSound has_reactor moves =
    course-IsSound_from moves (new_socket has_reactor) (inl refl, inl refl)

step_registered :
    (move : Move) (s : BasicSocket)
    → has_handle s ≡ true
    → ((step move s).after.reactor_handle ≡ s.reactor_handle) × All NotRegister (step move s).calls
unfolding step open_socket close_socket bind_socket set_mode toggle_non_blocking as_closed
    has_handle try_open_socket bind_open set_flag do_open_socket assign_native_handle is_closed
    is_bound
step_registered (opens descriptor registration) s h = ground arith
step_registered (closes answer in_use) s h = ground arith
step_registered (binds descriptor registration matches answer) s h = ground arith
step_registered (sets_mode enable flags answer) s h = ground arith

-- Once a socket has a handle of the reactor, it keeps this handle and never registers again, whatever is
-- closed, opened and bound afterwards.
pub registered_once :
    (moves : List Move) (s : BasicSocket)
    → has_handle s ≡ true
    → let (s', calls) = course moves s in
      (s'.reactor_handle ≡ s.reactor_handle) × All NotRegister calls
unfolding course has_handle
registered_once [] s h = (refl, tt)
registered_once (move ∷ moves) s h =
    let (same, none_now) = step_registered move s h in
    let (later, none_later) =
      registered_once moves (step move s).after
        (ap (λ (t : Option ℕ). elim t [ none ↦ false | some tag ↦ true ]) same ∙ h) in
    (
      later ∙ same,
      All-append NotRegister (step move s).calls (course moves (step move s).after).1 none_now
          none_later,
    )
