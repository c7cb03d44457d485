-- ===== src/Socket/BasicSocket.antt =====
-- include/asrt/socket/basic_socket.hpp: opening, binding and closing a socket, its registration with the
-- reactor, and its blocking mode. The answers of the system calls and of the reactor are arguments; the
-- calls made are returned in order.
pub mod Course
pub mod Tests
use Prim.Native.Nat.{bit_and, bit_or}
use asrt.Base.{
  ℕ, ◌+◌, ◌-◌, Bool, true, false, not, ◌&&◌, Option, none, some, List, [], ◌∷◌, ◌++◌, ◌==◌,
  if◌then◌else◌,
}
use asrt.ErrorCode.{
  ErrorCode, Result, ok, err, socket_not_open, socket_already_open, socket_already_bound,
  protocol_mismatch,
}
use asrt.Reactor.Entry.{NativeHandle, invalid_native_handle}

pub data Call : Type 0 where
  socket : Bool → Call
  register bind close : NativeHandle → Call
  deregister : Option ℕ → Call
  get_flags : NativeHandle → Call
  set_flags : NativeHandle → ℕ → Call

-- The values of `BasicSocketState` that are set.
abbrev pub closed : ℕ
closed = 0

abbrev pub open_state : ℕ
open_state = 1

abbrev pub bound : ℕ
bound = 2

-- `reactor_handle` is `none` for kInvalidHandlerTag.
pub record BasicSocket : Type 0 where
  pub basic_socket_state : ℕ
  pub socket_handle : NativeHandle
  pub reactor_handle : Option ℕ
  pub has_reactor : Bool
  pub is_non_blocking : Bool

abbrev pub new_socket : Bool → BasicSocket
new_socket has_reactor = record {
  basic_socket_state = closed;
  socket_handle = invalid_native_handle;
  reactor_handle = none;
  has_reactor = has_reactor;
  is_non_blocking = false;
}

-- A method's result, the socket behind it, and its calls.
pub record Done : Type 0 where
  pub result : Result (Unit {0})
  pub after : BasicSocket
  pub calls : List Call

unfoldable pub is_closed : BasicSocket → Bool
is_closed s = s.basic_socket_state == closed

unfoldable pub is_bound : BasicSocket → Bool
is_bound s = bit_and s.basic_socket_state bound == bound

-- `SetBasicSockState` of kOpen and kBound, which are added to the state.
unfoldable pub set_flag : ℕ → BasicSocket → BasicSocket
set_flag flag s = record s { basic_socket_state = bit_or s.basic_socket_state flag }

unfoldable pub has_handle : BasicSocket → Bool
has_handle s = elim s.reactor_handle [ none ↦ false | some tag ↦ true ]

-- `AssignNativeHandle` with `RegisterToReactor`, which the reactor answers with a handler tag.
unfoldable pub assign_native_handle : NativeHandle → Result ℕ → BasicSocket → Done
unfolding set_flag has_handle
assign_native_handle handle registration s =
    let held : BasicSocket = record s { socket_handle = handle } in
    if s.has_reactor && not (has_handle s)
    then elim registration [
      | ok tag ↦ record {
        result = ok tt;
        after =
            set_flag open_state (record held { reactor_handle = some tag; is_non_blocking = true });
        calls = register handle ∷ [];
      }
      | err error ↦ record {
        result = err error;
        after = held;
        calls = register handle ∷ close handle ∷ [];
      }
    ]
    else record { result = ok tt; after = set_flag open_state held; calls = [] }

-- `DoOpenSocket`. The descriptor is made non-blocking where there is a reactor.
unfoldable pub do_open_socket : Result NativeHandle → Result ℕ → BasicSocket → Done
unfolding assign_native_handle
do_open_socket descriptor registration s = elim descriptor [
  | err error ↦ record { result = err error; after = s; calls = socket s.has_reactor ∷ [] }
  | ok handle ↦
      let d = assign_native_handle handle registration s in
      record d { calls = socket s.has_reactor ∷ d.calls }
]

unfoldable pub open_socket : Result NativeHandle → Result ℕ → BasicSocket → Done
unfolding do_open_socket is_closed
open_socket descriptor registration s =
    if is_closed s
    then do_open_socket descriptor registration s
    else record { result = err socket_already_open; after = s; calls = [] }

unfoldable pub try_open_socket : Result NativeHandle → Result ℕ → BasicSocket → Done
unfolding do_open_socket is_closed
try_open_socket descriptor registration s =
    if is_closed s
    then do_open_socket descriptor registration s
    else record { result = ok tt; after = s; calls = [] }

as_closed : BasicSocket → BasicSocket
as_closed s = record s { basic_socket_state = closed; socket_handle = invalid_native_handle }

-- `Close`. With a reactor, `answer` is that of `Deregister` and `in_use` that of `IsInUse` behind it;
-- without one, `answer` is that of close(2).
unfoldable pub close_socket : Result (Unit {0}) → Bool → BasicSocket → Done
unfolding is_closed as_closed
close_socket answer in_use s =
    if is_closed s
    then record { result = ok tt; after = s; calls = [] }
    else if s.has_reactor
    then record {
      result = answer;
      after = elim answer [ ok done ↦ if in_use then s else as_closed s | err error ↦ s ];
      calls = deregister s.reactor_handle ∷ [];
    }
    else record {
      result = answer;
      after = elim answer [ ok done ↦ as_closed s | err error ↦ s ];
      calls = close s.socket_handle ∷ [];
    }

-- `Bind` behind `TryOpenSocket`.
bind_open : Bool → Result (Unit {0}) → Done → Done
unfolding set_flag
bind_open protocol_matches answer d = elim d.result [
  | err error ↦ d
  | ok done ↦ if not protocol_matches then record d { result = err protocol_mismatch } else record {
    result = answer;
    after = elim answer [ ok done ↦ set_flag bound d.after | err error ↦ d.after ];
    calls = d.calls ++ bind d.after.socket_handle ∷ [];
  }
]

unfoldable pub bind_socket :
    Result NativeHandle → Result ℕ → Bool → Result (Unit {0}) → BasicSocket → Done
unfolding is_bound try_open_socket bind_open
bind_socket descriptor registration protocol_matches answer s =
    if is_bound s
    then record { result = err socket_already_bound; after = s; calls = [] }
    else bind_open protocol_matches answer (try_open_socket descriptor registration s)

-- O_NONBLOCK of Linux.
abbrev o_nonblock : ℕ
o_nonblock = 2048

-- `ToggleNonBlockingModeInternal`, given the flags of the descriptor and the answer to setting them.
unfoldable pub toggle_non_blocking : Bool → Result ℕ → Result (Unit {0}) → BasicSocket → Done
unfolding is_closed
toggle_non_blocking enable flags answer s =
    if is_closed s
    then record { result = err socket_not_open; after = s; calls = [] }
    else elim flags [
      | err error ↦ record { result = err error; after = s; calls = get_flags s.socket_handle ∷ [] }
      | ok old ↦
          if bit_and old o_nonblock == (if enable then 1 else 0)
          then record {
            result = ok tt;
            after = record s { is_non_blocking = enable };
            calls = get_flags s.socket_handle ∷ [];
          }
          else record {
            result = answer;
            after = elim answer [ ok done ↦ record s { is_non_blocking = enable } | err error ↦ s ];
            calls =
                get_flags s.socket_handle
                ∷ set_flags s.socket_handle
                    (if enable then bit_or old o_nonblock else old - bit_and old o_nonblock)
                ∷ [];
          }
    ]

-- `SetNonBlocking` for `true`, `SetBlocking` for `false`.
unfoldable pub set_mode : Bool → Result ℕ → Result (Unit {0}) → BasicSocket → Done
unfolding toggle_non_blocking
set_mode enable flags answer s =
    if (if enable then s.is_non_blocking else not s.is_non_blocking)
    then record { result = ok tt; after = s; calls = [] }
    else toggle_non_blocking enable flags answer s
