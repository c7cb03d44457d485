-- ===== src/ErrorCode.antt =====
-- include/asrt/error_code.hpp: the library's error codes, their values and their texts.
pub mod Text
use Prim.Native.String.{String}
use asrt.Base.{
  ℕ, ◌+◌, ◌-◌, ◌%◌, ◌^◌, Bool, ◌||◌, List, [], ◌∷◌, Option, none, some, ◌==◌, leb, if◌then◌else◌,
  get_elem?,
}

-- The enumerators in the order of the source; `errno` is a value that has no enumerator, which
-- `MapLatestSysError` can cast into the enumeration.
pub data ErrorCode : Type 0 where
  no_error access_denied address_family_not_supported address_in_use : ErrorCode
  already_connected already_started broken_pipe connection_aborted connection_refused : ErrorCode
  connection_reset bad_descriptor fault host_unreachable in_progress interrupted : ErrorCode
  invalid_argument message_size name_too_long network_down network_reset : ErrorCode
  network_unreachable no_descriptors no_buffer_space no_memory no_permission : ErrorCode
  no_protocol_option no_such_device not_connected not_socket operation_aborted : ErrorCode
  operation_not_supported shut_down timed_out try_again would_block : ErrorCode
  socket_already_open socket_already_bound protocol_mismatch no_default_peer : ErrorCode
  operation_cancelled socket_already_has_reactor reactor_not_valid : ErrorCode
  reactor_not_available invalid_reactor_handle socket_in_blocking_mode : ErrorCode
  socket_not_open socket_not_bound socket_state_invalid socket_not_connected : ErrorCode
  socket_already_connected receive_operation_ongoing send_operation_ongoing : ErrorCode
  listen_operation_ongoing accept_operation_ongoing unable_to_obtain_if_index : ErrorCode
  async_operation_in_progress capacity_exceeded read_insufficient_data end_of_file : ErrorCode
  truncation api_error invalid_signal_number reactor_entry_invalid poll_error : ErrorCode
  connection_authentication_failed timer_not_exist default_error max_error : ErrorCode
  errno : ℕ → ErrorCode

-- `Expected<T, ErrorCode>`, and the one of a call that answers with an error or nothing.
pub data Result {ℓ} (A : Type ℓ) : Type ℓ where
  ok : A → Result A
  err : ErrorCode → Result A

abbrev pub outcome : Option ErrorCode → Result (Unit {0})
outcome none = ok tt
outcome (some e) = err e

-- EHWPOISON, the greatest errno of Linux.
abbrev pub max_system_errno_value : ℕ
max_system_errno_value = 133

abbrev pub custom_error_start_offset : ℕ
custom_error_start_offset = 60000

-- The underlying value: errno.h of Linux for the system errors, then counting from the offset.
unfoldable pub to_underlying : ErrorCode → ℕ
to_underlying no_error = 0
to_underlying access_denied = 13
to_underlying address_family_not_supported = 97
to_underlying address_in_use = 98
to_underlying already_connected = 106
to_underlying already_started = 114
to_underlying broken_pipe = 32
to_underlying connection_aborted = 103
to_underlying connection_refused = 111
to_underlying connection_reset = 104
to_underlying bad_descriptor = 9
to_underlying fault = 14
to_underlying host_unreachable = 113
to_underlying in_progress = 115
to_underlying interrupted = 4
to_underlying invalid_argument = 22
to_underlying message_size = 90
to_underlying name_too_long = 36
to_underlying network_down = 100
to_underlying network_reset = 102
to_underlying network_unreachable = 101
to_underlying no_descriptors = 24
to_underlying no_buffer_space = 105
to_underlying no_memory = 12
to_underlying no_permission = 1
to_underlying no_protocol_option = 92
to_underlying no_such_device = 19
to_underlying not_connected = 107
to_underlying not_socket = 88
to_underlying operation_aborted = 125
to_underlying operation_not_supported = 95
to_underlying shut_down = 108
to_underlying timed_out = 110
to_underlying try_again = 11
to_underlying would_block = 11
to_underlying socket_already_open = 60000
to_underlying socket_already_bound = 60001
to_underlying protocol_mismatch = 60002
to_underlying no_default_peer = 60003
to_underlying operation_cancelled = 60004
to_underlying socket_already_has_reactor = 60005
to_underlying reactor_not_valid = 60006
to_underlying reactor_not_available = 60007
to_underlying invalid_reactor_handle = 60008
to_underlying socket_in_blocking_mode = 60009
to_underlying socket_not_open = 60010
to_underlying socket_not_bound = 60011
to_underlying socket_state_invalid = 60012
to_underlying socket_not_connected = 60013
to_underlying socket_already_connected = 60014
to_underlying receive_operation_ongoing = 60015
to_underlying send_operation_ongoing = 60016
to_underlying listen_operation_ongoing = 60017
to_underlying accept_operation_ongoing = 60018
to_underlying unable_to_obtain_if_index = 60019
to_underlying async_operation_in_progress = 60020
to_underlying capacity_exceeded = 60021
to_underlying read_insufficient_data = 60022
to_underlying end_of_file = 60023
to_underlying truncation = 60024
to_underlying api_error = 60025
to_underlying invalid_signal_number = 60026
to_underlying reactor_entry_invalid = 60027
to_underlying poll_error = 60028
to_underlying connection_authentication_failed = 60029
to_underlying timer_not_exist = 60030
to_underlying default_error = 60031
to_underlying max_error = 60032
to_underlying (errno n) = n

-- Enumerators are compared by value: try_again and would_block are one.
unfoldable pub eq_code : ErrorCode → ErrorCode → Bool
unfolding to_underlying
eq_code a b = to_underlying a == to_underlying b

unfoldable pub is_system_error : ErrorCode → Bool
unfolding to_underlying
is_system_error ec = leb (to_underlying ec) max_system_errno_value

unfoldable pub is_busy : ErrorCode → Bool
unfolding eq_code
is_busy error = eq_code error try_again || eq_code error would_block

unfoldable pub is_unconnected : ErrorCode → Bool
unfolding eq_code
is_unconnected error = eq_code error not_connected || eq_code error socket_not_connected

unfoldable pub is_connection_down : ErrorCode → Bool
unfolding eq_code
is_connection_down error = eq_code error connection_reset || eq_code error end_of_file

unfoldable pub is_connect_in_progress : ErrorCode → Bool
unfolding eq_code
is_connect_in_progress error = eq_code error try_again || eq_code error in_progress

-- `kErrorPrintout`.
abbrev pub error_printout : List String
error_printout =
    "Trying to open socket when socket is already open"
    ∷ "Trying to bind socket when socket is already bound"
    ∷ "Protocol mismatch between socket and endpoint"
    ∷ "Trying to bind socket when socket is already bound" ∷ "User cancelled async operation"
    ∷ "Socket already bound to reactor and may not rebind" ∷ "Reactor not valid"
    ∷ "Reactor needed for asynchronous io" ∷ "Reactor handle invalid" ∷ "Socket in blocking mode"
    ∷ "Socket not open" ∷ "Socket not bound" ∷ "Socket state invalid"
    ∷ "Trying to send/recv when no peer is available"
    ∷ "Connected stream socket may not connect to different peer" ∷ "Asynchronous receive ongoing"
    ∷ "Asynchronous send ongoing" ∷ "Listen operation is ongoing"
    ∷ "Asynchronous accept operation ongoing" ∷ "Unable to obtain ethernet interface index"
    ∷ "Asynchronous operations ongoing" ∷ "storage capacity exceeded" ∷ "Received insufficient data"
    ∷ "End of file reached" ∷ "Buffer size insufficient" ∷ "wrong use of API!"
    ∷ "Invalid signal number" ∷ "Trying to bind socket when socket is already bound"
    ∷ "Reactor entry is invalid" ∷ "Poll / Epoll reports POLLERR / EPOLLERR event"
    ∷ "Client failed connection handshake validation" ∷ "Timer does not exist!"
    ∷ "Error message not yet implemented :)" ∷ []

-- `ToStringView`, over the C library's `strerror`. `none` is a read past the end of the table.
unfoldable pub to_string_view : (ℕ → String) → ErrorCode → Option String
unfolding is_system_error to_underlying
to_string_view strerror ec =
    if is_system_error ec
    then some (strerror (to_underlying ec))
    else get_elem? error_printout ((to_underlying ec + 2 ^ 32 - custom_error_start_offset) % 2 ^ 32)
