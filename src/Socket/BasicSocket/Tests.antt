-- ===== src/Socket/BasicSocket/Tests.antt =====
-- A socket that is opened, closed and opened again.
use asrt.Base.{◌≡◌, refl, true, false, some, List, [], ◌∷◌, All}
use asrt.Base.Int.{pos}
use asrt.ErrorCode.{ok}
use asrt.Socket.BasicSocket.{
  BasicSocket, socket, register, deregister, new_socket, open_socket, close_socket, do_open_socket,
  assign_native_handle, set_flag, has_handle, is_closed,
}
use asrt.Socket.BasicSocket.Course.{
  Move, opens, closes, binds, step, course, IsSound, NotRegister, course-IsSound, registered_once,
}

abbrev reopened : List Move
reopened = opens (ok (pos 5)) (ok 2) ∷ closes (ok tt) false ∷ opens (ok (pos 6)) (ok 3) ∷ []

-- The second descriptor is not registered.
reopened_calls :
    (course reopened (new_socket true)).1
    ≡ socket true ∷ register (pos 5) ∷ deregister (some 2) ∷ socket true ∷ []
unfolding course step open_socket close_socket do_open_socket assign_native_handle set_flag
    has_handle is_closed
reopened_calls = refl

course-IsSound_example : IsSound (course reopened (new_socket true)).0
course-IsSound_example = course-IsSound true reopened

abbrev registered : BasicSocket
registered = record {
  basic_socket_state = 0;
  socket_handle = pos 5;
  reactor_handle = some 2;
  has_reactor = true;
  is_non_blocking = true;
}

registered_once_example :
    let (s', calls) =
      course (opens (ok (pos 6)) (ok 3) ∷ binds (ok (pos 7)) (ok 4) true (ok tt) ∷ []) registered in
    (s'.reactor_handle ≡ some 2) × All NotRegister calls
registered_once_example =
    registered_once (opens (ok (pos 6)) (ok 3) ∷ binds (ok (pos 7)) (ok 4) true (ok tt) ∷ [])
      registered (unfold has_handle in refl)
