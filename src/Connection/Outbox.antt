-- ===== src/Connection/Outbox.antt =====
-- The outbox of a connection under every course of sends, completions and jobs of the strand, each of
-- which is one step.
use asrt.Base.{
  map, ℕ, ◌≡◌, refl, sym, ap, ◌∙◌, Bool, true, false, Option, none, some, List, [], ◌∷◌, ◌++◌, ◌⊎◌,
  arith, append_assoc, append-nil, if◌then◌else◌,
}
use asrt.ErrorCode.{ErrorCode, Result, ok, err, is_unconnected}
use asrt.Connection.{
  Connection, Call, send_async, send_sync, dispatch_next, new_connection, do_send_message2,
  do_send_next_message, on_sent, send_backlogged_messages, set_connection_validated,
  send_sync_message, is_empty_outbox, handle_communication_error,
}

-- The connection, whether a SendAsync has not completed, whether the next send is posted to the strand,
-- whether a send has failed, the messages accepted by `Send` and those handed to the socket, in order.
pub record World (M : Type 0) : Type 0 where
  pub connection : Connection M
  pub in_flight : Bool
  pub next_posted : Bool
  pub failed : Bool
  pub accepted : List M
  pub handed : List M

abbrev pub new_world : (M : Type 0) → World M
new_world M = record {
  connection = new_connection M;
  in_flight = false;
  next_posted = false;
  failed = false;
  accepted = [];
  handed = [];
}

-- `completes` is the completion of the send that is in flight, `continues` the posted job, `validates` the
-- end of the handshake; each does nothing where it cannot happen.
pub data Move (M : Type 0) : Type 0 where
  sends : M → Move M
  completes : Result ℕ → Move M
  continues validates : Move M

module _ {M : Type 0} where
  -- The messages that the calls hand to the socket.
  abbrev messages : List (Call M) → List M
  messages [] = []
  messages (send_async m ∷ calls) = m ∷ messages calls
  messages (send_sync m ∷ calls) = m ∷ messages calls
  messages (call ∷ calls) = messages calls

  abbrev has_async : List (Call M) → Bool
  has_async [] = false
  has_async (send_async m ∷ calls) = true
  has_async (call ∷ calls) = has_async calls

  abbrev has_dispatch : List (Call M) → Bool
  has_dispatch [] = false
  has_dispatch (dispatch_next ∷ calls) = true
  has_dispatch (call ∷ calls) = has_dispatch calls

  unfoldable pub step : Move M → World M → Option (World M)
  unfolding do_send_message2 do_send_next_message on_sent send_backlogged_messages
      set_connection_validated
  step (sends m) w = elim (do_send_message2 m w.connection) [
    | none ↦ none
    | some (c, calls) ↦ some (record w {
      connection = c;
      in_flight = if has_async calls then true else w.in_flight;
      accepted = w.accepted ++ m ∷ [];
      handed = w.handed ++ messages calls;
    })
  ]
  step (completes result) w =
      if w.in_flight
      then elim (on_sent result w.connection) [
        | none ↦ none
        | some (c, calls) ↦ some (record w {
          connection = c;
          in_flight = false;
          next_posted = has_dispatch calls;
          failed = elim result [ ok n ↦ w.failed | err error ↦ true ];
        })
      ]
      else some w
  step continues w =
      if w.next_posted
      then elim (do_send_next_message w.connection) [
        | none ↦ none
        | some (c, calls) ↦ some (record w {
          connection = c;
          in_flight = true;
          next_posted = false;
          handed = w.handed ++ messages calls;
        })
      ]
      else some w
  step validates w =
      if w.connection.is_connection_validated
      then some w
      else (let (c, calls) = send_backlogged_messages (set_connection_validated w.connection) in
          some (record w { connection = c; handed = w.handed ++ messages calls }))

  unfoldable pub run : List (Move M) → World M → Option (World M)
  unfolding step
  run [] w = some w
  run (move ∷ moves) w = elim (step move w) [ none ↦ none | some w' ↦ run moves w' ]

  -- The messages that wait to be handed over: all of the outbox but one that is in flight.
  abbrev pub waiting : Bool → List M → List M
  waiting in_flight [] = []
  waiting true (m ∷ ms) = ms
  waiting false (m ∷ ms) = m ∷ ms

  -- Where the outbox is not empty: before validation nothing is under way; behind it a send is in flight,
  -- or the next one is posted, or a send has failed; never both.
  abbrev pub Drives : World M → List M → Type 0
  Drives w [] = (w.in_flight ≡ false) × (w.next_posted ≡ false)
  Drives w (m ∷ ms) =
      ((w.connection.is_connection_validated ≡ false)
        × (w.in_flight ≡ false)
        × (w.next_posted ≡ false))
      ⊎ ((w.connection.is_connection_validated ≡ true)
          × (w.in_flight ≡ true)
          × (w.next_posted ≡ false))
      ⊎ ((w.connection.is_connection_validated ≡ true)
          × (w.in_flight ≡ false)
          × ((w.next_posted ≡ true) ⊎ (w.failed ≡ true)))

  abbrev pub InOrder : World M → Type 0
  InOrder w =
      (w.handed ++ waiting w.in_flight w.connection.outbox ≡ w.accepted)
      × Drives w w.connection.outbox

  abbrev pub Ordered : Option (World M) → Type 0
  Ordered none = ⊥
  Ordered (some w) = InOrder w

  messages-map : (ms : List M) → messages (map send_sync ms) ≡ ms
  messages-map [] = refl
  messages-map (m ∷ ms) = ap (λ r. m ∷ r) (messages-map ms)

  abbrev world : List M → Bool → Bool → Bool → Bool → List M → List M → World M
  world outbox validated in_flight next_posted failed accepted handed = record {
    connection = record { outbox = outbox; is_connection_validated = validated };
    in_flight = in_flight;
    next_posted = next_posted;
    failed = failed;
    accepted = accepted;
    handed = handed;
  }

  step-Ordered_at :
      (move : Move M) (o : List M) (v f n d : Bool) (a h : List M)
      → InOrder (world o v f n d a h)
      → Ordered (step move (world o v f n d a h))
  unfolding step do_send_message2 do_send_next_message on_sent send_backlogged_messages
      set_connection_validated is_empty_outbox handle_communication_error
  step-Ordered_at (sends m) [] true f n d a h (order, drives) =
      ground (arith, append-nil h, append-nil (h ++ m ∷ []))
  step-Ordered_at (sends m) [] false f n d a h (order, drives) = ground (arith, append-nil h)
  step-Ordered_at (sends m) (x ∷ xs) v true n d a h (order, drives) =
      ground (arith, append-nil h, append_assoc h xs (m ∷ []))
  step-Ordered_at (sends m) (x ∷ xs) v false n d a h (order, drives) =
      ground (arith, append-nil h, append_assoc h (x ∷ xs) (m ∷ []))
  step-Ordered_at (completes r) o v false n d a h (order, drives) = (order, drives)
  step-Ordered_at (completes r) [] v true n d a h (order, drives) = ground arith
  step-Ordered_at (completes (ok k)) (x ∷ []) v true n d a h (order, drives) = ground arith
  step-Ordered_at (completes (ok k)) (x ∷ y ∷ ys) v true n d a h (order, drives) = ground arith
  step-Ordered_at (completes (err e)) (x ∷ []) v true n d a h (order, drives) = ground arith
  step-Ordered_at (completes (err e)) (x ∷ y ∷ ys) v true n d a h (order, drives) = ground arith
  step-Ordered_at continues o v f false d a h (order, drives) = (order, drives)
  step-Ordered_at continues [] v f true d a h (order, drives) = ground arith
  step-Ordered_at continues (x ∷ xs) v true true d a h (order, drives) = ground arith
  step-Ordered_at continues (x ∷ xs) v false true d a h (order, drives) =
      (append_assoc h (x ∷ []) xs ∙ order, ground arith)
  step-Ordered_at validates o true f n d a h (order, drives) = (order, drives)
  step-Ordered_at validates [] false f n d a h (order, drives) = ground (arith, append-nil h)
  step-Ordered_at validates (x ∷ xs) false true n d a h (order, drives) = ground arith
  step-Ordered_at validates (x ∷ xs) false false n d a h (order, drives) =
      ground (arith, append-nil (h ++ (x ∷ xs)), messages-map xs)

  run-Ordered_from : (moves : List (Move M)) (w : World M) → InOrder w → Ordered (run moves w)
  unfolding run
  run-Ordered_from [] w h = h
  run-Ordered_from (move ∷ moves) w h =
      next (step move w) refl
        (step-Ordered_at move w.connection.outbox w.connection.is_connection_validated w.in_flight
          w.next_posted w.failed w.accepted w.handed h)
        (run-Ordered_from moves)
    where
      next :
          (o : Option (World M))
          → step move w ≡ o
          → Ordered o
          → ((w' : World M) → InOrder w' → Ordered (run moves w'))
          → Ordered (run (move ∷ moves) w)
      next none e ordered ih = elim ordered [ ]
      next (some w') e ordered ih = rw (e, Ordered) (ih w' ordered)

  -- Messages sent one after the other, and the calls that this makes at once.
  unfoldable pub send_all : List M → Connection M → Option (Connection M × List (Call M))
  unfolding do_send_message2
  send_all [] c = some (c, [])
  send_all (m ∷ ms) c = elim (do_send_message2 m c) [
    | none ↦ none
    | some (c', calls) ↦ elim (send_all ms c') [
      | none ↦ none
      | some (c'', more) ↦ some (c'', calls ++ more)
    ]
  ]

  send_all_queued :
      (ms : List M) (x : M) (xs : List M) (v : Bool)
      → send_all ms (record { outbox = x ∷ xs; is_connection_validated = v })
        ≡ some (record { outbox = x ∷ (xs ++ ms); is_connection_validated = v }, [])
  unfolding send_all do_send_message2 is_empty_outbox
  send_all_queued [] x xs v =
      ap (λ (ys : List M). some (record { outbox = x ∷ ys; is_connection_validated = v }, []))
        (sym (append-nil xs))
  send_all_queued (m ∷ ms) x xs v =
      rw (send_all_queued ms x (xs ++ m ∷ []) v, append_assoc xs (m ∷ []) ms) refl

  -- When the SendSync of a validated client with an empty outbox fails because the server is not
  -- connected, the message goes to the outbox; the calls of `Send` that follow it, any number of them
  -- with no completion and no handshake in between, only add to the outbox and make no call of the socket.
  pub unconnected_send_stalls :
      (message : M) (error : ErrorCode) (ms : List M) (c : Connection M)
      → c.is_connection_validated ≡ true
      → c.outbox ≡ []
      → is_unconnected error ≡ true
      → let (after, calls) = send_sync_message true message (err error) c in
        (calls ≡ send_sync message ∷ [])
        × (send_all ms after ≡ some (record c { outbox = message ∷ ms }, []))
  unfolding send_sync_message
  unconnected_send_stalls message error ms c validated idle unconnected =
      ground (arith, send_all_queued ms message [] true)

-- Under every course of sends, completions with any result, jobs of the strand and the end of the
-- handshake, each of them one step: no front of an empty outbox is taken; the messages handed to the socket, followed by those
-- that wait in the outbox, are the messages accepted by Send, in order; and a validated connection
-- whose outbox is not empty has either one send in flight or, unless a send has failed, the next one
-- posted, never both.
pub run-Ordered : (M : Type 0) (moves : List (Move M)) → Ordered (run moves (new_world M))
run-Ordered M moves = run-Ordered_from moves (new_world M) (refl, (refl, refl))
