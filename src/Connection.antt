-- ===== src/Connection.antt =====
-- include/asrt/client_server/connection.hpp: the messages that a connection sends, and the handshake before
-- the first of them. `M` is the type of messages; the answers of the socket are arguments, and the
-- calls made are returned in order. A result `none` stands for front() or pop_front() of an empty queue.
pub mod Outbox
pub mod Tests
use Prim.Native.Nat.{bit_and, bit_or, bit_xor}
use asrt.Base.{
  ℕ, ◌*◌, ◌/◌, Bool, true, false, not, ◌&&◌, ◌||◌, Option, none, some, List, [], ◌∷◌, ◌++◌, map,
  ◌==◌, if◌then◌else◌,
}
use asrt.ErrorCode.{ErrorCode, Result, ok, err, is_unconnected, connection_authentication_failed}

pub data Call (M : Type 0) : Type 0 where
  send_async send_sync : M → Call M
  dispatch_next close read_key receive_header client_validated : Call M
  send_number : ℕ → Call M
  connection_error : ErrorCode → Call M

pub record Connection (M : Type 0) : Type 0 where
  pub outbox : List M
  pub is_connection_validated : Bool

abbrev pub new_connection : (M : Type 0) → Connection M
new_connection M = record { outbox = []; is_connection_validated = false }

-- `ComputeKey`, of a 64-bit seed.
unfoldable pub compute_key : ℕ → ℕ
compute_key seed =
    let temp = bit_xor seed 3735928559 in
    bit_xor (bit_or (bit_and temp 4042322160 / 16) (bit_and temp 252645135 * 16)) 4207830630

module _ {M : Type 0} where
  unfoldable pub is_empty_outbox : List M → Bool
  is_empty_outbox [] = true
  is_empty_outbox (m ∷ ms) = false

  -- `DoSendNextMessage`, up to the completion of the send.
  unfoldable pub do_send_next_message : Connection M → Option (Connection M × List (Call M))
  do_send_next_message c = elim c.outbox [ [] ↦ none | m ∷ rest ↦ some (c, send_async m ∷ []) ]

  unfoldable pub do_send_message2 : M → Connection M → Option (Connection M × List (Call M))
  unfolding do_send_next_message is_empty_outbox
  do_send_message2 message c =
      let queued : Connection M = record c { outbox = c.outbox ++ message ∷ [] } in
      if not (is_empty_outbox c.outbox) || not c.is_connection_validated
      then some (queued, [])
      else do_send_next_message queued

  -- `HandleCommunicationError`.
  unfoldable pub handle_communication_error : ErrorCode → List (Call M)
  handle_communication_error error = connection_error error ∷ close ∷ []

  -- The completion of the send of `DoSendNextMessage`.
  unfoldable pub on_sent : Result ℕ → Connection M → Option (Connection M × List (Call M))
  unfolding is_empty_outbox handle_communication_error
  on_sent result c = elim c.outbox [
    | [] ↦ none
    | m ∷ rest ↦ some (
      record c { outbox = rest },
      elim result [
        | ok n ↦ if is_empty_outbox rest then [] else dispatch_next ∷ []
        | err error ↦ handle_communication_error error
      ],
    )
  ]

  -- `SendBackloggedMessages`; a message that SendSync does not send is dropped.
  unfoldable pub send_backlogged_messages : Connection M → Connection M × List (Call M)
  send_backlogged_messages c = (record c { outbox = [] }, map send_sync c.outbox)

  -- `SendSync` of a message, for a client or a server, with the answer of the socket.
  unfoldable pub send_sync_message :
      Bool → M → Result (Unit {0}) → Connection M → Connection M × List (Call M)
  send_sync_message is_client message answer c =
      let queued : Connection M = record c { outbox = c.outbox ++ message ∷ [] } in
      if not c.is_connection_validated then (queued, []) else elim answer [
        | ok done ↦ (c, send_sync message ∷ [])
        | err error ↦
            if is_client && is_unconnected error
            then (queued, send_sync message ∷ [])
            else (c, send_sync message ∷ close ∷ [])
      ]

  unfoldable pub set_connection_validated : Connection M → Connection M
  set_connection_validated c = record c { is_connection_validated = true }

  -- `WriteSeed` of a server, with the answer of SendSync.
  unfoldable pub write_seed : ℕ → Result (Unit {0}) → Connection M → Connection M × List (Call M)
  unfolding handle_communication_error
  write_seed seed answer c = elim answer [
    | ok done ↦ (c, send_number seed ∷ read_key ∷ [])
    | err error ↦ (c, send_number seed ∷ handle_communication_error error)
  ]

  -- The completion of `ReadSeed` of a client and `WriteKey` behind it, with the answer of SendSync.
  unfoldable pub on_seed :
      Result ℕ → Result (Unit {0}) → Connection M → Connection M × List (Call M)
  unfolding handle_communication_error set_connection_validated send_backlogged_messages compute_key
  on_seed received answer c = elim received [
    | err error ↦ (c, handle_communication_error error)
    | ok seed ↦ elim answer [
      | err error ↦ (c, send_number (compute_key seed) ∷ handle_communication_error error)
      | ok done ↦
          let (after, calls) = send_backlogged_messages (set_connection_validated c) in
          (after, send_number (compute_key seed) ∷ (calls ++ receive_header ∷ []))
    ]
  ]

  -- The completion of `ReadKey` of a server that expects `priv_key`.
  unfoldable pub on_key : ℕ → Result ℕ → Connection M → Connection M × List (Call M)
  unfolding handle_communication_error set_connection_validated send_backlogged_messages
  on_key priv_key received c = elim received [
    | err error ↦ (c, handle_communication_error error)
    | ok key ↦
        if key == priv_key
        then (let (after, calls) = send_backlogged_messages (set_connection_validated c) in
            (after, calls ++ client_validated ∷ receive_header ∷ []))
        else (c, connection_error connection_authentication_failed ∷ close ∷ [])
  ]
