-- ===== src/Message/Tests.antt =====
-- A message from a host of one byte order to one of the other.
use asrt.Base.{ℕ, ◌+◌, ◌≡◌, true, false, some, none, List, [], ◌∷◌, ◌++◌, take, drop, length, arith}
use asrt.Message.{Message, make_message, new_message, header_length, has_body}
use asrt.Message.Reception.{
  receive_header, receive_body, receive_header-make_message, receive_body_overruns,
}

abbrev text : List ℕ
text = 104 ∷ 105 ∷ []

receive_header-make_message_example :
    let sent = make_message false 1 text in
    (received : Message) × (receive_header true (take header_length sent.bytes) new_message
      ≡ some received)
    × (received.type_ ≡ 1)
    × (header_length + received.payload_len ≡ length sent.bytes)
    × (drop header_length sent.bytes ≡ text ++ 0 ∷ [])
receive_header-make_message_example =
    receive_header-make_message false true 1 text new_message (omega arith)

receive_body_overruns_example :
    let sent = make_message false 1 text in
    (received : Message) × (receive_header true (take header_length sent.bytes) new_message
      ≡ some received)
    × (has_body received ≡ true)
    × (receive_body (104 ∷ 105 ∷ 0 ∷ []) received ≡ none)
receive_body_overruns_example =
    receive_body_overruns false true 1 text (104 ∷ 105 ∷ 0 ∷ []) new_message (omega arith)
