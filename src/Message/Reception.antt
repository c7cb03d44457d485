-- ===== src/Message/Reception.antt =====
-- include/asrt/client_server/connection.hpp, ReceiveMessageHeader and ReceiveMessageBody: how a connection
-- receives the bytes of a message.
use asrt.Base.{
  ℕ, ◌+◌, ◌-◌, ◌%◌, ◌^◌, ◌<◌, ◌≡◌, refl, ap, Bool, true, Option, none, some, List, [], ◌∷◌, ◌++◌,
  arith, length, take, drop, length-append, length-replicate, length-take, drop_all, take_all, ◌/◌,
  replicate,
}
use asrt.Message.{
  Message, make_message, commit_header_update, header_view, body_view, write_through, resize,
  has_body, header_length, commit_bytes,
}
use asrt.Message.ByteOrder.{wire, to_memory-to_network, to_host-of_memory}

-- `ReceiveMessageHeader` with a receive that completes; `none` where it writes out of bounds.
unfoldable pub receive_header : Bool → List ℕ → Message → Option Message
unfolding resize write_through commit_header_update header_view
receive_header big_endian received m =
    elim (write_through header_view received (resize header_length m)) [
      | none ↦ none
      | some m' ↦ some (commit_header_update big_endian m')
    ]

-- `ReceiveMessageBody` with a receive that completes.
unfoldable pub receive_body : List ℕ → Message → Option Message
unfolding write_through body_view
receive_body received m = write_through (body_view m) received m

length-resize : (n : ℕ) (m : Message) → length (resize n m).bytes ≡ n
unfolding resize
length-resize n m = omega (
  arith,
  length-append (take n m.bytes) (replicate (n - length m.bytes) 0),
  length-take n m.bytes,
  length-replicate {A = ℕ} (n - length m.bytes) 0,
)

write_header :
    (t a b c d : ℕ) (m : Message)
    → length m.bytes ≡ 5
    → write_through header_view (t ∷ a ∷ b ∷ c ∷ d ∷ []) m
      ≡ some (record m { bytes = t ∷ a ∷ b ∷ c ∷ d ∷ [] })
unfolding write_through header_view
write_header t a b c d m h = ground (arith, drop_all 5 m.bytes (omega arith))

-- The header of a message from the constructor, received on a host of any byte order.
receive_header-wire :
    (big_endian : Bool) (t n : ℕ) (m : Message)
    → n < 2 ^ 32
    → receive_header big_endian (t ∷ wire n) m
      ≡ some (record { bytes = t ∷ wire n; type_ = t; payload_len = n })
unfolding receive_header commit_header_update commit_bytes
receive_header-wire big_endian t n m h =
    rw
      (
        write_header t (n / 16777216 % 256) (n / 65536 % 256) (n / 256 % 256) (n % 256)
            (resize header_length m) (length-resize header_length m),
        receive_header,
      )
      (ap (λ (k : ℕ). some (record { bytes = t ∷ wire n; type_ = t; payload_len = k }))
        (to_host-of_memory big_endian n h))

-- The bytes of a message from the constructor.
make_message-wire :
    (big_endian : Bool) (type_ : ℕ) (payload : List ℕ)
    → length payload + 1 < 2 ^ 32
    → make_message big_endian type_ payload ≡ record {
      bytes = type_ ∷ (wire (length payload + 1) ++ (payload ++ 0 ∷ []));
      type_ = type_;
      payload_len = length payload + 1;
    }
unfolding make_message
make_message-wire big_endian type_ payload fits =
    let n = length payload + 1 in
    let small : n % 2 ^ 32 ≡ n = omega arith in
    let size : length (payload ++ 0 ∷ []) ≡ n = length-append payload (0 ∷ []) in
    rw (small, to_memory-to_network big_endian n fits, take_all n (payload ++ 0 ∷ []) (omega arith))
      refl

-- A text with its terminating zero, of less than 2^32 bytes: the first five bytes of the message that the
-- constructor makes of it, received as a header by a host of any byte order into any message, give the
-- type of the message and the number of the bytes behind the header, and these bytes are the text.
pub receive_header-make_message :
    (sender receiver : Bool) (type_ : ℕ) (payload : List ℕ) (m : Message)
    → length payload + 1 < 2 ^ 32
    → let sent = make_message sender type_ payload in
      (received : Message) × (receive_header receiver (take header_length sent.bytes) m
        ≡ some received)
      × (received.type_ ≡ type_)
      × (header_length + received.payload_len ≡ length sent.bytes)
      × (drop header_length sent.bytes ≡ payload ++ 0 ∷ [])
receive_header-make_message sender receiver type_ payload m fits =
    let n : ℕ = length payload + 1 in
    rw (make_message-wire sender type_ payload fits) (
      record { bytes = type_ ∷ wire n; type_ = type_; payload_len = n },
      receive_header-wire receiver type_ n m fits,
      refl,
      omega (arith, length-append payload (0 ∷ [])),
      refl,
    )

-- The body of such a message cannot be received: behind the reception of the header the message has a
-- body to receive, and the view that it is received through reaches past the end of the message's bytes.
pub receive_body_overruns :
    (sender receiver : Bool) (type_ : ℕ) (payload body : List ℕ) (m : Message)
    → length payload + 1 < 2 ^ 32
    → let sent = make_message sender type_ payload in
      (received : Message) × (receive_header receiver (take header_length sent.bytes) m
        ≡ some received)
      × (has_body received ≡ true)
      × (receive_body body received ≡ none)
unfolding receive_body write_through body_view has_body
receive_body_overruns sender receiver type_ payload body m fits =
    let n : ℕ = length payload + 1 in
    rw (make_message-wire sender type_ payload fits) (
      record { bytes = type_ ∷ wire n; type_ = type_; payload_len = n },
      receive_header-wire receiver type_ n m fits,
      ground arith,
      ground arith,
    )
