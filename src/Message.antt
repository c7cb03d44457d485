-- ===== src/Message.antt =====
-- include/asrt/client_server/message.h, struct GenericMessage2, and the byte order of
-- include/asrt/socket/address_types.hpp. Bytes are numbers below 256; `big_endian` is the host's byte
-- order.
pub mod ByteOrder
pub mod Reception
pub mod Tests
use asrt.Base.{
  ℕ, suc, ◌+◌, ◌-◌, ◌*◌, ◌/◌, ◌%◌, ◌^◌, Bool, true, false, not, Option, none, some, List, [], ◌∷◌,
  ◌++◌, ltb, leb, if◌then◌else◌, length, take, drop, replicate, get_elem?,
}
use asrt.NetBuffer.{BufferView}

-- `SwapInt` of 32 bits.
unfoldable pub swap_int : ℕ → ℕ
swap_int n = n % 256 * 16777216 + n / 256 % 256 * 65536 + n / 65536 % 256 * 256 + n / 16777216 % 256

unfoldable pub to_network : Bool → ℕ → ℕ
unfolding swap_int
to_network big_endian hostval = if big_endian then hostval else swap_int hostval

unfoldable pub to_host : Bool → ℕ → ℕ
unfolding swap_int
to_host big_endian netval = if big_endian then netval else swap_int netval

-- The four bytes of an integer in the host's memory, and the integer that four bytes are.
unfoldable pub to_memory : Bool → ℕ → List ℕ
to_memory big_endian n =
    if big_endian
    then n / 16777216 % 256 ∷ n / 65536 % 256 ∷ n / 256 % 256 ∷ n % 256 ∷ []
    else n % 256 ∷ n / 256 % 256 ∷ n / 65536 % 256 ∷ n / 16777216 % 256 ∷ []

unfoldable pub of_memory : Bool → ℕ → ℕ → ℕ → ℕ → ℕ
of_memory big_endian a b c d =
    if big_endian
    then a * 16777216 + b * 65536 + c * 256 + d
    else d * 16777216 + c * 65536 + b * 256 + a

abbrev pub header_length : ℕ
header_length = 5

pub record Message : Type 0 where
  pub bytes : List ℕ
  pub type_ : ℕ
  pub payload_len : ℕ

abbrev pub new_message : Message
new_message = record { bytes = []; type_ = 0; payload_len = 0 }

-- The constructor from a type and a text; `payload` is the text without its terminating zero. The length
-- is cut to 32 bits.
unfoldable pub make_message : Bool → ℕ → List ℕ → Message
unfolding to_network to_memory
make_message big_endian type_ payload =
    let payload_len = (length payload + 1) % 2 ^ 32 in
    record {
      bytes =
          type_
          ∷ (to_memory big_endian (to_network big_endian payload_len)
              ++ take payload_len (payload ++ 0 ∷ []));
      type_ = type_;
      payload_len = payload_len;
    }

unfoldable pub clear_message : Message → Message
clear_message m = record m { bytes = [] }

unfoldable pub has_body : Message → Bool
has_body m = ltb 0 m.payload_len

-- `Resize`: the vector is cut, or filled with zeros.
unfoldable pub resize : ℕ → Message → Message
resize new_size m = record m {
  bytes = take new_size m.bytes ++ replicate (new_size - length m.bytes) 0;
}

-- `CommitHeaderUpdate`, for the list of the message's bytes.
commit_bytes : Bool → List ℕ → Message → Message
unfolding to_host of_memory
commit_bytes big_endian (t ∷ a ∷ b ∷ c ∷ d ∷ rest) m = record m {
  type_ = t;
  payload_len = to_host big_endian (of_memory big_endian a b c d);
}
commit_bytes big_endian _ m = m

unfoldable pub commit_header_update : Bool → Message → Message
unfolding commit_bytes
commit_header_update big_endian m = commit_bytes big_endian m.bytes m

-- Views of the vector, with its first byte at the pointer 0.
unfoldable pub header_view : BufferView
header_view = record { start = 0; size = header_length }

unfoldable pub body_view : Message → BufferView
body_view m = record { start = header_length; size = m.payload_len }

-- What a receive that completes with `received` writes through a view of the vector; `none` where the
-- view reaches past the end of the vector.
unfoldable pub write_through : BufferView → List ℕ → Message → Option Message
write_through v received m =
    if leb (v.start + v.size) (length m.bytes)
    then some (record m {
      bytes = take v.start m.bytes ++ (received ++ drop (v.start + length received) m.bytes);
    })
    else none
