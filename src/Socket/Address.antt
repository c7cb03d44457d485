-- ===== src/Socket/Address.antt =====
-- include/asrt/socket/address_v4.hpp: an address is the number in network order that `in_addr` holds.
-- `big_endian` is the host's byte order. Texts are read and written by the C library.
pub mod Bytes
pub mod Tests
use Prim.Native.Nat.{bit_and, bit_or}
use asrt.Base.{ℕ, ◌*◌, ◌/◌, ◌^◌, Bool, List, [], ◌∷◌, ◌==◌}
use asrt.Message.{to_network, to_host, to_memory}

abbrev pub AddressV4 : Type 0
AddressV4 = ℕ

-- The default constructor leaves zero.
abbrev pub unspecified : AddressV4
unspecified = 0

-- kLoopbackMask, kLoopbackRange, kMulticastMask, kMulticastRange.
abbrev pub loopback_mask : ℕ
loopback_mask = 0xff000000

abbrev pub loopback_range : ℕ
loopback_range = 0x7f000000

abbrev pub multicast_mask : ℕ
multicast_mask = 0xf0000000

abbrev pub multicast_range : ℕ
multicast_range = 0xe0000000

module _ (big_endian : Bool) where
  -- The constructor from a number in host order.
  unfoldable pub of_uint : ℕ → AddressV4
  unfolding to_network
  of_uint addr = to_network big_endian addr

  -- The constructor from four bytes.
  unfoldable pub of_bytes : ℕ → ℕ → ℕ → ℕ → AddressV4
  unfolding to_network
  of_bytes a b c d =
      to_network big_endian (bit_or (bit_or (bit_or (a * 2 ^ 24) (b * 2 ^ 16)) (c * 2 ^ 8)) d)

  unfoldable pub to_uint : AddressV4 → ℕ
  unfolding to_host
  to_uint address = to_host big_endian address

  -- `ToBytes` in a constant expression, and at run time.
  unfoldable pub to_bytes_constant : AddressV4 → List ℕ
  unfolding to_uint
  to_bytes_constant address =
      let host = to_uint address in
      bit_and host 0xff000000 / 2 ^ 24
      ∷ bit_and host 0x00ff0000 / 2 ^ 16
      ∷ bit_and host 0x0000ff00 / 2 ^ 8
      ∷ bit_and host 0x000000ff
      ∷ []

  unfoldable pub to_bytes : AddressV4 → List ℕ
  unfolding to_memory
  to_bytes address = to_memory big_endian address

  unfoldable pub is_loopback : AddressV4 → Bool
  unfolding to_uint
  is_loopback address = bit_and (to_uint address) loopback_mask == loopback_range

  unfoldable pub is_multicast : AddressV4 → Bool
  unfolding to_uint
  is_multicast address = bit_and (to_uint address) multicast_mask == multicast_range

unfoldable pub is_unspecified : AddressV4 → Bool
is_unspecified address = address == 0

-- `Loopback` and `Broadcast`.
unfoldable pub loopback : Bool → AddressV4
unfolding of_uint
loopback big_endian = of_uint big_endian 0x7f000001

unfoldable pub broadcast : Bool → AddressV4
unfolding of_uint
broadcast big_endian = of_uint big_endian 0xffffffff
