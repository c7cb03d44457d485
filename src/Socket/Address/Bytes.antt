-- ===== src/Socket/Address/Bytes.antt =====
-- The bytes of an IPv4 address, and the ranges of addresses by them.
use Prim.Native.Nat.{bit_and, bit_or}
use asrt.Base.{
  ℕ, ◌+◌, ◌*◌, ◌/◌, ◌%◌, ◌^◌, ◌≤◌, ◌<◌, ◌≡◌, refl, sym, ap, ◌∙◌, ◌↔◌, Bool, true, false, List, [],
  ◌∷◌, ==_iff, arith,
}
use asrt.Base.Bits.Fields.{and_field, or_low_part}
use asrt.Message.{swap_int, to_network, to_host, to_memory}
use asrt.Message.ByteOrder.{wire, four, to_memory-to_network}
use asrt.Socket.Address.{
  AddressV4, loopback_mask, loopback_range, multicast_mask, multicast_range, of_uint, of_bytes,
  to_uint, to_bytes_constant, to_bytes, is_loopback, is_multicast, is_unspecified,
}

or_bytes :
    (a b c d : ℕ)
    → a < 256
    → b < 256
    → c < 256
    → d < 256
    → bit_or (bit_or (bit_or (a * 2 ^ 24) (b * 2 ^ 16)) (c * 2 ^ 8)) d
      ≡ a * 16777216 + b * 65536 + c * 256 + d
or_bytes a b c d ha hb hc hd =
    let high : bit_or (a * 2 ^ 24) (b * 2 ^ 16) ≡ (a * 256 + b) * 2 ^ 16 =
      or_low_part 24 a (b * 2 ^ 16) (omega arith) ∙ omega arith in
    let middle : bit_or ((a * 256 + b) * 2 ^ 16) (c * 2 ^ 8) ≡ ((a * 256 + b) * 256 + c) * 2 ^ 8 =
      or_low_part 16 (a * 256 + b) (c * 2 ^ 8) (omega arith) ∙ omega arith in
    rw (high, middle) (or_low_part 8 ((a * 256 + b) * 256 + c) d hd ∙ omega arith)

-- The bytes of a host-order number by masks, on the wire.
masks-wire :
    (h : ℕ)
    → h < 2 ^ 32
    → ◌≡◌ {A = List ℕ}
        (bit_and h 0xff000000 / 2 ^ 24
          ∷ bit_and h 0x00ff0000 / 2 ^ 16
          ∷ bit_and h 0x0000ff00 / 2 ^ 8
          ∷ bit_and h 0x000000ff
          ∷ [])
        (wire h)
masks-wire h small =
    four (omega (arith, and_field 24 8 h)) (omega (arith, and_field 16 8 h))
      (omega (arith, and_field 8 8 h)) (omega (arith, and_field 0 8 h))

to_uint-lt : (big_endian : Bool) (a : AddressV4) → a < 2 ^ 32 → to_uint big_endian a < 2 ^ 32
unfolding to_uint to_host swap_int
to_uint-lt big_endian a small = ground arith

of_uint-to_uint :
    (big_endian : Bool) (a : AddressV4) → a < 2 ^ 32 → of_uint big_endian (to_uint big_endian a) ≡ a
unfolding of_uint to_uint to_network to_host swap_int
of_uint-to_uint true a small = refl
of_uint-to_uint false a small = omega arith

-- On a host of any byte order, the bytes that ToBytes takes by masks in a constant expression are those
-- that it copies from memory at run time, they are the digits of ToUint to the base 256, the most
-- significant one first, and the constructors from them, and from ToUint, give the address back.
pub to_bytes-of_bytes :
    (big_endian : Bool) (a : AddressV4)
    → a < 2 ^ 32
    → let h = to_uint big_endian a in
      (to_bytes_constant big_endian a ≡ to_bytes big_endian a)
      × (to_bytes big_endian a ≡ wire h)
      × (of_bytes big_endian (h / 16777216 % 256) (h / 65536 % 256) (h / 256 % 256) (h % 256) ≡ a)
      × (of_uint big_endian h ≡ a)
unfolding to_bytes_constant to_bytes of_bytes of_uint
to_bytes-of_bytes big_endian a small =
    let h = to_uint big_endian a in
    let h-lt = to_uint-lt big_endian a small in
    let same = of_uint-to_uint big_endian a small in
    let bytes : to_bytes big_endian a ≡ wire h =
      ap (to_memory big_endian) (sym same) ∙ to_memory-to_network big_endian h h-lt in
    let whole =
      or_bytes (h / 16777216 % 256) (h / 65536 % 256) (h / 256 % 256) (h % 256) (omega arith)
        (omega arith) (omega arith) (omega arith)
      ∙ omega (arith, h-lt) in
    (masks-wire h h-lt ∙ sym bytes, bytes, ap (to_network big_endian) whole ∙ same, same)

zero_address :
    (big_endian : Bool) (a : AddressV4)
    → a < 2 ^ 32
    → (is_unspecified a ≡ true) ↔ (to_uint big_endian a ≡ 0)
unfolding is_unspecified to_uint to_host swap_int
zero_address true a small = ground arith
zero_address false a small = ground arith

-- On a host of any byte order, IsLoopback holds exactly for the addresses whose first byte is 127, IsMulticast
-- for those whose first byte is from 224 to 239, and IsUnspecified for 0.0.0.0.
pub ranges_lem :
    (big_endian : Bool) (a : AddressV4)
    → a < 2 ^ 32
    → let first = to_uint big_endian a / 16777216 in
      ((is_loopback big_endian a ≡ true) ↔ (first ≡ 127))
      × ((is_multicast big_endian a ≡ true) ↔ ((224 ≤ first) × (first < 240)))
      × ((is_unspecified a ≡ true) ↔ (to_uint big_endian a ≡ 0))
unfolding is_loopback is_multicast is_unspecified
ranges_lem big_endian a small =
    let h = to_uint big_endian a in
    let h-lt = to_uint-lt big_endian a small in
    (
      ground (arith, and_field 24 8 h, h-lt, ==_iff (bit_and h loopback_mask) loopback_range),
      ground (arith, and_field 28 4 h, h-lt, ==_iff (bit_and h multicast_mask) multicast_range),
      zero_address big_endian a small,
    )
