-- ===== src/Socket/Address/Tests.antt =====
-- The address 127.0.0.1 on a little-endian host.
use asrt.Base.{◌/◌, ◌%◌, ◌≡◌, false, arith}
use asrt.Message.ByteOrder.{wire}
use asrt.Socket.Address.{AddressV4, of_uint, of_bytes, to_uint, to_bytes_constant, to_bytes}
use asrt.Socket.Address.Bytes.{to_bytes-of_bytes}

abbrev localhost : AddressV4
localhost = 0x0100007f

to_bytes-of_bytes_example :
    let h = to_uint false localhost in
    (to_bytes_constant false localhost ≡ to_bytes false localhost)
    × (to_bytes false localhost ≡ wire h)
    × (of_bytes false (h / 16777216 % 256) (h / 65536 % 256) (h / 256 % 256) (h % 256) ≡ localhost)
    × (of_uint false h ≡ localhost)
to_bytes-of_bytes_example = to_bytes-of_bytes false localhost (omega arith)
