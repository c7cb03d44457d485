-- ===== src/Socket/Packet/Setup.antt =====
-- Opening a packet socket with its ring, binding and closing it.
use asrt.Base.{Bool, true, false, List, [], ◌∷◌, ◌++◌, replicate, if◌then◌else◌}
use asrt.ErrorCode.{Result, ok, err, unable_to_obtain_if_index}
use asrt.Socket.Packet.{
  PacketSocket, PacketMmapMode, mmap_disabled, default_block_num, is_mmap_enabled,
}

pub data SetupCall : Type 0 where
  opens sets_version sets_ring maps level_triggered : SetupCall

module _ {H : Type 0} where
  -- `SetupPacketMmap`, by the answers of setsockopt(2) for the version and for the ring, and of mmap(2).
  unfoldable pub setup_packet_mmap :
      Result (Unit {0})
      → Result (Unit {0})
      → Result (Unit {0})
      → PacketSocket H
      → Result (Unit {0}) × PacketSocket H × List SetupCall
  setup_packet_mmap (err error) requested mapped s = (err error, s, sets_version ∷ [])
  setup_packet_mmap (ok done) (err error) mapped s = (err error, s, sets_version ∷ sets_ring ∷ [])
  setup_packet_mmap (ok done) (ok set) (err error) s =
      (err error, s, sets_version ∷ sets_ring ∷ maps ∷ [])
  setup_packet_mmap (ok done) (ok set) (ok map) s = (
    ok tt,
    record s { total_block_num = default_block_num; ring = replicate default_block_num false },
    sets_version ∷ sets_ring ∷ maps ∷ [],
  )

  -- The end of `Open`.
  finish_open :
      PacketMmapMode
      → Bool
      → Result (Unit {0}) × PacketSocket H × List SetupCall
      → Result (Unit {0}) × PacketSocket H × List SetupCall
  finish_open mode has_reactor (err error, s, calls) = (err error, s, opens ∷ calls)
  finish_open mode has_reactor (ok done, s, calls) = (
    ok tt,
    record s { mmap_mode = mode },
    opens ∷ (calls ++ (if has_reactor then level_triggered ∷ [] else [])),
  )

  -- `Open`, by the answer of the base's `Open`.
  unfoldable pub open_packet :
      PacketMmapMode
      → Bool
      → Result (Unit {0})
      → Result (Unit {0})
      → Result (Unit {0})
      → Result (Unit {0})
      → PacketSocket H
      → Result (Unit {0}) × PacketSocket H × List SetupCall
  unfolding setup_packet_mmap finish_open is_mmap_enabled
  open_packet mode has_reactor opened versioned requested mapped s = elim opened [
    | err error ↦ (err error, s, opens ∷ [])
    | ok done ↦
        let s' : PacketSocket H = record s { is_open = true } in
        finish_open mode has_reactor (
          if is_mmap_enabled mode
          then setup_packet_mmap versioned requested mapped s'
          else (ok tt, s', []))
  ]

  -- `OnCloseEvent`, when the base has closed the socket.
  unfoldable pub close_packet : PacketSocket H → PacketSocket H
  close_packet s = record s {
    is_open = false;
    recv_ongoing = false;
    send_ongoing = false;
    mmap_mode = mmap_disabled;
    total_block_num = 0;
    current_block_index = 0;
    ring = [];
  }

-- `BindToEndpointImpl`, by the answers of `GetNetIfIndex` and bind(2).
unfoldable pub bind_packet : {A : Type 0} → Result A → Result (Unit {0}) → Result (Unit {0})
bind_packet (err error) bound = err unable_to_obtain_if_index
bind_packet (ok index) bound = bound
