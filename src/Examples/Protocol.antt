-- ===== src/Examples/Protocol.antt =====
-- Examples for src/common/protocol.hpp and the frame parser of src/transport/ws_transport.cpp.
use kirdi.Base.{◌≤◌, ◌<◌, ◌≡◌, ◌⊎◌, refl, All, IsByte, Bytes, length, drop, [], ◌∷◌, ◌++◌, some, ok}
use kirdi.Base.{thrown, arith, leb, if◌then◌else◌, none, header_buffer, true}
use kirdi.Protocol.{MsgType, PacketHeader, header_size, max_payload, serialize_header}
use kirdi.Protocol.{deserialize_header, build_packet}
use kirdi.Protocol.Header.{IsMsgType, deserialize-serialize_header}
use kirdi.Protocol.Packet.{packet_bytes, build_packet_fits}
use kirdi.Transport.{dispatch_packet}
use kirdi.Transport.Dispatch.{dispatch_sound}

abbrev ping_header : PacketHeader
ping_header = record { type = MsgType.ping; length = 3 }

abbrev buffer : Bytes
buffer = 9 ∷ (9 ∷ (9 ∷ (9 ∷ (9 ∷ (9 ∷ [])))))

abbrev payload : Bytes
payload = 7 ∷ (8 ∷ (9 ∷ []))

abbrev ping_bytes : Bytes
ping_bytes = 7 ∷ (0 ∷ (0 ∷ (0 ∷ (3 ∷ (7 ∷ (8 ∷ (9 ∷ [])))))))

ping_built : build_packet MsgType.ping payload ≡ ok (packet_bytes MsgType.ping payload)
ping_built = build_packet_fits MsgType.ping payload (omega arith)

deserialize-serialize_header_example :
    ((length buffer < header_size) × (serialize_header buffer ping_header ≡ thrown header_buffer))
    ⊎ ((buf' : Bytes) × (serialize_header buffer ping_header ≡ ok (header_size, buf'))
        × (length buf' ≡ length buffer)
        × (drop header_size buf' ≡ drop header_size buffer)
        × (deserialize_header buf'
            ≡ (if leb ping_header.length max_payload then some ping_header else none)))
deserialize-serialize_header_example =
    deserialize-serialize_header buffer ping_header tt (omega arith)

ping_read : deserialize_header ping_bytes ≡ some ping_header
unfolding deserialize_header
ping_read = refl

ping_dispatched : dispatch_packet true ping_bytes ≡ some (ping_header, payload)
unfolding dispatch_packet deserialize_header
ping_dispatched = refl

ping_bytes-IsByte : All IsByte ping_bytes
ping_bytes-IsByte = ground arith

dispatch_sound_example :
    IsMsgType MsgType.ping
    × (length payload ≡ 3)
    × (3 ≤ max_payload)
    × ((rest : Bytes) × (packet_bytes MsgType.ping payload ++ rest ≡ ping_bytes))
dispatch_sound_example =
    dispatch_sound ping_bytes payload ping_header ping_bytes-IsByte ping_dispatched
