-- ===== src/Transport/Dispatch.antt =====
-- `dispatch_packet` of src/transport/ws_transport.cpp: which frames reach the callback.
use kirdi.Base.{◌+◌, ◌≤◌, ◌≡◌, inl, inr, arith, true, Bytes, IsByte, All, length, take, drop}
use kirdi.Base.{length-take, length-drop, take-append, ◌++◌, some, Option-cases, ok, ap, sym, ◌∙◌}
use kirdi.Base.{[], length-append, take-append-drop}
use kirdi.Protocol.{MsgType, PacketHeader, header_size, max_payload, deserialize_header}
use kirdi.Protocol.{serialize_header, build_packet, header_bytes}
use kirdi.Protocol.Header.{IsMsgType, serialize-deserialize_header, deserialize-header_bytes}
use kirdi.Protocol.Packet.{packet_bytes, build_packet_fits, deserialize-build_packet}
use kirdi.Protocol.Packet.{build_packet-le}
use kirdi.Transport.{dispatch_packet}
use mathlib.Core.List.{append-nil}

dispatch-packet_bytes :
    (type : MsgType) (payload rest : Bytes)
    → IsMsgType type
    → length payload ≤ max_payload
    → dispatch_packet true (packet_bytes type payload ++ rest)
      ≡ some (record { type = type; length = length payload }, payload)
unfolding dispatch_packet
dispatch-packet_bytes type payload rest t h = ground (
  arith,
  deserialize-header_bytes (record { type = type; length = length payload }) (payload ++ rest) t h,
  length-append payload rest,
  take-append payload rest,
)

pub dispatch-packet :
    (type : MsgType) (payload : Bytes)
    → IsMsgType type
    → length payload ≤ max_payload
    → dispatch_packet true (packet_bytes type payload)
      ≡ some (record { type = type; length = length payload }, payload)
dispatch-packet type payload t h =
    ap (dispatch_packet true) (sym (append-nil (packet_bytes type payload)))
    ∙ dispatch-packet_bytes type payload [] t h

-- A packet that `build_packet` returns is delivered with its type and payload, also with bytes
-- behind it in the message: those are dropped.
pub dispatch-build_packet :
    (type : MsgType) (payload pkt rest : Bytes)
    → IsMsgType type
    → build_packet type payload ≡ ok pkt
    → dispatch_packet true (pkt ++ rest)
      ≡ some (record { type = type; length = length payload }, payload)
dispatch-build_packet type payload pkt rest t e = elim (deserialize-build_packet type payload t) [
  | inl (_, e') ↦ cc
  | inr (p, e', size, _, _) ↦
      let fits : length payload ≤ max_payload = build_packet-le type payload pkt e in
      let same : packet_bytes type payload ≡ pkt = cc (build_packet_fits type payload fits) in
      rw (← same) (dispatch-packet_bytes type payload rest t fits)
]

-- What reaches the callback from a message of bytes is well formed: the type is a value of the
-- enum, the payload has the size that the header states, at most `max_payload`, and the message
-- begins with that header and that payload.
pub dispatch_sound :
    (buf payload : Bytes) (hdr : PacketHeader)
    → All IsByte buf
    → dispatch_packet true buf ≡ some (hdr, payload)
    → IsMsgType hdr.type
      × (length payload ≡ hdr.length)
      × (hdr.length ≤ max_payload)
      × ((rest : Bytes) × (packet_bytes hdr.type payload ++ rest ≡ buf))
unfolding dispatch_packet serialize_header
dispatch_sound buf payload hdr h e = elim (Option-cases (deserialize_header buf)) [
  | inl d ↦ ground (arith, d)
  | inr (hd, d) ↦
      let (t, fits, written) = serialize-deserialize_header buf hd h d in
      let same : hdr ≡ hd = ground (arith, d) in
      let body : payload ≡ take hd.length (drop header_size buf) = ground (arith, d) in
      let room : header_size + hd.length ≤ length buf = ground (arith, d) in
      let size : length payload ≡ hd.length = omega (
        arith,
        ap length body,
        length-take hd.length (drop header_size buf),
        length-drop header_size buf,
      ) in
      let joined : payload ++ drop hd.length (drop header_size buf) ≡ drop header_size buf =
        rw body (take-append-drop hd.length (drop header_size buf)) in
      let whole : header_bytes hd ++ drop header_size buf ≡ buf = ground (arith, written) in
      rw same (t, size, fits, (drop hd.length (drop header_size buf), rw (size, joined) whole))
]
