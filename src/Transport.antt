-- ===== src/Transport.antt =====
-- src/transport/ws_transport.cpp: the frame parser that all transports share.
pub mod Dispatch
pub mod Mail
pub mod ServerSession
pub mod ClientTransport
pub mod PlainServerSession
pub mod WsSession
use kirdi.Base.{ℕ, ◌+◌, leb, if◌then◌else◌, Bool, true, false, Bytes, length, take, drop, Option}
use kirdi.Base.{none, some}
use kirdi.Protocol.{PacketHeader, header_size, deserialize_header}

-- The arguments of the callback, or none where it is not called. `has_callback`: `cb` is not empty.
unfoldable pub dispatch_packet : Bool → Bytes → Option (PacketHeader × Bytes)
dispatch_packet has_callback buf =
    if has_callback
    then if leb header_size (length buf)
      then elim (deserialize_header buf) [
        | none ↦ none
        | some hdr ↦
            if leb (header_size + hdr.length) (length buf)
            then some (hdr, take hdr.length (drop header_size buf))
            else none
      ]
      else none
    else none
