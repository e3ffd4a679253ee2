-- ===== src/Tun/Frames.antt =====
-- The frames of a utun device, src/tun/tun_macos.cpp.
use kirdi.Base.{ℕ, ◌+◌, ◌≤◌, ◌≡◌, ◌/◌, arith, Bytes, length, [], ◌∷◌, ◌++◌, some, IsByte, ◌⊎◌, inl}
use kirdi.Base.{inr, ◌<◌, take_all}
use kirdi.Inet.{htonl, swap_bytes}
use kirdi.Protocol.{Endian, little, big}
use kirdi.Tun.{Process, has, filled, took}
use kirdi.Tun.MacOs.{MacOsTunDevice, write_packet, read_packet, family_of, payload_written}
use kirdi.Tun.MacOs.{store_u32, utun_header_size}

-- Four bytes in network order, as the kernel reads them.
abbrev pub framed : ℕ → Bytes → Bytes
framed af packet = 0 ∷ (0 ∷ (0 ∷ (af ∷ packet)))

stored : (e : Endian) (af : ℕ) → IsByte af → store_u32 e (htonl e af) ≡ 0 ∷ (0 ∷ (0 ∷ (af ∷ [])))
unfolding store_u32 htonl swap_bytes
stored little af h = ground arith
stored big af h = ground arith

read_framed :
    (af : ℕ) (packet : Bytes) (d : MacOsTunDevice)
    → 0 < length packet
    → length packet ≤ d.mtu + 64
    → read_packet (filled (framed af packet)) d ≡ has packet
unfolding read_packet
read_framed af packet d some_bytes fits =
    ground (arith, take_all (d.mtu + utun_header_size + 64) (framed af packet) (omega arith))

-- The address family of macOS that goes with the version in a packet's first byte.
abbrev pub IsFamily : ℕ → ℕ → Type 0
IsFamily first af = ((first / 16 ≡ 4) × (af ≡ 2)) ⊎ ((first / 16 ≡ 6) × (af ≡ 30))

family_of_lem : (first af : ℕ) → IsByte first → IsFamily first af → family_of first ≡ some af
unfolding family_of
family_of_lem first af h (inl (v, a)) = ground arith
family_of_lem first af h (inr (v, a)) = ground arith

-- A packet of IP version 4 or 6 that is written to a utun device goes out as one frame, which begins
-- with its address family in network byte order on either kind of machine, and if the kernel takes
-- the frame, the length of the packet is returned. A device that reads this frame yields the packet
-- again, when the packet is not longer than its MTU and 64 bytes.
pub write-read :
    (e : Endian) (first : ℕ) (rest : Bytes) (af : ℕ) (d d' : MacOsTunDevice) (p : Process)
    → IsByte first
    → IsFamily first af
    → length (first ∷ rest) ≤ d'.mtu + 64
    → let frame = framed af (first ∷ rest) in
      (write_packet e (λ buf. took (length buf)) (first ∷ rest) d p
        ≡ (has (length (first ∷ rest)), record p { frames = p.frames ++ (frame ∷ []) }))
      × (read_packet (filled frame) d' ≡ has (first ∷ rest))
unfolding write_packet payload_written
write-read e first rest af d d' p byte family fits = (
  ground (arith, family_of_lem first af byte family, stored e af (omega (arith, family))),
  read_framed af (first ∷ rest) d' (omega arith) fits,
)
