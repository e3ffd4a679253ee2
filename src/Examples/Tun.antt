-- ===== src/Examples/Tun.antt =====
-- Examples for src/tun.
use kirdi.Base.{◌≡◌, refl, arith, Bytes, length, [], ◌∷◌, inl, none}
use kirdi.Protocol.{little, zeros}
use kirdi.Tun.{Platform, Process, has, filled, took}
use kirdi.Tun.Devices.{create_tun_device}
use kirdi.Tun.Frames.{framed, write-read}
use kirdi.Tun.Lifecycle.{IsTunDevice, create_tun_device-IsTunDevice}
use kirdi.Tun.MacOs.{MacOsTunDevice, read_packet, write_packet}

create_tun_device-IsTunDevice_example : IsTunDevice (create_tun_device little Platform.linux)
create_tun_device-IsTunDevice_example = create_tun_device-IsTunDevice little Platform.linux

abbrev process : Process
process = record { held = []; frames = []; commands = [] }

abbrev utun : MacOsTunDevice
utun = record { fd = none; if_name = []; mtu = 1400 }

-- The rest of an IPv4 header.
abbrev rest : Bytes
rest = zeros 19

write-read_example :
    (write_packet little (λ buf. took (length buf)) (69 ∷ rest) utun process
      ≡ (has (length (69 ∷ rest)), record process { frames = framed 2 (69 ∷ rest) ∷ [] }))
    × (read_packet (filled (framed 2 (69 ∷ rest))) utun ≡ has (69 ∷ rest))
unfolding zeros
write-read_example =
    write-read little 69 rest 2 utun utun process (omega arith) (inl (refl, refl)) (omega arith)
