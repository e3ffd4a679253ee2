-- ===== src/Tun/Devices.antt =====
-- src/tun/tun_interface.cpp: the class that each platform's build takes.
use kirdi.Protocol.{Endian}
use kirdi.Tun.{Platform, TunDevice}
use kirdi.Tun.Linux
use kirdi.Tun.MacOs
use kirdi.Tun.Windows

abbrev pub create_tun_device : Endian → Platform → TunDevice
create_tun_device e Platform.linux = Linux.device
create_tun_device e Platform.macos = MacOs.device e
create_tun_device e Platform.windows = Windows.device
