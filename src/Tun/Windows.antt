-- ===== src/Tun/Windows.antt =====
-- src/tun/tun_windows.cpp: WindowsTunDevice, a stub whose operations fail.
use kirdi.Base.{ℕ, Bool, false, Bytes, Text, [], none}
use kirdi.Tun.{TunConfig, TunError, Expected, unexpected, Process, ReadAnswer, WriteAnswer}
use kirdi.Tun.{TunDevice}

pub record WindowsTunDevice : Type 0 where
  pub opened : Bool
  pub if_name : Text
  pub mtu : ℕ

unfoldable pub new_device : WindowsTunDevice
new_device = record { opened = false; if_name = []; mtu = 1400 }

unfoldable pub open_device :
    Unit {0}
    → TunConfig
    → WindowsTunDevice
    → Process
    → Expected (Unit {0}) × WindowsTunDevice × Process
open_device k config d p = (unexpected TunError.system_error, d, p)

unfoldable pub close_device : WindowsTunDevice → Process → WindowsTunDevice × Process
close_device d p = (record d { opened = false }, p)

unfoldable pub read_packet : ReadAnswer → WindowsTunDevice → Expected Bytes
read_packet answer d = unexpected TunError.system_error

unfoldable pub write_packet :
    (Bytes → WriteAnswer) → Bytes → WindowsTunDevice → Process → Expected ℕ × Process
write_packet write packet d p = (unexpected TunError.system_error, p)

abbrev pub device : TunDevice
device = record {
  Device = WindowsTunDevice;
  Kernel = Unit {0};
  fresh = new_device;
  open_device = open_device;
  close_device = close_device;
  read_packet = read_packet;
  write_packet = write_packet;
  native_fd = λ d. none;
  interface_name = λ d. d.if_name;
  is_open = λ d. d.opened;
}
