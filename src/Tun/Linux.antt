-- ===== src/Tun/Linux.antt =====
-- src/tun/tun_linux.cpp: LinuxTunDevice.
use kirdi.Base.{ℕ, ◌+◌, ◌%◌, ◌^◌, if◌then◌else◌, Bool, true, false, Bytes, Text, [], ◌∷◌, ◌++◌}
use kirdi.Base.{take, Option, none, some, bit_or}
use kirdi.Tun.{TunConfig, TunError, permission_denied, device_not_found, config_failed}
use kirdi.Tun.{system_error, Expected, has, unexpected, Process, hold, release, ReadAnswer, filled}
use kirdi.Tun.{nothing_yet, WriteAnswer, took, would_block, refused, TunDevice, c_str}

-- `fd_` is none for -1.
pub record LinuxTunDevice : Type 0 where
  pub fd : Option ℕ
  pub if_name : Text
  pub mtu : ℕ

-- The kernel's answers. An ioctl is asked with the socket, the interface's name and the argument.
pub record LinuxKernel : Type 0 where
  -- `open("/dev/net/tun")`, and whether `errno` is EACCES or EPERM if it fails.
  pub open_tun : Option ℕ
  pub denied : Bool
  -- TUNSETIFF: the name that the interface got.
  pub set_iff : ℕ → Text → Option Text
  pub socket : Option ℕ
  pub inet_pton : Text → Option ℕ
  pub set_address : ℕ → Text → ℕ → Bool
  pub set_netmask : ℕ → Text → ℕ → Bool
  pub set_mtu : ℕ → Text → ℕ → Bool
  pub get_flags : ℕ → Text → Option ℕ
  pub set_flags : ℕ → Text → ℕ → Bool

unfoldable pub new_device : LinuxTunDevice
new_device = record { fd = none; if_name = []; mtu = 1400 }

-- IFNAMSIZ - 1, and IFF_UP | IFF_RUNNING.
abbrev pub name_size : ℕ
name_size = 15

unfoldable pub first_name : Text → Text
unfolding c_str
first_name name = take name_size (c_str name)

abbrev pub up_and_running : ℕ
up_and_running = 0x41

-- The last steps of `configure_address`, on the socket.
unfoldable pub bring_up : LinuxKernel → Text → ℕ → Expected (Unit {0})
bring_up k name sock = elim (k.get_flags sock name) [
  | none ↦ unexpected config_failed
  | some flags ↦
      if k.set_flags sock name (bit_or flags up_and_running)
      then has tt
      else unexpected config_failed
]

-- The address and the netmask stand in the same bytes of the request, which begin as zeros.
unfoldable pub configure_socket : LinuxKernel → TunConfig → Text → ℕ → Expected (Unit {0})
unfolding bring_up c_str
configure_socket k config name sock =
    let address : ℕ = elim (k.inet_pton (c_str config.address)) [ none ↦ 0 | some a ↦ a ] in
    let netmask : ℕ = elim (k.inet_pton (c_str config.netmask)) [ none ↦ address | some m ↦ m ] in
    if k.set_address sock name address
    then if k.set_netmask sock name netmask
      then if k.set_mtu sock name config.mtu then bring_up k name sock else unexpected config_failed
      else unexpected config_failed
    else unexpected config_failed

unfoldable pub configure_address :
    LinuxKernel → TunConfig → Text → Process → Expected (Unit {0}) × Process
unfolding configure_socket first_name
configure_address k config if_name p = elim k.socket [
  | none ↦ (unexpected system_error, p)
  | some sock ↦ (configure_socket k config (first_name if_name) sock, release sock (hold sock p))
]

-- The end of `open`: a device that cannot be configured is closed.
unfoldable pub keep_if :
    Expected (Unit {0}) × Process
    → ℕ
    → LinuxTunDevice
    → Expected (Unit {0}) × LinuxTunDevice × Process
keep_if (has u, p) fd d = (has u, d, p)
keep_if (unexpected e, p) fd d = (unexpected e, record d { fd = none }, release fd p)

unfoldable pub open_device :
    LinuxKernel
    → TunConfig
    → LinuxTunDevice
    → Process
    → Expected (Unit {0}) × LinuxTunDevice × Process
unfolding configure_address keep_if first_name
open_device k config d p = elim k.open_tun [
  | none ↦ (
    unexpected (if k.denied then permission_denied else device_not_found),
    record d { fd = none },
    p,
  )
  | some fd ↦ elim (k.set_iff fd (first_name config.name)) [
    | none ↦ (unexpected config_failed, record d { fd = none }, release fd (hold fd p))
    | some name ↦
        keep_if (configure_address k config name (hold fd p)) fd
          (record { fd = some fd; if_name = name; mtu = config.mtu })
  ]
]

unfoldable pub close_device : LinuxTunDevice → Process → LinuxTunDevice × Process
close_device d p = elim d.fd [ none ↦ (d, p) | some fd ↦ (record d { fd = none }, release fd p) ]

unfoldable pub is_open : LinuxTunDevice → Bool
is_open d = elim d.fd [ none ↦ false | some fd ↦ true ]

-- `answer`: what `read` answers; it puts at most as many bytes as the buffer has.
unfoldable pub read_packet : ReadAnswer → LinuxTunDevice → Expected Bytes
read_packet (filled bytes) d = has (take ((d.mtu + 64) % 2 ^ 32) bytes)
read_packet nothing_yet d = has []
read_packet ReadAnswer.failed d = unexpected TunError.read_failed

unfoldable pub write_packet :
    (Bytes → WriteAnswer) → Bytes → LinuxTunDevice → Process → Expected ℕ × Process
write_packet write packet d p = (
  elim (write packet) [
    | took n ↦ has n
    | would_block ↦ has 0
    | refused ↦ unexpected TunError.write_failed
  ],
  record p { frames = p.frames ++ (packet ∷ []) },
)

abbrev pub device : TunDevice
device = record {
  Device = LinuxTunDevice;
  Kernel = LinuxKernel;
  fresh = new_device;
  open_device = open_device;
  close_device = close_device;
  read_packet = read_packet;
  write_packet = write_packet;
  native_fd = λ d. d.fd;
  interface_name = λ d. d.if_name;
  is_open = is_open;
}
