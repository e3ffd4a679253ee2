-- ===== src/Tun/MacOs.antt =====
-- src/tun/tun_macos.cpp: MacOSTunDevice. Every frame of a utun device begins with four bytes that
-- say the address family.
use kirdi.Base.{ℕ, ◌+◌, ◌-◌, ◌/◌, ◌%◌, ◌^◌, ltb, leb, if◌then◌else◌, Bool, true, false, Bytes, Text}
use kirdi.Base.{[], ◌∷◌, ◌++◌, take, drop, length, codes, Option, none, some, ◌==◌}
use kirdi.Base.Decimal.{to_string}
use kirdi.Inet.{htonl}
use kirdi.Protocol.{Endian, little, big}
use kirdi.Tun.{TunConfig, TunError, permission_denied, device_not_found, config_failed, Expected}
use kirdi.Tun.{has, unexpected, Process, hold, release, ReadAnswer, filled, nothing_yet}
use kirdi.Tun.{WriteAnswer, took, would_block, refused, TunDevice, c_str}

-- `fd_` is none for -1.
pub record MacOsTunDevice : Type 0 where
  pub fd : Option ℕ
  pub if_name : Text
  pub mtu : ℕ

-- The kernel's answers, and the exit code of a shell command.
pub record MacOsKernel : Type 0 where
  pub socket : Option ℕ
  -- CTLIOCGINFO: the id of the utun control.
  pub control_id : ℕ → Option ℕ
  pub connect : ℕ → ℕ → Bool
  -- UTUN_OPT_IFNAME
  pub interface_of : ℕ → Option Text
  pub system : Text → ℕ

unfoldable pub new_device : MacOsTunDevice
new_device = record { fd = none; if_name = []; mtu = 1400 }

unfoldable pub ifconfig_command : TunConfig → Text → Text
unfolding to_string
ifconfig_command config if_name =
    let peer : Text = elim config.peer_address [ [] ↦ config.address | c ∷ rest ↦ c ∷ rest ] in
    codes "ifconfig "
    ++ if_name
    ++ codes " inet "
    ++ config.address
    ++ codes " "
    ++ peer
    ++ codes " netmask "
    ++ config.netmask
    ++ codes " mtu "
    ++ to_string config.mtu
    ++ codes " up"

unfoldable pub configure_address :
    MacOsKernel → TunConfig → Text → Process → Expected (Unit {0}) × Process
unfolding ifconfig_command c_str
configure_address k config if_name p =
    let command = c_str (ifconfig_command config if_name) in
    (
      if k.system command == 0 then has tt else unexpected config_failed,
      record p { commands = p.commands ++ (command ∷ []) },
    )

-- A failure after `socket`: the descriptor is closed.
unfoldable pub give_up :
    TunError → ℕ → MacOsTunDevice → Process → Expected (Unit {0}) × MacOsTunDevice × Process
give_up e fd d p = (unexpected e, record d { fd = none }, release fd p)

-- The end of `open`.
unfoldable pub keep_if :
    Expected (Unit {0}) × Process
    → ℕ
    → MacOsTunDevice
    → Expected (Unit {0}) × MacOsTunDevice × Process
unfolding give_up
keep_if (has u, p) fd d = (has u, d, p)
keep_if (unexpected e, p) fd d = give_up e fd d p

-- `open`, once there is a socket.
unfoldable pub attach :
    MacOsKernel
    → TunConfig
    → ℕ
    → MacOsTunDevice
    → Process
    → Expected (Unit {0}) × MacOsTunDevice × Process
unfolding configure_address keep_if give_up
attach k config fd d p = elim (k.control_id fd) [
  | none ↦ give_up device_not_found fd d p
  | some id ↦
      if k.connect fd id
      then elim (k.interface_of fd) [
        | none ↦ give_up config_failed fd d p
        | some name ↦
            keep_if (configure_address k config name p) fd
              (record { fd = some fd; if_name = name; mtu = config.mtu })
      ]
      else give_up config_failed fd d p
]

unfoldable pub open_device :
    MacOsKernel
    → TunConfig
    → MacOsTunDevice
    → Process
    → Expected (Unit {0}) × MacOsTunDevice × Process
unfolding attach
open_device k config d p = elim k.socket [
  | none ↦ (unexpected permission_denied, record d { fd = none }, p)
  | some fd ↦ attach k config fd (record d { fd = some fd }) (hold fd p)
]

unfoldable pub close_device : MacOsTunDevice → Process → MacOsTunDevice × Process
close_device d p = elim d.fd [ none ↦ (d, p) | some fd ↦ (record d { fd = none }, release fd p) ]

unfoldable pub is_open : MacOsTunDevice → Bool
is_open d = elim d.fd [ none ↦ false | some fd ↦ true ]

abbrev pub utun_header_size : ℕ
utun_header_size = 4

-- `answer`: what `read` answers; it puts at most as many bytes as the buffer has.
unfoldable pub read_packet : ReadAnswer → MacOsTunDevice → Expected Bytes
read_packet (filled bytes) d =
    let buf = take (d.mtu + utun_header_size + 64) bytes in
    if leb (length buf) utun_header_size then has [] else has (drop utun_header_size buf)
read_packet nothing_yet d = has []
read_packet ReadAnswer.failed d = unexpected TunError.read_failed

-- AF_INET and AF_INET6 of macOS.
abbrev pub af_inet : ℕ
af_inet = 2

abbrev pub af_inet6 : ℕ
af_inet6 = 30

-- The address family by the IP version in a packet's first byte.
unfoldable pub family_of : ℕ → Option ℕ
family_of first =
    let ip_ver = first / 2 ^ 4 % 16 in
    if ip_ver == 4 then some af_inet else if ip_ver == 6 then some af_inet6 else none

-- The bytes of a uint32_t in memory.
unfoldable pub store_u32 : Endian → ℕ → Bytes
store_u32 little a = a % 256 ∷ (a / 2 ^ 8 % 256 ∷ (a / 2 ^ 16 % 256 ∷ (a / 2 ^ 24 % 256 ∷ [])))
store_u32 big a = a / 2 ^ 24 % 256 ∷ (a / 2 ^ 16 % 256 ∷ (a / 2 ^ 8 % 256 ∷ (a % 256 ∷ [])))

-- What `write_packet` makes of the answer of `write`.
unfoldable pub payload_written : WriteAnswer → Expected ℕ
payload_written (took n) = has (if ltb utun_header_size n then n - utun_header_size else 0)
payload_written would_block = has 0
payload_written refused = unexpected TunError.write_failed

unfoldable pub write_packet :
    Endian → (Bytes → WriteAnswer) → Bytes → MacOsTunDevice → Process → Expected ℕ × Process
unfolding family_of store_u32 payload_written htonl
write_packet e write [] d p = (has 0, p)
write_packet e write (first ∷ rest) d p = elim (family_of first) [
  | none ↦ (unexpected TunError.write_failed, p)
  | some af ↦
      let buf = store_u32 e (htonl e af) ++ (first ∷ rest) in
      (payload_written (write buf), record p { frames = p.frames ++ (buf ∷ []) })
]

abbrev pub device : Endian → TunDevice
device e = record {
  Device = MacOsTunDevice;
  Kernel = MacOsKernel;
  fresh = new_device;
  open_device = open_device;
  close_device = close_device;
  read_packet = read_packet;
  write_packet = write_packet e;
  native_fd = λ d. d.fd;
  interface_name = λ d. d.if_name;
  is_open = is_open;
}
