-- ===== src/Tun/Lifecycle.antt =====
-- The life of a device of src/tun, and the descriptors that it holds.
use kirdi.Base.{ℕ, ◌≡◌, refl, arith, false, Option, none, some, List, ◌∷◌, Bool-cases, Option-cases}
use kirdi.Base.{inl, inr, Text}
use kirdi.Protocol.{Endian}
use kirdi.Tun.{TunConfig, TunDevice, Process, Expected, has, unexpected, is_ok, Platform, without}
use kirdi.Tun.{hold, TunError}
use kirdi.Tun.Devices.{create_tun_device}
use kirdi.Tun.Linux
use kirdi.Tun.MacOs
use kirdi.Tun.Windows

-- The descriptors with that of a device on top, if it has one.
abbrev pub holding : Option ℕ → List ℕ → List ℕ
holding none fds = fds
holding (some fd) fds = fd ∷ fds

-- After `open` with these descriptors held before: it succeeded if and only if the device is open, and
-- the device's own descriptor is held besides, if it has one, and no other.
abbrev pub Settled : (D : TunDevice) → Expected (Unit {0}) × D.Device × Process → List ℕ → Type 0
Settled D (r, d, p) fds = (D.is_open d ≡ is_ok r) × (p.held ≡ holding (D.native_fd d) fds)

-- What the server and the client need of a device.
pub record IsTunDevice (D : TunDevice) : Type 0 where
  pub fresh_closed : (D.is_open D.fresh ≡ false) × (D.native_fd D.fresh ≡ none)
  pub opened :
      (k : D.Kernel) (config : TunConfig) (d : D.Device) (p : Process)
      → D.is_open d ≡ false
      → Settled D (D.open_device k config d p) p.held
  -- `close` gives the descriptor back.
  pub closed :
      (d : D.Device) (p : Process) (fds : List ℕ)
      → p.held ≡ holding (D.native_fd d) fds
      → let (d', p') = D.close_device d p in
        (D.is_open d' ≡ false) × (D.native_fd d' ≡ none) × (p'.held ≡ fds)

without_first : (fd : ℕ) (fds : List ℕ) → without fd (fd ∷ fds) ≡ fds
unfolding without
without_first fd fds = ground arith

linux_kept :
    (r : Expected (Unit {0}) × Process) (fd : ℕ) (d : Linux.LinuxTunDevice) (fds : List ℕ)
    → d.fd ≡ some fd
    → r.1.held ≡ fd ∷ fds
    → Settled Linux.device (Linux.keep_if r fd d) fds
unfolding Linux.keep_if Linux.is_open
linux_kept (has u, p) fd d fds e held = ground (arith, e, held)
linux_kept (unexpected x, p) fd d fds e held = ground (arith, e, held, without_first fd fds)

linux_configured :
    (k : Linux.LinuxKernel) (config : TunConfig) (name : Text) (p : Process)
    → (Linux.configure_address k config name p).1.held ≡ p.held
unfolding Linux.configure_address
linux_configured k config name p = elim (Option-cases k.socket) [
  | inl e ↦ ground (arith, e)
  | inr (sock, e) ↦ ground (arith, e, without_first sock p.held)
]

linux_opened :
    (k : Linux.LinuxKernel) (config : TunConfig) (d : Linux.LinuxTunDevice) (p : Process)
    → Settled Linux.device (Linux.open_device k config d p) p.held
unfolding Linux.open_device Linux.is_open
linux_opened k config d p = elim (Option-cases k.open_tun) [
  | inl e ↦ ground (arith, e)
  | inr (fd, e) ↦ elim (Option-cases (k.set_iff fd (Linux.first_name config.name))) [
    | inl e' ↦ ground (arith, e, e', without_first fd p.held)
    | inr (name, e') ↦ ground (
      arith,
      e,
      e',
      linux_kept (Linux.configure_address k config name (hold fd p)) fd
          (record { fd = some fd; if_name = name; mtu = config.mtu }) p.held refl
          (linux_configured k config name (hold fd p)),
    )
  ]
]

linux_closed :
    (d : Linux.LinuxTunDevice) (p : Process) (fds : List ℕ)
    → p.held ≡ holding d.fd fds
    → let (d', p') = Linux.close_device d p in
      (Linux.is_open d' ≡ false) × (d'.fd ≡ none) × (p'.held ≡ fds)
unfolding Linux.close_device Linux.is_open
linux_closed d p fds held = elim (Option-cases d.fd) [
  | inl e ↦ ground (arith, e)
  | inr (fd, e) ↦ ground (arith, e, without_first fd fds)
]

linux-IsTunDevice : IsTunDevice Linux.device
unfolding Linux.new_device Linux.is_open
linux-IsTunDevice = record {
  fresh_closed = (refl, refl);
  opened = λ k config d p shut. linux_opened k config d p;
  closed = linux_closed;
}

macos_closed :
    (d : MacOs.MacOsTunDevice) (p : Process) (fds : List ℕ)
    → p.held ≡ holding d.fd fds
    → let (d', p') = MacOs.close_device d p in
      (MacOs.is_open d' ≡ false) × (d'.fd ≡ none) × (p'.held ≡ fds)
unfolding MacOs.close_device MacOs.is_open
macos_closed d p fds held = elim (Option-cases d.fd) [
  | inl e ↦ ground (arith, e)
  | inr (fd, e) ↦ ground (arith, e, without_first fd fds)
]

module _ (e : Endian) where
  macos_given_up :
      (x : TunError) (fd : ℕ) (d : MacOs.MacOsTunDevice) (p : Process) (fds : List ℕ)
      → p.held ≡ fd ∷ fds
      → Settled (MacOs.device e) (MacOs.give_up x fd d p) fds
  unfolding MacOs.give_up MacOs.is_open
  macos_given_up x fd d p fds held = ground (arith, held, without_first fd fds)

  macos_kept :
      (r : Expected (Unit {0}) × Process) (fd : ℕ) (d : MacOs.MacOsTunDevice) (fds : List ℕ)
      → d.fd ≡ some fd
      → r.1.held ≡ fd ∷ fds
      → Settled (MacOs.device e) (MacOs.keep_if r fd d) fds
  unfolding MacOs.keep_if MacOs.is_open
  macos_kept (has u, p) fd d fds eq held = ground (arith, eq, held)
  macos_kept (unexpected x, p) fd d fds eq held = macos_given_up x fd d p fds held

  macos_attached :
      (k : MacOs.MacOsKernel) (config : TunConfig) (fd : ℕ) (d : MacOs.MacOsTunDevice) (p : Process)
      (fds : List ℕ)
      → p.held ≡ fd ∷ fds
      → Settled (MacOs.device e) (MacOs.attach k config fd d p) fds
  unfolding MacOs.attach MacOs.configure_address
  macos_attached k config fd d p fds held = elim (Option-cases (k.control_id fd)) [
    | inl no_id ↦ ground (arith, no_id, macos_given_up TunError.device_not_found fd d p fds held)
    | inr (id, e1) ↦ elim (Bool-cases (k.connect fd id)) [
      | inr refused ↦
          ground (arith, e1, refused, macos_given_up TunError.config_failed fd d p fds held)
      | inl connected ↦ elim (Option-cases (k.interface_of fd)) [
        | inl no_name ↦
            ground
              (arith, e1, connected, no_name, macos_given_up TunError.config_failed fd d p fds held)
        | inr (name, e2) ↦ ground (
          arith,
          e1,
          connected,
          e2,
          macos_kept (MacOs.configure_address k config name p) fd
              (record { fd = some fd; if_name = name; mtu = config.mtu }) fds refl held,
        )
      ]
    ]
  ]

  macos_opened :
      (k : MacOs.MacOsKernel) (config : TunConfig) (d : MacOs.MacOsTunDevice) (p : Process)
      → Settled (MacOs.device e) (MacOs.open_device k config d p) p.held
  unfolding MacOs.open_device MacOs.is_open
  macos_opened k config d p = elim (Option-cases k.socket) [
    | inl no_socket ↦ ground (arith, no_socket)
    | inr (fd, e1) ↦
        ground (
          arith,
          e1,
          macos_attached k config fd (record d { fd = some fd }) (hold fd p) p.held refl,
        )
  ]

  macos-IsTunDevice : IsTunDevice (MacOs.device e)
  unfolding MacOs.new_device MacOs.is_open
  macos-IsTunDevice = record {
    fresh_closed = (refl, refl);
    opened = λ k config d p shut. macos_opened k config d p;
    closed = macos_closed;
  }

windows-IsTunDevice : IsTunDevice Windows.device
unfolding Windows.new_device Windows.open_device Windows.close_device
windows-IsTunDevice = record {
  fresh_closed = (refl, refl);
  opened = λ k config d p shut. (shut, refl);
  closed = λ d p fds held. (refl, refl, held);
}

-- On every platform a TUN device is closed when it is made. `open` on a closed device succeeds if and
-- only if the device is open afterwards, whatever the kernel answers at each step, and then the
-- process holds the device's descriptor besides those that it held before, and no other; if it
-- fails, none. `close` leaves the device closed and gives that descriptor back.
pub create_tun_device-IsTunDevice :
    (e : Endian) (platform : Platform) → IsTunDevice (create_tun_device e platform)
create_tun_device-IsTunDevice e Platform.linux = linux-IsTunDevice
create_tun_device-IsTunDevice e Platform.macos = macos-IsTunDevice e
create_tun_device-IsTunDevice e Platform.windows = windows-IsTunDevice
