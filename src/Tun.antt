-- ===== src/Tun.antt =====
-- src/tun/tun_interface.hpp: what a TUN device is to the rest of the program. The devices themselves
-- are children; the system calls that they make are parameters, by their answers.
pub mod Linux
pub mod MacOs
pub mod Windows
pub mod Devices
pub mod Lifecycle
pub mod Frames
use kirdi.Base.{ℕ, ◌==◌, if◌then◌else◌, Bool, true, false, Bytes, Text, List, [], ◌∷◌, ◌++◌, Option}
use kirdi.Base.{none, some}

-- `KIRDI_PLATFORM_…` of the build
pub data Platform : Type 0 where
  linux : Platform
  macos : Platform
  windows : Platform

pub record TunConfig : Type 0 where
  pub name : Text
  pub address : Text
  pub peer_address : Text
  pub netmask : Text
  pub mtu : ℕ

pub data TunError : Type 0 where
  permission_denied : TunError
  device_not_found : TunError
  already_exists : TunError
  config_failed : TunError
  read_failed : TunError
  write_failed : TunError
  system_error : TunError

-- `std::expected<A, TunError>`
pub data Expected {ℓ} (A : Type ℓ) : Type ℓ where
  has : A → Expected A
  unexpected : TunError → Expected A

abbrev pub is_ok {ℓ} : {A : Type ℓ} → Expected A → Bool
is_ok (has a) = true
is_ok (unexpected e) = false

-- The process, as far as the devices touch it: the file descriptors that they hold, the last one
-- first, the buffers that they gave to `write`, and the shell commands that they ran.
pub record Process : Type 0 where
  pub held : List ℕ
  pub frames : List Bytes
  pub commands : List Text

abbrev pub hold : ℕ → Process → Process
hold fd p = record p { held = fd ∷ p.held }

unfoldable pub without : ℕ → List ℕ → List ℕ
without fd [] = []
without fd (g ∷ rest) = if g == fd then rest else g ∷ without fd rest

-- `::close(fd)`
abbrev pub release : ℕ → Process → Process
release fd p = record p { held = without fd p.held }

-- What `read` and `write` answer on a descriptor that does not block.
pub data ReadAnswer : Type 0 where
  filled : Bytes → ReadAnswer
  nothing_yet : ReadAnswer
  failed : ReadAnswer

pub data WriteAnswer : Type 0 where
  took : ℕ → WriteAnswer
  would_block : WriteAnswer
  refused : WriteAnswer

-- A text handed to a C function ends before its first zero.
unfoldable pub c_str : Text → Text
c_str [] = []
c_str (c ∷ text) = let rest = c_str text in if c == 0 then [] else c ∷ rest

-- A class derived from TunDevice. `Kernel`: the answers to the system calls of one `open`. `read`
-- and `write` are asked with a descriptor; their answers are arguments.
pub record TunDevice : Type 1 where
  pub Device : Type 0
  pub Kernel : Type 0
  pub fresh : Device
  pub open_device : Kernel → TunConfig → Device → Process → Expected (Unit {0}) × Device × Process
  pub close_device : Device → Process → Device × Process
  pub read_packet : ReadAnswer → Device → Expected Bytes
  pub write_packet : (Bytes → WriteAnswer) → Bytes → Device → Process → Expected ℕ × Process
  pub native_fd : Device → Option ℕ
  pub interface_name : Device → Text
  pub is_open : Device → Bool
