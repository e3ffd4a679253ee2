-- ===== src/Network.antt =====
-- The shell commands that set routes and DNS: the functions of src/client/client.cpp that run them.
-- The shell and the resolver are parameters. `std::system` appends to the list of the commands run.
pub mod Table
pub mod Firewall
pub mod Resolv
pub mod Guard
use kirdi.Base.{ℕ, ◌==◌, if◌then◌else◌, Bool, ◌||◌, Text, codes, is_empty, List, [], ◌∷◌, ◌++◌}
use kirdi.Base.{take, Option, none, some}
use kirdi.Tun.{Platform, TunConfig, c_str}

pub record Machine : Type 0 where
  pub platform : Platform
  -- The exit code of a command, after the commands that were run before.
  pub exit_code : List Text → Text → ℕ
  -- The first address that `getaddrinfo` finds, as `inet_ntop` prints it.
  pub getaddrinfo : Text → Option Text
  -- The output of a command, if `popen` starts it.
  pub popen : Text → Option Text
  -- `interface_name()` of the last device, by the configurations of all that were opened.
  pub interface_name : List TunConfig → Text

abbrev pub system : Text → List Text → List Text
system command done = done ++ (c_str command ∷ [])

-- `std::system` returns zero.
abbrev pub succeeds : Machine → Text → List Text → Bool
succeeds m command done = m.exit_code done (c_str command) == 0

unfoldable pub resolve_host : Machine → Text → Text
unfolding c_str
resolve_host m host = elim (m.getaddrinfo (c_str host)) [ none ↦ host | some ip ↦ ip ]

-- What stands before the first zero, line feed or carriage return.
unfoldable pub first_line : Text → Text
first_line [] = []
first_line (c ∷ text) =
    let rest = first_line text in if c == 0 || c == 10 || c == 13 then [] else c ∷ rest

-- `fgets` into a buffer of `size` bytes.
unfoldable pub read_line : ℕ → Option Text → Text
unfolding first_line
read_line size none = []
read_line size (some output) = first_line (take size output)

unfoldable pub get_default_gateway : Machine → Text
unfolding read_line
get_default_gateway m = elim m.platform [
  | Platform.linux ↦
      read_line 127
        (m.popen (codes "ip route show default 2>/dev/null | awk '/default/ {print $3}'"))
  | Platform.macos ↦
      read_line 127
        (m.popen (codes "route -n get default 2>/dev/null | grep gateway | awk '{print $2}'"))
  | Platform.windows ↦ []
]

-- The two halves of the address space.
abbrev pub low_half : Text
low_half = codes "0.0.0.0/1"

abbrev pub high_half : Text
high_half = codes "128.0.0.0/1"

unfoldable pub add_exclusion : Platform → Text → Text → Text
add_exclusion Platform.linux server_ip gateway =
    codes "ip route add " ++ server_ip ++ codes "/32 via " ++ gateway
add_exclusion Platform.macos server_ip gateway =
    codes "route -n add -host " ++ server_ip ++ codes " " ++ gateway
add_exclusion Platform.windows server_ip gateway = []

unfoldable pub add_with_metric : Text → Text → Text
add_with_metric server_ip gateway =
    codes "ip route add " ++ server_ip ++ codes "/32 via " ++ gateway ++ codes " metric 0"

unfoldable pub add_half : Platform → Text → Text → Text
add_half Platform.linux half iface = codes "ip route add " ++ half ++ codes " dev " ++ iface
add_half Platform.macos half iface =
    codes "route -n add -net " ++ half ++ codes " -interface " ++ iface
add_half Platform.windows half iface = []

-- The catch-all routes through the device.
unfoldable pub add_halves : Platform → Text → List Text → List Text
unfolding add_half c_str
add_halves platform iface done =
    system (add_half platform high_half iface) (system (add_half platform low_half iface) done)

-- The route to the server on Linux, tried again with a metric.
unfoldable pub exclude_linux : Machine → Text → Text → List Text → List Text
unfolding add_exclusion add_with_metric c_str
exclude_linux m server_ip gateway done =
    let first = add_exclusion Platform.linux server_ip gateway in
    if succeeds m first done
    then system first done
    else system (add_with_metric server_ip gateway) (system first done)

unfoldable pub setup_routes : Machine → Text → Text → Text → List Text → List Text
unfolding exclude_linux add_halves add_exclusion c_str
setup_routes m iface server_ip gateway done =
    if is_empty server_ip || is_empty gateway then done else elim m.platform [
      | Platform.linux ↦ add_halves Platform.linux iface (exclude_linux m server_ip gateway done)
      | Platform.macos ↦
          let exclusion = add_exclusion Platform.macos server_ip gateway in
          if succeeds m exclusion done
          then add_halves Platform.macos iface (system exclusion done)
          else system exclusion done
      | Platform.windows ↦ done
    ]

unfoldable pub delete_half : Platform → Text → Text
delete_half Platform.linux half = codes "ip route del " ++ half ++ codes " 2>/dev/null || true"
delete_half Platform.macos half =
    codes "route -n delete -net " ++ half ++ codes " 2>/dev/null || true"
delete_half Platform.windows half = []

unfoldable pub delete_exclusion : Platform → Text → Text
delete_exclusion Platform.linux server_ip =
    codes "ip route del " ++ server_ip ++ codes "/32 2>/dev/null || true"
delete_exclusion Platform.macos server_ip =
    codes "route -n delete -host " ++ server_ip ++ codes " 2>/dev/null || true"
delete_exclusion Platform.windows server_ip = []

unfoldable pub delete_routes : Platform → Text → List Text → List Text
unfolding delete_half delete_exclusion c_str
delete_routes platform server_ip done =
    let halves =
      system (delete_half platform high_half) (system (delete_half platform low_half) done) in
    if is_empty server_ip then halves else system (delete_exclusion platform server_ip) halves

unfoldable pub teardown_routes : Machine → Bool → Text → List Text → List Text
unfolding delete_routes
teardown_routes m auto_route server_ip done =
    if auto_route
    then elim m.platform [
      | Platform.linux ↦ delete_routes Platform.linux server_ip done
      | Platform.macos ↦ delete_routes Platform.macos server_ip done
      | Platform.windows ↦ done
    ]
    else done

abbrev pub scutil_setup : Text → Text
scutil_setup dns_server =
    codes "printf 'd.init\\n"
    ++ codes "d.add ServerAddresses * "
    ++ dns_server
    ++ codes "\\n"
    ++ codes "d.add SupplementalMatchDomains * \\\"\\\"\\n"
    ++ codes "set State:/Network/Service/kirdi-vpn/DNS\\n"
    ++ codes "quit\\n' | scutil"

abbrev pub backup_resolv : Text
backup_resolv = codes "cp /etc/resolv.conf /etc/resolv.conf.kirdi-backup 2>/dev/null || true"

abbrev pub write_resolv : Text → Text
write_resolv dns_server = codes "echo 'nameserver " ++ dns_server ++ codes "' > /etc/resolv.conf"

unfoldable pub setup_dns : Machine → Text → List Text → List Text
unfolding c_str
setup_dns m dns_server done = if is_empty dns_server then done else elim m.platform [
  | Platform.linux ↦ system (write_resolv dns_server) (system backup_resolv done)
  | Platform.macos ↦ system (scutil_setup dns_server) done
  | Platform.windows ↦ done
]

abbrev pub scutil_teardown : Text
scutil_teardown = codes "printf 'remove State:/Network/Service/kirdi-vpn/DNS\\nquit\\n' | scutil"

abbrev pub restore_resolv : Text
restore_resolv =
    codes "[ -f /etc/resolv.conf.kirdi-backup ] && "
    ++ codes "mv /etc/resolv.conf.kirdi-backup /etc/resolv.conf 2>/dev/null || true"

unfoldable pub teardown_dns : Machine → Text → List Text → List Text
unfolding c_str
teardown_dns m dns_server done = if is_empty dns_server then done else elim m.platform [
  | Platform.linux ↦ system restore_resolv done
  | Platform.macos ↦ system scutil_teardown done
  | Platform.windows ↦ done
]
