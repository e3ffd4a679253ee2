-- ===== src/Network/Table.antt =====
-- The routing table behind the commands of src/client/client.cpp, by destinations.
use kirdi.Base.{◌≡◌, ◌≢◌, refl, arith, Bool, true, false, ◌&&◌, ◌||◌, not, Text, is_empty, List}
use kirdi.Base.{codes, ◌++◌, same_bytes, same_bytes→eq, same_bytes_refl, Bool-cases, inl, inr}
use kirdi.Network.{Machine, system, succeeds, setup_routes, setup_dns, teardown_routes}
use kirdi.Network.{teardown_dns, add_exclusion, add_half, add_with_metric, delete_half}
use kirdi.Network.{delete_exclusion, low_half, high_half, scutil_setup, scutil_teardown}
use kirdi.Network.{backup_resolv, write_resolv, restore_resolv, add_halves, exclude_linux}
use kirdi.Network.{delete_routes}
use kirdi.Tun.{Platform}

-- Whether there is a route to a destination, after commands.
abbrev pub Table : Type 0
Table = List Text → Text → Bool

-- What `ip route` and `route` are documented to do. A command that adds a route adds it if it
-- succeeds; one that deletes a route leaves none to its destination if it takes effect, which its exit
-- code does not tell; another leaves the table alone.
abbrev pub Adds : Machine → Table → Text → Text → Type 0
Adds m table command destination =
    (done : List Text) (d : Text)
    → table (system command done) d
      ≡ (table done d || (succeeds m command done && same_bytes d destination))

-- Whether a command that deletes a route takes effect, after the commands that were run before.
abbrev pub Deletions : Type 0
Deletions = List Text → Text → Bool

abbrev pub Deletes : Table → Deletions → Text → Text → Type 0
Deletes table deletes command destination =
    (done : List Text) (d : Text)
    → table (system command done) d
      ≡ (table done d && not (deletes done command && same_bytes d destination))

abbrev pub Leaves : Table → Text → Type 0
Leaves table command = (done : List Text) (d : Text) → table (system command done) d ≡ table done d

abbrev pub server_route : Text → Text
server_route server_ip = server_ip ++ codes "/32"

pub record RouteLaws (m : Machine) (table : Table) (deletes : Deletions)
    (iface server_ip gateway dns_server : Text) : Type 0 where
  pub known : m.platform ≢ Platform.windows
  pub exclusion : Adds m table (add_exclusion m.platform server_ip gateway) (server_route server_ip)
  pub with_metric : Adds m table (add_with_metric server_ip gateway) (server_route server_ip)
  pub low : Adds m table (add_half m.platform low_half iface) low_half
  pub high : Adds m table (add_half m.platform high_half iface) high_half
  pub no_exclusion :
      Deletes table deletes (delete_exclusion m.platform server_ip) (server_route server_ip)
  pub no_low : Deletes table deletes (delete_half m.platform low_half) low_half
  pub no_high : Deletes table deletes (delete_half m.platform high_half) high_half
  pub scutil : Leaves table (scutil_setup dns_server)
  pub no_scutil : Leaves table scutil_teardown
  pub backup : Leaves table backup_resolv
  pub resolv : Leaves table (write_resolv dns_server)
  pub restored : Leaves table restore_resolv

-- The three destinations that the client makes routes to.
abbrev pub ours : Text → Text → Bool
ours server_ip d =
    same_bytes d low_half || same_bytes d high_half || same_bytes d (server_route server_ip)

-- The commands that delete the client's route to a destination, if it makes one, take effect.
pub record IsDeleted (platform : Platform) (deletes : Deletions) (server_ip d : Text) : Type 0 where
  pub low :
      (done : List Text)
      → same_bytes d low_half ≡ true
      → deletes done (delete_half platform low_half) ≡ true
  pub high :
      (done : List Text)
      → same_bytes d high_half ≡ true
      → deletes done (delete_half platform high_half) ≡ true
  pub exclusion :
      (done : List Text)
      → same_bytes d (server_route server_ip) ≡ true
      → deletes done (delete_exclusion platform server_ip) ≡ true

module _ (m : Machine) (table : Table) (deletes : Deletions)
    (iface server_ip gateway dns_server : Text)
    (laws : RouteLaws m table deletes iface server_ip gateway dns_server) where
  pub setup_dns-table :
      (platform : Platform) (done : List Text) (d : Text)
      → m.platform ≡ platform
      → table (setup_dns m dns_server done) d ≡ table done d
  unfolding setup_dns
  setup_dns-table Platform.linux done d e =
      ground (arith, e, laws.backup done d, laws.resolv (system backup_resolv done) d)
  setup_dns-table Platform.macos done d e = ground (arith, e, laws.scutil done d)
  setup_dns-table Platform.windows done d e = ground (arith, e)

  add_halves-table :
      (done : List Text) (d : Text)
      → ours server_ip d ≡ false
      → table (add_halves m.platform iface done) d ≡ table done d
  unfolding add_halves
  add_halves-table done d other =
      ground
        (arith, laws.low done d, laws.high (system (add_half m.platform low_half iface) done) d)

  exclude_linux-others :
      (done : List Text) (d : Text)
      → m.platform ≡ Platform.linux
      → ours server_ip d ≡ false
      → table (exclude_linux m server_ip gateway done) d ≡ table done d
  unfolding exclude_linux
  exclude_linux-others done d e other =
      let first = add_exclusion Platform.linux server_ip gateway in
      ground (arith, e, laws.exclusion done d, laws.with_metric (system first done) d)

  setup_routes-others :
      (platform : Platform) (done : List Text) (d : Text)
      → m.platform ≡ platform
      → ours server_ip d ≡ false
      → table (setup_routes m iface server_ip gateway done) d ≡ table done d
  unfolding setup_routes
  setup_routes-others Platform.linux done d e other = ground (
    arith,
    e,
    exclude_linux-others done d e other,
    add_halves-table (exclude_linux m server_ip gateway done) d other,
  )
  setup_routes-others Platform.macos done d e other =
      let exclusion = add_exclusion Platform.macos server_ip gateway in
      ground (arith, e, laws.exclusion done d, add_halves-table (system exclusion done) d other)
  setup_routes-others Platform.windows done d e other = ground (arith, e)

  delete_routes-table :
      (done : List Text) (d : Text)
      → is_empty server_ip ≡ false
      → IsDeleted m.platform deletes server_ip d
      → table (delete_routes m.platform server_ip done) d ≡ (table done d && not (ours server_ip d))
  unfolding delete_routes
  delete_routes-table done d named gone =
      let low = system (delete_half m.platform low_half) done in
      let high = system (delete_half m.platform high_half) low in
      ground (
        arith,
        laws.no_low done d,
        laws.no_high low d,
        laws.no_exclusion high d,
        gone.low done,
        gone.high low,
        gone.exclusion high,
      )

  teardown_routes-table :
      (platform : Platform) (done : List Text) (d : Text)
      → m.platform ≡ platform
      → is_empty server_ip ≡ false
      → IsDeleted m.platform deletes server_ip d
      → table (teardown_routes m true server_ip done) d ≡ (table done d && not (ours server_ip d))
  unfolding teardown_routes
  teardown_routes-table Platform.linux done d e named gone =
      ground (arith, e, delete_routes-table done d named gone)
  teardown_routes-table Platform.macos done d e named gone =
      ground (arith, e, delete_routes-table done d named gone)
  teardown_routes-table Platform.windows done d e named gone = absurd (laws.known e)

  pub teardown_dns-table :
      (platform : Platform) (done : List Text) (d : Text)
      → m.platform ≡ platform
      → table (teardown_dns m dns_server done) d ≡ table done d
  unfolding teardown_dns
  teardown_dns-table Platform.linux done d e = ground (arith, e, laws.restored done d)
  teardown_dns-table Platform.macos done d e = ground (arith, e, laws.no_scutil done d)
  teardown_dns-table Platform.windows done d e = ground (arith, e)

  ours_absent :
      (d : Text) (t : Text → Bool)
      → t low_half ≡ false
      → t high_half ≡ false
      → t (server_route server_ip) ≡ false
      → ours server_ip d ≡ true
      → t d ≡ false
  ours_absent d t no_low no_high no_server mine = elim (Bool-cases (same_bytes d low_half)) [
    | inl e ↦ rw (same_bytes→eq d low_half e) no_low
    | inr n1 ↦ elim (Bool-cases (same_bytes d high_half)) [
      | inl e ↦ rw (same_bytes→eq d high_half e) no_high
      | inr n2 ↦ rw (same_bytes→eq d (server_route server_ip) (ground arith)) no_server
    ]
  ]

  pub add_halves-keeps :
      (done : List Text) (d : Text)
      → table done d ≡ true
      → table (add_halves m.platform iface done) d ≡ true
  unfolding add_halves
  add_halves-keeps done d here =
      ground
        (arith, laws.low done d, laws.high (system (add_half m.platform low_half iface) done) d)

  -- What the client does to the routing table it undoes, where its deletions take effect.
  pub teardown-setup :
      (done : List Text) (d : Text)
      → is_empty server_ip ≡ false
      → table done low_half ≡ false
      → table done high_half ≡ false
      → table done (server_route server_ip) ≡ false
      → IsDeleted m.platform deletes server_ip d
      → table
          (teardown_routes m true server_ip (
            teardown_dns m dns_server
              (setup_dns m dns_server (setup_routes m iface server_ip gateway done))))
          d
        ≡ table done d
  teardown-setup done d named no_low no_high no_server gone =
      let routed = setup_routes m iface server_ip gateway done in
      let up = setup_dns m dns_server routed in
      let down = teardown_dns m dns_server up in
      let undone = teardown_routes-table m.platform down d refl named gone in
      let same = teardown_dns-table m.platform up d refl in
      let same' = setup_dns-table m.platform routed d refl in
      elim (Bool-cases (ours server_ip d)) [
        | inl mine ↦
            ground (arith, undone, mine, ours_absent d (table done) no_low no_high no_server mine)
        | inr other ↦
            ground
              (arith, undone, other, same, same', setup_routes-others m.platform done d refl other)
      ]

  -- On macOS none of the three routes appears without the one to the server.
  pub setup-guarded :
      (done : List Text) (d : Text)
      → m.platform ≡ Platform.macos
      → ours server_ip d ≡ true
      → table done d ≡ false
      → table (setup_routes m iface server_ip gateway done) d ≡ true
      → table (setup_routes m iface server_ip gateway done) (server_route server_ip) ≡ true
  unfolding setup_routes
  setup-guarded done d e mine absent here =
      let exclusion = add_exclusion Platform.macos server_ip gateway in
      let server = server_route server_ip in
      ground (
        arith,
        e,
        laws.exclusion done d,
        laws.exclusion done server,
        same_bytes_refl server,
        add_halves-keeps (system exclusion done) server,
      )
