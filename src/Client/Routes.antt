-- ===== src/Client/Routes.antt =====
-- The routing table around the tunnel of src/client/client.cpp.
use kirdi.Base.{◌≡◌, arith, true, false, Bytes, Text, Option, is_empty, ◌++◌, ◌∷◌, [], refl}
use kirdi.Client.{Client, stop, on_error, configure_network, restore_network}
use kirdi.Client.Messages.{open_tunnel}
use kirdi.Json.{JsonLib}
use kirdi.Network.{setup_routes, low_half, high_half}
use kirdi.Network.Table.{Table, Deletions, IsDeleted, RouteLaws, server_route, ours, teardown-setup}
use kirdi.Network.Table.{setup_dns-table, setup-guarded}
use kirdi.Tun.{TunConfig, Platform}

abbrev pub iface_of : TunConfig → Client → Text
iface_of t c = c.machine.interface_name (c.tun_opened ++ (t ∷ []))

-- The commands that a client has run around a tunnel leave a routing table with these laws.
abbrev pub HasTable : Table → Deletions → TunConfig → Client → Type 0
HasTable table deletes t c =
    RouteLaws c.machine table deletes (iface_of t c) c.server_ip c.original_gateway
      c.config.dns_server

module _ (j : JsonLib) (hmac : Bytes → Bytes → Option Bytes) where
  -- A running, connected client that configures routes and knows its server's address opens a tunnel,
  -- on Linux or macOS, with no route to either half of the address space or to the server before. If
  -- it is then stopped, or loses the connection, the routing table is for every destination as it
  -- was before, where the commands act on the table as `RouteLaws` says, and those that delete a
  -- route of the client to that destination, if it makes one, take effect; the others may fail.
  pub open_tunnel-undone :
      (table : Table) (deletes : Deletions) (t : TunConfig) (c : Client) (d : Text)
      → HasTable table deletes t c
      → c.running ≡ true
      → c.connected ≡ true
      → c.config.auto_route ≡ true
      → is_empty c.server_ip ≡ false
      → table c.commands low_half ≡ false
      → table c.commands high_half ≡ false
      → table c.commands (server_route c.server_ip) ≡ false
      → IsDeleted c.machine.platform deletes c.server_ip d
      → (table (stop (open_tunnel j hmac true t c)).commands d ≡ table c.commands d)
        × (table (on_error (open_tunnel j hmac true t c)).commands d ≡ table c.commands d)
  unfolding open_tunnel stop on_error configure_network restore_network
  open_tunnel-undone table deletes t c d laws up on auto named no_low no_high no_server gone =
      let undone =
        teardown-setup c.machine table deletes (iface_of t c) c.server_ip c.original_gateway
          c.config.dns_server laws c.commands d named no_low no_high no_server gone in
      (ground (arith, undone), ground (arith, undone))

  -- On macOS a client that configures routes opens a tunnel. If a route to a half of the address
  -- space, or to the server, is there afterwards and was not before, there is a route to the server.
  pub open_tunnel-guarded :
      (table : Table) (deletes : Deletions) (t : TunConfig) (c : Client) (d : Text)
      → HasTable table deletes t c
      → c.machine.platform ≡ Platform.macos
      → c.config.auto_route ≡ true
      → ours c.server_ip d ≡ true
      → table c.commands d ≡ false
      → table (open_tunnel j hmac true t c).commands d ≡ true
      → table (open_tunnel j hmac true t c).commands (server_route c.server_ip) ≡ true
  unfolding open_tunnel configure_network
  open_tunnel-guarded table deletes t c d laws macos auto mine absent here =
      let iface = iface_of t c in
      let m = c.machine in
      let routed = setup_routes m iface c.server_ip c.original_gateway c.commands in
      let dns =
        setup_dns-table m table deletes iface c.server_ip c.original_gateway c.config.dns_server
          laws in
      let guarded =
        setup-guarded m table deletes iface c.server_ip c.original_gateway c.config.dns_server laws
          c.commands d macos mine absent in
      ground (
        arith,
        auto,
        here,
        dns m.platform routed d refl,
        dns m.platform routed (server_route c.server_ip) refl,
        guarded,
      )
