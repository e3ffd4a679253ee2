-- ===== src/Client/Dns.antt =====
-- The resolver's file around the tunnels of src/client/client.cpp on Linux.
use kirdi.Base.{◌≡◌, arith, true, false, Bytes, Text, Option, some, is_empty, ◌++◌, ◌∷◌, []}
use kirdi.Client.{Client, stop, configure_network, restore_network}
use kirdi.Client.Messages.{open_tunnel}
use kirdi.Json.{JsonLib}
use kirdi.Network.Resolv.{Files, ResolvLaws, resolv_conf, backup_file, nameserver, setup-files}
use kirdi.Network.Resolv.{teardown-files}
use kirdi.Tun.{TunConfig, Platform}

module _ (j : JsonLib) (hmac : Bytes → Bytes → Option Bytes) where
  opened-files :
      (files : Files) (t : TunConfig) (c : Client) (content : Text)
      → ResolvLaws files c.server_ip c.original_gateway c.config.dns_server
      → c.machine.platform ≡ Platform.linux
      → c.config.auto_route ≡ true
      → is_empty c.config.dns_server ≡ false
      → files c.commands resolv_conf ≡ some content
      → let after = (open_tunnel j hmac true t c).commands in
        (files after resolv_conf ≡ some (nameserver c.config.dns_server))
        × (files after backup_file ≡ some content)
  unfolding open_tunnel configure_network
  opened-files files t c content laws linux auto named there =
      let iface = c.machine.interface_name (c.tun_opened ++ (t ∷ [])) in
      ground (
        arith,
        auto,
        setup-files files c.server_ip c.original_gateway c.config.dns_server laws c.machine iface
            c.commands content linux named there,
      )

  stopped-files :
      (files : Files) (c : Client) (content : Text)
      → ResolvLaws files c.server_ip c.original_gateway c.config.dns_server
      → c.machine.platform ≡ Platform.linux
      → c.running ≡ true
      → is_empty c.config.dns_server ≡ false
      → files c.commands backup_file ≡ some content
      → files (stop c).commands resolv_conf ≡ some content
  unfolding stop restore_network
  stopped-files files c content laws linux up named saved = ground (
    arith,
    up,
    teardown-files files c.server_ip c.original_gateway c.config.dns_server laws c.machine
        c.config.auto_route c.commands content linux named saved,
  )

  -- A running client on Linux that configures routes and a DNS server opens a tunnel, where
  -- /etc/resolv.conf is there and the commands about it succeed. If it is then stopped, the file is
  -- as it was. If a second response of the server makes it open another tunnel before it is stopped,
  -- the file is left with the line of the tunnel instead.
  pub open_tunnel-resolv_conf :
      (files : Files) (t t' : TunConfig) (c : Client) (original : Text)
      → ResolvLaws files c.server_ip c.original_gateway c.config.dns_server
      → c.machine.platform ≡ Platform.linux
      → c.running ≡ true
      → c.config.auto_route ≡ true
      → is_empty c.config.dns_server ≡ false
      → files c.commands resolv_conf ≡ some original
      → let once = open_tunnel j hmac true t c in
        (files (stop once).commands resolv_conf ≡ some original)
        × (files (stop (open_tunnel j hmac true t' once)).commands resolv_conf
            ≡ some (nameserver c.config.dns_server))
  unfolding open_tunnel
  open_tunnel-resolv_conf files t t' c original laws linux up auto named there =
      let once = open_tunnel j hmac true t c in
      let first = opened-files files t c original laws linux auto named there in
      let second =
        opened-files files t' once (nameserver c.config.dns_server) laws linux auto named first.0 in
      (
        stopped-files files once original laws linux up named first.1,
        stopped-files files (open_tunnel j hmac true t' once) (nameserver c.config.dns_server) laws
            linux up named second.1,
      )
