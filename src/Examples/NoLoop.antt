-- ===== src/Examples/NoLoop.antt =====
-- An example of a client of src/client/client.cpp that adds routes on macOS.
use kirdi.Base.{◌≡◌, refl, true, Bytes, [], ◌∷◌, codes, same_bytes}
use kirdi.Client.{Client, new_client, run, connect_transport, read_again, configure_network}
use kirdi.Client.Invariant.{History, Step}
use kirdi.Client.Messages.{on_read, on_packet, on_auth_response, accept_response, open_tunnel}
use kirdi.Client.Messages.{read_tun_config}
use kirdi.Client.NoLoop.{History-IsGuarded}
use kirdi.Config.{ClientConfig, default_client_config}
use kirdi.Examples.{find, hmac, json, entries}
use kirdi.Examples.Network.{laptop, always, iface, server_ip, dns_server, table, table_empty}
use kirdi.Examples.Network.{laptop-RouteLaws, laptop_routed}
use kirdi.Json.{value}
use kirdi.Network.{low_half, high_half, resolve_host, get_default_gateway, setup_dns}
use kirdi.Network.Table.{server_route}
use kirdi.Protocol.{MsgType, deserialize_header, to_byte}
use kirdi.Protocol.Packet.{packet_bytes}
use kirdi.Session.{Outcome, returned}
use kirdi.Transport.{dispatch_packet}
use kirdi.Transport.ClientTransport.{connect, construct, do_resolve}

abbrev routed : ClientConfig
routed = record default_client_config { auto_route = true; dns_server = dns_server }

abbrev routing : Client
routing = run (new_client laptop routed)

-- The server accepts it, and says no more.
abbrev yes : Bytes
yes = json.object ((codes "ok", json.from_bool true) ∷ [])

abbrev answered : Outcome Client
answered = on_read json hmac true (packet_bytes MsgType.auth_response yes) routing

abbrev inside : Client
inside = elim answered [ returned c ↦ c | _ ↦ routing ]

reply_taken : answered ≡ returned inside
unfolding on_read on_packet on_auth_response accept_response open_tunnel read_tun_config read_again
    run new_client connect_transport value entries find dispatch_packet deserialize_header connect
    construct do_resolve same_bytes to_byte
reply_taken = refl

low_half_routed : table inside.commands low_half ≡ true
unfolding on_read on_packet on_auth_response accept_response open_tunnel read_tun_config read_again
    run new_client connect_transport value entries find dispatch_packet deserialize_header connect
    construct do_resolve same_bytes to_byte configure_network resolve_host get_default_gateway
    setup_dns
low_half_routed = laptop_routed

History-IsGuarded_example : table inside.commands (server_route server_ip) ≡ true
unfolding same_bytes resolve_host get_default_gateway
History-IsGuarded_example =
    History-IsGuarded laptop routed table always refl (λ devices. laptop-RouteLaws iface dns_server)
      ((λ done. refl), (λ done. refl)) json hmac low_half (table_empty low_half)
      (table_empty high_half)
      (History.followed (Step.received true (packet_bytes MsgType.auth_response yes) reply_taken)
        (History.ran History.begun))
      refl low_half_routed
