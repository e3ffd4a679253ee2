-- ===== src/Examples/Delivery.antt =====
-- Examples for a burst of packets between src/client/client.cpp and src/server/server.cpp.
use kirdi.Base.{ap, ◌∙◌, ◌≡◌, refl, arith, true, Bytes, List, [], ◌∷◌, ◌++◌, some}
use kirdi.Base.Maps.{lookup}
use kirdi.Client.{Client, new_client, run_posted}
use kirdi.Config.{default_client_config}
use kirdi.Examples.{hmac, json, inet}
use kirdi.Examples.Network.{laptop}
use kirdi.Examples.Server.{admitted, server_admitted, ip_packet, admitted_found, admitted_open}
use kirdi.Examples.Server.{admitted-IsValid, ip_packet_dst}
use kirdi.Server.{Server, session_event, TransportEvent}
use kirdi.Session.{returned}
use kirdi.System.Download.{IsReady, IsFor, download}
use kirdi.System.Upload.{IsTunnelled, IsListening, Fits, upload}
use kirdi.Transport.ClientTransport.{WsClientTransport, construct}
use kirdi.Transport.ServerSession.{WsServerSession}
use kirdi.System.Upload
use kirdi.System.Download
use kirdi.Transport.ClientTransport.Burst as ClientBurst
use kirdi.Transport.ServerSession.Burst as SessionBurst
use kirdi.Transport.ServerSession

abbrev burst : List Bytes
burst = ip_packet ∷ (ip_packet ∷ [])

abbrev link : WsClientTransport
link = record construct { connected = true }

abbrev client : Client
client = record (new_client laptop default_client_config) {
  ws = some link;
  tun = some true;
  running = true;
}

client-IsTunnelled : IsTunnelled client link
client-IsTunnelled = record { running = refl; opened = refl; linked = refl; connected = refl }

link-IsIdle : ClientBurst.IsIdle link
unfolding construct
link-IsIdle = record {
  connected = refl;
  not_closing = refl;
  quiet = refl;
  drained = refl;
  landed = refl;
}

admitted-IsListening : IsListening 1 server_admitted
unfolding ServerSession.start ServerSession.on_packet
admitted-IsListening = record {
  link = admitted;
  found = admitted_found;
  authenticated = refl;
  has_ip_callback = refl;
  has_packet_callback = refl;
  flushed = refl;
  opened = admitted_open;
}

upload_example :
    (new : List Bytes) × (c' : Client) × (w' : WsClientTransport) × (s' : Server) × (Upload.polls
        burst client
      ≡ returned c')
    × ((Upload.writes 2 (run_posted c')).ws ≡ some w')
    × (w'.wire ≡ link.wire ++ new)
    × ClientBurst.IsIdle w'
    × (Upload.reads json hmac 62 0 1 new server_admitted ≡ returned s')
    × (s'.tun_written ≡ server_admitted.tun_written ++ burst)
unfolding kirdi.Protocol.zeros
upload_example =
    upload json hmac 62 0 1 burst client link server_admitted client-IsTunnelled link-IsIdle
      admitted-IsListening (omega arith)

admitted-IsReady : IsReady inet 1 admitted.ws server_admitted
admitted-IsReady = record {
  link = admitted;
  found = admitted_found;
  authenticated = refl;
  transport = refl;
}

admitted-IsIdle : SessionBurst.IsIdle admitted.ws
unfolding ServerSession.start ServerSession.on_packet ServerSession.construct
admitted-IsIdle = record { connected = refl; quiet = refl; drained = refl; landed = refl }

burst-IsFor : IsFor inet 1 server_admitted ip_packet
unfolding kirdi.Protocol.zeros
burst-IsFor = (
  omega arith,
  omega arith,
  ap (λ a. lookup a server_admitted.ip_to_session) ip_packet_dst
      ∙ admitted-IsValid.routed 1 admitted admitted_found,
)

download_example :
    (new : List Bytes) × (s' : Server) × (w' : WsServerSession) × (c' : Client) × (Download.polls
        inet 1 burst server_admitted
      ≡ returned s')
    × IsReady inet 1 w' (Download.writes 2 1 (session_event TransportEvent.task 1 s'))
    × (w'.wire ≡ admitted.ws.wire ++ new)
    × SessionBurst.IsIdle w'
    × (Download.reads json hmac new client ≡ returned c')
    × (c'.tun_written ≡ client.tun_written ++ burst)
download_example =
    download inet json hmac 1 burst admitted.ws server_admitted client admitted-IsReady
      admitted-IsIdle refl (burst-IsFor, (burst-IsFor, tt))
