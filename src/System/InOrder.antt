-- ===== src/System/InOrder.antt =====
-- What crosses one connection between the client and the server stays in order.
use kirdi.Base.{ℕ, ap, ◌∙◌, Bytes, [], ◌∷◌, ◌++◌, Option}
use kirdi.Client.{Client}
use kirdi.Client.Outgoing.{tun_round-Flows}
use kirdi.Inet.{Inet}
use kirdi.Json.{JsonLib}
use kirdi.Server.{Server}
use kirdi.Server.Outgoing.{poll-IsAt}
use kirdi.Session.{Outcome}
use kirdi.Session.Gate.{state_of}
use kirdi.System.{Direction, Life}
use kirdi.System.Holds.{Holds, IsCarried-sent, ClientStep-Flows, ServerStep-IsAt, Holds-client}
use kirdi.System.Holds.{Holds-server, opened-Holds, client_read-Holds, server_read-Holds}
use kirdi.Transport.Mail.{read-sent}
use mathlib.Core.List.{Sublist}
use mathlib.Core.Path.{subst}
use mathlib.Core.List.Sublist

module _ (inet : Inet) (j : JsonLib) (hmac : Bytes → Bytes → Option Bytes) (fuel sid : ℕ) where
  Life-Holds :
      {c : Client} {s : Server} {up down : Direction}
      → Life inet j hmac fuel sid c s up down
      → Holds sid c s up down
  Life-Holds (Life.opened c w s client_ip e wire queue idle) =
      opened-Holds inet j hmac fuel sid c w s client_ip e wire queue idle
  Life-Holds (Life.client_stepped {c' = c'} step r) =
      Holds-client inet j hmac fuel sid c' (ClientStep-Flows inet j hmac fuel sid step)
        (Life-Holds r)
  Life-Holds (Life.client_polled {c} {s = s} {up} {down} packet e r) =
      let v = Life-Holds r in
      subst (λ o. Holds sid (state_of o) s (record up { sent = up.sent ++ (packet ∷ []) }) down) e
        (record {
          to_server = IsCarried-sent up packet _ _ (tun_round-Flows j hmac packet c) v.to_server;
          link = v.link;
          found = v.found;
          flushed = v.flushed;
          to_client = v.to_client;
        })
  Life-Holds
        (Life.client_read {c} {c'} {s} {up} {down} device_opens l buf rest given at wire e gave r) =
      subst
        (λ o.
          Holds sid (state_of o) s up
            (record down { read = down.read ++ (buf ∷ []); written = down.written ++ given }))
        e
        (client_read-Holds inet j hmac fuel sid device_opens l buf rest given at wire
          (ap (λ (o : Outcome Client). (state_of o).tun_written) e ∙ gave) (Life-Holds r))
  Life-Holds (Life.server_stepped {s' = s'} step r) =
      let v = Life-Holds r in
      Holds-server inet j hmac fuel sid s' v
        (ServerStep-IsAt inet j hmac fuel sid v.link step v.found v.flushed)
  Life-Holds (Life.server_polled {c} {s} {up = up} {down} packet e r) =
      let v = Life-Holds r in
      let a = poll-IsAt sid v.link s v.found v.flushed inet.endian packet in
      subst (λ o. Holds sid c (state_of o) up (record down { sent = down.sent ++ (packet ∷ []) })) e
        (record {
          to_server = v.to_server;
          link = a.link;
          found = a.found;
          flushed = a.flushed;
          to_client = IsCarried-sent down packet _ _ a.flows v.to_client;
        })
  Life-Holds (Life.server_read {c} {s} {up = up} {down} now w buf rest given e wire h gave r) =
      subst
        (λ o.
          Holds sid c (state_of o)
            (record up { read = up.read ++ (buf ∷ []); written = up.written ++ given }) down)
        h
        (server_read-Holds inet j hmac fuel sid now w buf rest given e wire
          (ap (λ (o : Outcome Server). (state_of o).tun_written) h ∙ gave) (Life-Holds r))

  -- Over the life of a connection, whatever its client, other clients, the server, the executors
  -- and the stream do in between: the packets that the server's device is given for messages of the
  -- session are among those that the client's device yielded, in the same order, and the packets
  -- that the client's device is given are among those that the server's device yielded, in the same
  -- order. So none is altered, made up, doubled, or overtaken.
  pub Life-InOrder :
      {c : Client} {s : Server} {up down : Direction}
      → Life inet j hmac fuel sid c s up down
      → Sublist up.written up.sent × Sublist down.written down.sent
  Life-InOrder {c} {s} {up} {down} r =
      let v = Life-Holds r in
      (
        Sublist.trans v.to_server.among (read-sent up.read up.sent _ v.to_server.ordered),
        Sublist.trans v.to_client.among (read-sent down.read down.sent _ v.to_client.ordered),
      )
