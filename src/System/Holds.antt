-- ===== src/System/Holds.antt =====
-- What a connection between the client and the server keeps: the packets in it come from the devices in
-- order.
use kirdi.Base.{ℕ, ◌≡◌, refl, ap, ◌∙◌, sym, Bool, Bytes, List, [], ◌∷◌, ◌++◌, Option, some, false}
use kirdi.Base.Maps.{lookup, lookup-insert_self}
use kirdi.Client.{Client}
use kirdi.Client.Kept.{connect_step-IsKept, run_posted-IsKept, on_read_failed-IsKept}
use kirdi.Client.Kept.{on_read-IsKept}
use kirdi.Client.Messages.{on_read}
use kirdi.Client.Outgoing.{post_in, outgoing, Follows, Follows-IsKept, on_write-Follows}
use kirdi.Client.Outgoing.{write_tun-Follows, on_read-given}
use kirdi.Inet.{Inet}
use kirdi.Json.{JsonLib}
use kirdi.Server.{Server, session_read, register_session}
use kirdi.Server.Outgoing.{IsAt, event-IsAt, accept-IsAt, shake-IsAt, run-IsAt, stop-IsAt}
use kirdi.Server.Outgoing.{read_other-IsAt, read-IsAt, session_read-given}
use kirdi.Session.{Link, Outcome, returned}
use kirdi.Session.Gate.{state_of}
use kirdi.System.{unused, Direction, ClientStep, ServerStep}
use kirdi.Transport.ClientTransport.{WsClientTransport}
use kirdi.Transport.Mail.{Post, Flows, IsOrdered, packets, packets-append, packet_in, read_next}
use kirdi.Transport.Mail.{Flows-IsOrdered, kept}
use mathlib.Core.List.{append-nil, append_cancel_left, Sublist}
use mathlib.Core.Path.{subst}
use mathlib.Core.List.Sublist
use kirdi.Session.Outgoing
use kirdi.Session
use kirdi.Transport.ServerSession

-- One direction: what was read comes from the post, and what was written from what was read.
pub record IsCarried (way : Direction) (p : Post) : Type 0 where
  pub ordered : IsOrdered way.read way.sent p
  pub among : Sublist way.written (packets way.read)

IsCarried-flow : (way : Direction) (p q : Post) → Flows [] p q → IsCarried way p → IsCarried way q
IsCarried-flow way p q f v = record {
  ordered =
      subst (λ sent. IsOrdered way.read sent q) (append-nil way.sent)
        (Flows-IsOrdered way.read way.sent [] p q f v.ordered);
  among = v.among;
}

pub IsCarried-sent :
    (way : Direction) (packet : Bytes) (p q : Post)
    → Flows (packet ∷ []) p q
    → IsCarried way p
    → IsCarried (record way { sent = way.sent ++ (packet ∷ []) }) q
IsCarried-sent way packet p q f v = record {
  ordered = Flows-IsOrdered way.read way.sent (packet ∷ []) p q f v.ordered;
  among = v.among;
}

IsCarried-read :
    (way : Direction) (buf : Bytes) (rest given : List Bytes) (p : Post)
    → p.wire ≡ way.read ++ (buf ∷ rest)
    → Sublist given (packet_in buf)
    → IsCarried way p
    → IsCarried (record way { read = way.read ++ (buf ∷ []); written = way.written ++ given }) p
IsCarried-read way buf rest given p e s v = record {
  ordered = read_next way.read rest way.sent buf p e v.ordered;
  among =
      rw (packets-append way.read (buf ∷ []), append-nil (packet_in buf))
        (Sublist.append v.among s);
}

-- Both directions, with the link of the session.
pub record Holds (sid : ℕ) (c : Client) (s : Server) (up down : Direction) : Type 0 where
  pub to_server : IsCarried up (outgoing c)
  pub link : Link
  pub found : lookup sid s.sessions ≡ some link
  pub flushed : link.passed ≡ []
  pub to_client : IsCarried down (Session.Outgoing.outgoing link)

module _ (inet : Inet) (j : JsonLib) (hmac : Bytes → Bytes → Option Bytes) (fuel sid : ℕ) where
  pub ClientStep-Flows :
      {c c' : Client} → ClientStep inet j hmac fuel sid c c' → Flows [] (outgoing c) (outgoing c')
  ClientStep-Flows {c} (ClientStep.advanced now failed named e) =
      subst (λ o. Follows j hmac (outgoing c) (state_of o)) e
        (connect_step-IsKept j hmac (Follows j hmac (outgoing c))
          (Follows-IsKept j hmac (outgoing c)) now failed named c (kept _ _))
  ClientStep-Flows {c} ClientStep.posted =
      run_posted-IsKept j hmac (Follows j hmac (outgoing c)) (Follows-IsKept j hmac (outgoing c)) c
        (kept _ _)
  ClientStep-Flows {c} (ClientStep.wrote w failed e h) = on_write-Follows j hmac failed w c e h
  ClientStep-Flows {c} ClientStep.cut =
      on_read_failed-IsKept j hmac (Follows j hmac (outgoing c))
        (Follows-IsKept j hmac (outgoing c)) c (kept _ _)
  ClientStep-Flows {c} ClientStep.reported =
      (Follows-IsKept j hmac (outgoing c)).failed c (kept _ _)
  ClientStep-Flows {c} ClientStep.halted = (Follows-IsKept j hmac (outgoing c)).stopped c (kept _ _)

  pub ServerStep-IsAt :
      {s s' : Server} (l : Link)
      → ServerStep inet j hmac fuel sid s s'
      → lookup sid s.sessions ≡ some l
      → l.passed ≡ []
      → IsAt [] sid (Session.Outgoing.outgoing l) s'
  ServerStep-IsAt {s} l (ServerStep.ran boot) found flushed = run-IsAt sid l s found flushed boot
  ServerStep-IsAt {s} l (ServerStep.accepted failed) found flushed =
      accept-IsAt sid l s found flushed inet failed
  ServerStep-IsAt {s} l (ServerStep.shook failed h n) found flushed =
      shake-IsAt sid l s found flushed inet failed h n
  ServerStep-IsAt {s} l (ServerStep.received now k buf n e) found flushed =
      subst (λ o. IsAt [] sid (Session.Outgoing.outgoing l) (state_of o)) e
        (read_other-IsAt sid l s found flushed j hmac fuel now buf k n)
  ServerStep-IsAt {s} l (ServerStep.transported event k may) found flushed =
      event-IsAt sid l s found flushed event k may
  ServerStep-IsAt {s} l ServerStep.halted found flushed = stop-IsAt sid l s found flushed

  pub Holds-server :
      {c : Client} {s : Server} {up down : Direction} (s' : Server)
      → (v : Holds sid c s up down) → IsAt [] sid (Session.Outgoing.outgoing v.link) s'
      → Holds sid c s' up down
  Holds-server {down = down} s' v a = record {
    to_server = v.to_server;
    link = a.link;
    found = a.found;
    flushed = a.flushed;
    to_client = IsCarried-flow down _ _ a.flows v.to_client;
  }

  pub Holds-client :
      {c : Client} {s : Server} {up down : Direction} (c' : Client)
      → Flows [] (outgoing c) (outgoing c')
      → Holds sid c s up down
      → Holds sid c' s up down
  Holds-client {up = up} c' f v = record {
    to_server = IsCarried-flow up _ _ f v.to_server;
    link = v.link;
    found = v.found;
    flushed = v.flushed;
    to_client = v.to_client;
  }

  pub opened-Holds :
      (c : Client) (w : WsClientTransport) (s : Server) (client_ip : List ℕ)
      → c.ws ≡ some w
      → w.wire ≡ []
      → w.write_queue ≡ []
      → w.in_flight ≡ false
      → Holds sid c (register_session inet sid client_ip s) unused unused
  unfolding register_session Session.start Session.new_session ServerSession.construct
      ServerSession.start ServerSession.on_packet ServerSession.do_read
  opened-Holds c w s client_ip e wire queue idle = record {
    to_server =
        subst (λ ws. IsCarried unused (post_in ws)) (sym e) (nothing_yet wire (simp (queue, idle)));
    link = _;
    found = lookup-insert_self sid sid _ s.sessions refl;
    flushed = refl;
    to_client = nothing_yet refl refl;
  }
    where
      nothing_yet : {p : Post} → p.wire ≡ [] → p.waiting ≡ [] → IsCarried unused p
      nothing_yet {p} none_written none_waits = record {
        ordered = record {
          rest = [];
          prefix = none_written;
          ordered = rw (none_written, none_waits) (Sublist.refl []);
        };
        among = Sublist.refl [];
      }

  pub client_read-Holds :
      {c : Client} {s : Server} {up down : Direction} (device_opens : Bool) (l : Link) (buf : Bytes)
      (rest given : List Bytes)
      → lookup sid s.sessions ≡ some l
      → l.ws.wire ≡ down.read ++ (buf ∷ rest)
      → (state_of (on_read j hmac device_opens buf c)).tun_written ≡ c.tun_written ++ given
      → Holds sid c s up down
      → Holds sid
          (state_of (on_read j hmac device_opens buf c))
          s
          up
          (record down { read = down.read ++ (buf ∷ []); written = down.written ++ given })
  client_read-Holds {c} {s} {up} {down} device_opens l buf rest given at wire gave v =
      let (ps, gave', among) = on_read-given j hmac device_opens buf c in
      let same : ps ≡ given = append_cancel_left c.tun_written ps given (sym gave' ∙ gave) in
      let link : l ≡ v.link = cc (v.found) in
      let v' =
        Holds-client (state_of (on_read j hmac device_opens buf c))
          (on_read-IsKept j hmac (Follows j hmac (outgoing c)) (Follows-IsKept j hmac (outgoing c))
            device_opens buf c (write_tun-Follows j hmac (outgoing c)) (kept _ _))
          v in
      record {
        to_server = v'.to_server;
        link = v.link;
        found = v.found;
        flushed = v.flushed;
        to_client =
            IsCarried-read down buf rest given _ (ap (λ x. x.ws.wire) (sym link) ∙ wire)
              (subst (λ x. Sublist x (packet_in buf)) same among) v.to_client;
      }

  pub server_read-Holds :
      {c : Client} {s : Server} {up down : Direction} (now : ℕ) (w : WsClientTransport)
      (buf : Bytes) (rest given : List Bytes)
      → c.ws ≡ some w
      → w.wire ≡ up.read ++ (buf ∷ rest)
      → (state_of (session_read j hmac fuel now sid buf s)).tun_written ≡ s.tun_written ++ given
      → Holds sid c s up down
      → Holds sid c
          (state_of (session_read j hmac fuel now sid buf s))
          (record up { read = up.read ++ (buf ∷ []); written = up.written ++ given })
          down
  server_read-Holds {c} {s} {up} {down} now w buf rest given e wire gave v =
      let (ps, gave', among) =
        session_read-given sid v.link s v.found v.flushed j hmac fuel now buf in
      let same : ps ≡ given = append_cancel_left s.tun_written ps given (sym gave' ∙ gave) in
      let v' = Holds-server _ v (read-IsAt sid v.link s v.found v.flushed j hmac fuel now buf) in
      record {
        to_server =
            IsCarried-read up buf rest given _ (ap (λ ws. (post_in ws).wire) e ∙ wire)
              (subst (λ x. Sublist x (packet_in buf)) same among) v.to_server;
        link = v'.link;
        found = v'.found;
        flushed = v'.flushed;
        to_client = v'.to_client;
      }
