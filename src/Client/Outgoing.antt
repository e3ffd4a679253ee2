-- ===== src/Client/Outgoing.antt =====
-- The IP packets between the transport and the device of src/client/client.cpp.
use kirdi.Base.{◌≡◌, refl, ◌∙◌, arith, sym, Bool, true, false, Bytes, List, [], ◌∷◌, ◌++◌, Option}
use kirdi.Base.{some, none, Option-cases, Bool-cases, inl, inr, ok, Result-cases, ℕ, ◌&&◌, not}
use kirdi.Base.{is_empty}
use kirdi.Client.{Client, on_error, stop, send, tun_round, write_tun, on_write, called_back}
use kirdi.Client.{ws_is_connected, tun_is_open, read_again}
use kirdi.Client.Kept.{IsKept, Touches, on_auth_response-IsKept, keepalive-IsKept}
use kirdi.Client.Messages.{open_tunnel, on_read, on_packet}
use kirdi.Json.{JsonLib}
use kirdi.Protocol.{MsgType, build_ip_packet}
use kirdi.Server.Device.{TunPoll}
use kirdi.Session.{Outcome, returned, escaped, endless}
use kirdi.Session.Gate.{state_of}
use kirdi.Transport.{dispatch_packet}
use kirdi.Transport.ClientTransport.{WsClientTransport}
use kirdi.Transport.ClientTransport.Posting.{post_of, send-Flows, advance-Flows, read_failed-Flows}
use kirdi.Transport.ClientTransport.Posting.{run_posted-Flows, do_read-Flows, on_write-Flows}
use kirdi.Transport.ClientTransport.Posting.{close-Flows}
use kirdi.Transport.Mail.{Post, Flows, packet_in, packet_of, Flows-trans, kept, refused}
use kirdi.Transport.Mail.{packet_in-build_packet, packet_in-build_ip_packet}
use kirdi.Tun.{TunConfig}
use mathlib.Core.List.{append-nil, Sublist, nil-sublist}
use mathlib.Core.Path.{subst}
use mathlib.Core.List.Sublist
use kirdi.Transport.ClientTransport

abbrev pub post_in : Option WsClientTransport → Post
post_in none = record { wire = []; waiting = [] }
post_in (some w) = post_of w

-- What the client's transport has written, and what waits in it.
abbrev pub outgoing : Client → Post
outgoing c = post_in c.ws

kept_all : (p : Post) → Flows [] p p
kept_all p = kept p.wire p.waiting

Touches-Flows : {w w' : WsClientTransport} → Touches w w' → Flows [] (post_of w) (post_of w')
Touches-Flows {w} (Touches.sent type payload pkt t other e) =
    subst (λ new. Flows new (post_of w) (post_of (ClientTransport.send pkt w)))
      (packet_in-build_packet type payload pkt t other e) (send-Flows pkt w)
Touches-Flows {w} (Touches.advanced failed named) = advance-Flows failed named w
Touches-Flows {w} Touches.cut = read_failed-Flows w
Touches-Flows {w} Touches.posted = run_posted-Flows w
Touches-Flows {w} Touches.read = do_read-Flows w

on_error-ws : (c : Client) → (on_error c).ws ≡ c.ws
unfolding on_error
on_error-ws c = ground arith

stop-Flows : (c : Client) → Flows [] (outgoing c) (outgoing (stop c))
unfolding stop
stop-Flows c = elim (Bool-cases c.running) [
  | inr down ↦ simp down (kept_all (outgoing c))
  | inl up ↦ elim (Option-cases c.ws) [
    | inl e ↦ simp (up, e) (kept_all _)
    | inr (w, e) ↦ simp (up, e) (close-Flows w)
  ]
]

module _ (j : JsonLib) (hmac : Bytes → Bytes → Option Bytes) where
  -- The packets in the transport and on its wire are among those of an earlier time, in order.
  abbrev pub Follows : Post → Client → Type 0
  Follows p c = Flows [] p (outgoing c)

  pub Follows-IsKept : (p : Post) → IsKept j hmac (Follows p)
  unfolding open_tunnel
  Follows-IsKept p = record {
    linked = λ w w' c e t f. Flows-trans [] [] p (outgoing c) _ f (rw e (Touches-Flows t));
    failed = λ c f. rw (on_error-ws c) f;
    stopped = stopped;
    joined = λ c f. f;
    addressed = λ ip c f. f;
    tunnelled = tunnelled;
  }
    where
      stopped : (c : Client) → Follows p c → Follows p (stop c)
      stopped c f = Flows-trans [] [] p (outgoing c) _ f (stop-Flows c)

      tunnelled :
          (opened : Bool) (t : TunConfig) (c : Client)
          → Follows p c
          → Follows p (open_tunnel j hmac opened t c)
      tunnelled true t c f = f
      tunnelled false t c f = stopped (record c { tun = some false }) f

  send-outgoing :
      (packet pkt : Bytes) (c : Client)
      → build_ip_packet packet ≡ ok pkt
      → Flows (packet ∷ []) (outgoing c) (outgoing (send pkt c))
  unfolding send
  send-outgoing packet pkt c e = elim (Option-cases c.ws) [
    | inl f ↦ rw (f, send) (rw f (refused (packet ∷ []) [] []))
    | inr (w, f) ↦
        rw (f, send)
          (subst (λ new. Flows new (post_of w) (post_of (ClientTransport.send pkt w)))
            (packet_in-build_ip_packet packet pkt e) (send-Flows pkt w))
  ]

  -- A packet from the device goes behind those that wait, or is not taken.
  pub tun_round-Flows :
      (packet : Bytes) (c : Client)
      → Flows
          (packet ∷ [])
          (outgoing c)
          (outgoing (state_of (tun_round (TunPoll.readable packet) c)))
  unfolding tun_round
  tun_round-Flows packet c =
      elim (Bool-cases (c.running && tun_is_open c && not (is_empty packet))) [
        | inr off ↦ rw off (refused (packet ∷ []) _ _)
        | inl on ↦ elim (Result-cases (build_ip_packet packet)) [
          | inr (x, e) ↦ rw on (rw (e, tun_round) (refused (packet ∷ []) _ _))
          | inl (pkt, e) ↦ rw on (
              rw (e, tun_round)
                (elim (Bool-cases (ws_is_connected c)) [
                  | inr down ↦ rw down (refused (packet ∷ []) _ _)
                  | inl up ↦ rw up (send-outgoing packet pkt c e)
                ]))
        ]
      ]

  pub on_write-Follows :
      (failed : Bool) (w : WsClientTransport) (c : Client)
      → c.ws ≡ some w
      → w.in_flight ≡ true
      → Follows (outgoing c) (on_write failed c)
  unfolding on_write
  on_write-Follows failed w c e h =
      rw (e, on_write) (back (ClientTransport.on_write failed w) (on_write-Flows failed w h))
    where
      back :
          (r : WsClientTransport × Bool)
          → Flows [] (post_of w) (post_of r.0)
          → Flows [] (post_of w) (outgoing (called_back r c))
      back (w', true) f = unfold called_back in rw (on_error-ws (record c { ws = some w' })) f
      back (w', false) f = unfold called_back in f

  pub write_tun-Follows :
      (p : Post) (packet : Bytes) (c : Client) → Follows p c → Follows p (write_tun packet c)
  unfolding write_tun
  write_tun-Follows p packet c f = elim (Bool-cases (tun_is_open c)) [
    | inl e ↦ rw e f
    | inr e ↦ rw e f
  ]

  -- What a handler has given to the device besides.
  abbrev Gave : List Bytes → Client → Client → Type 0
  Gave given c c' = c'.tun_written ≡ c.tun_written ++ given

  Gave-IsKept : (c : Client) → IsKept j hmac (Gave [] c)
  unfolding on_error stop open_tunnel
  Gave-IsKept c = record {
    linked = λ w w' d e t g. g;
    failed = λ d g. ground arith;
    stopped = stopped;
    joined = λ d g. g;
    addressed = λ ip d g. g;
    tunnelled = tunnelled;
  }
    where
      stopped : (d : Client) → Gave [] c d → Gave [] c (stop d)
      stopped d g = ground arith

      tunnelled :
          (opened : Bool) (t : TunConfig) (d : Client)
          → Gave [] c d
          → Gave [] c (open_tunnel j hmac opened t d)
      tunnelled true t d g = g
      tunnelled false t d g = stopped (record d { tun = some false }) g

  read_again-written :
      (r : Outcome Client) → (state_of (read_again r)).tun_written ≡ (state_of r).tun_written
  unfolding read_again
  read_again-written (returned c) = ground arith
  read_again-written (escaped e c) = refl
  read_again-written (endless c) = refl

  on_packet-given :
      (opened : Bool) (type : MsgType) (size : ℕ) (payload : Bytes) (c : Client)
      → (given : List Bytes) × Gave given c
          (state_of (on_packet j hmac opened (record { type = type; length = size }) payload c))
        × Sublist given (packet_of type payload)
  unfolding on_packet write_tun
  on_packet-given opened MsgType.auth_response size payload c = (
    [],
    on_auth_response-IsKept j hmac (Gave [] c) (Gave-IsKept c) opened payload c
        (sym (append-nil c.tun_written)),
    Sublist.refl [],
  )
  on_packet-given opened MsgType.ip_packet size payload c = elim (Bool-cases (tun_is_open c)) [
    | inl e ↦ rw e (payload ∷ [], refl, Sublist.refl (payload ∷ []))
    | inr e ↦ rw e ([], sym (append-nil c.tun_written), nil-sublist (payload ∷ []))
  ]
  on_packet-given opened MsgType.keepalive size payload c = (
    [],
    ground (
      arith,
      keepalive-IsKept j hmac (Gave [] c) (Gave-IsKept c) c (sym (append-nil c.tun_written)),
      append-nil c.tun_written,
    ),
    Sublist.refl [],
  )
  on_packet-given opened _ size payload c = ([], sym (append-nil c.tun_written), Sublist.refl [])

  -- The device is given the packet of the message, or nothing.
  pub on_read-given :
      (opened : Bool) (buf : Bytes) (c : Client)
      → (given : List Bytes) × ((state_of (on_read j hmac opened buf c)).tun_written
          ≡ c.tun_written ++ given)
        × Sublist given (packet_in buf)
  unfolding on_read
  on_read-given opened buf c = elim (Option-cases (dispatch_packet true buf)) [
    | inl e ↦
        rw (e, on_read, packet_in)
          ([], read_again-written (returned c) ∙ sym (append-nil c.tun_written), Sublist.refl [])
    | inr ((hdr, payload), e) ↦
        let (given, g, s) = on_packet-given opened hdr.type hdr.length payload c in
        rw (e, on_read, packet_in)
          (given, read_again-written (on_packet j hmac opened hdr payload c) ∙ g, s)
  ]
