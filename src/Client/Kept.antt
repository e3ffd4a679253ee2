-- ===== src/Client/Kept.antt =====
-- What the handlers of src/client/client.cpp that do not connect again are made of, and what they
-- keep.
use kirdi.Base.{ℕ, ◌≡◌, arith, true, false, Bool, Bool-cases, Bytes, Text, codes, some, Option}
use kirdi.Base.{Option-cases, inl, inr, ok, Result-cases, ◌≢◌, []}
use kirdi.Client.{Client, stop, on_error, on_read_failed, run_posted, read_again, called_back}
use kirdi.Client.{send_built, send, write_tun}
use kirdi.Client.Messages.{on_read, connect_step, on_packet, on_connected, send_auth}
use kirdi.Client.Messages.{on_auth_response, accept_response, open_tunnel, read_tun_config}
use kirdi.Client.Messages.{auth_request}
use kirdi.Json.{value, JsonLib}
use kirdi.Protocol.{MsgType, build_keepalive, build_packet}
use kirdi.Protocol.Header.{IsMsgType}
use kirdi.Session.{escaped, endless, Outcome, returned}
use kirdi.Session.Gate.{state_of}
use kirdi.Transport.{dispatch_packet}
use kirdi.Transport.ClientTransport.{WsClientTransport}
use kirdi.Tun.{TunConfig}
use kirdi.Transport.ClientTransport

-- What the handlers of a client, but for the device's and those that connect, do to its transport.
pub data Touches (w : WsClientTransport) : WsClientTransport → Type 0 where
  sent :
      (type : MsgType) (payload pkt : Bytes)
      → IsMsgType type
      → type ≢ MsgType.ip_packet
      → build_packet type payload ≡ ok pkt
      → Touches w (ClientTransport.send pkt w)
  advanced : (failed named : Bool) → Touches w (ClientTransport.advance failed named w).0
  cut : Touches w (ClientTransport.read_failed w).0
  posted : Touches w (ClientTransport.run_posted w)
  read : Touches w (ClientTransport.do_read w)

-- A property of clients that nothing breaks which these handlers are made of.
pub record IsKept (j : JsonLib) (hmac : Bytes → Bytes → Option Bytes) (P : Client → Type 0)
    : Type 0 where
  pub linked :
      (w w' : WsClientTransport) (c : Client)
      → c.ws ≡ some w
      → Touches w w'
      → P c
      → P (record c { ws = some w' })
  pub failed : (c : Client) → P c → P (on_error c)
  pub stopped : (c : Client) → P c → P (stop c)
  pub joined : (c : Client) → P c → P (record c { connected = true; reconnect_attempt = 0 })
  pub addressed : (ip : Text) (c : Client) → P c → P (record c { virtual_ip = ip })
  pub tunnelled :
      (opened : Bool) (t : TunConfig) (c : Client) → P c → P (open_tunnel j hmac opened t c)

module _ (j : JsonLib) (hmac : Bytes → Bytes → Option Bytes) (P : Client → Type 0)
    (kept : IsKept j hmac P) where
  called_back-IsKept :
      (w : WsClientTransport) (r : WsClientTransport × Bool) (c : Client)
      → c.ws ≡ some w
      → Touches w r.0
      → P c
      → P (called_back r c)
  unfolding called_back
  called_back-IsKept w (w', true) c e t p = kept.failed _ (kept.linked w w' c e t p)
  called_back-IsKept w (w', false) c e t p = kept.linked w w' c e t p

  send_built-IsKept :
      (type : MsgType) (payload : Bytes) (c : Client)
      → IsMsgType type
      → type ≢ MsgType.ip_packet
      → P c
      → P (state_of (send_built (build_packet type payload) c))
  unfolding send_built send
  send_built-IsKept type payload c t other p = elim (Result-cases (build_packet type payload)) [
    | inr (x, e) ↦ rw (e, send_built) p
    | inl (pkt, e) ↦ elim (Option-cases c.ws) [
      | inl none_yet ↦ rw (e, send_built) (rw (none_yet, send) p)
      | inr (w, found) ↦
          rw (e, send_built)
            (rw (found, send) (kept.linked w _ c found (sent type payload pkt t other e) p))
    ]
  ]

  pub on_read_failed-IsKept : (c : Client) → P c → P (on_read_failed c)
  unfolding on_read_failed
  on_read_failed-IsKept c p = elim (Option-cases c.ws) [
    | inl e ↦ rw (e, on_read_failed) p
    | inr (w, e) ↦
        rw (e, on_read_failed) (called_back-IsKept w (ClientTransport.read_failed w) c e cut p)
  ]

  pub run_posted-IsKept : (c : Client) → P c → P (run_posted c)
  unfolding run_posted
  run_posted-IsKept c p = elim (Option-cases c.ws) [
    | inl e ↦ rw (e, run_posted) p
    | inr (w, e) ↦ rw (e, run_posted) (kept.linked w _ c e posted p)
  ]

  pub read_again-IsKept : (r : Outcome Client) → P (state_of r) → P (state_of (read_again r))
  unfolding read_again
  read_again-IsKept (returned c) p = elim (Option-cases c.ws) [
    | inl e ↦ rw (e, read_again) p
    | inr (w, e) ↦ rw (e, read_again) (kept.linked w _ c e read p)
  ]
  read_again-IsKept (escaped e c) p = p
  read_again-IsKept (endless c) p = p

  accept_response-IsKept :
      (opened : Bool) (json : j.Json) (c : Client) → P c → P (accept_response j hmac opened json c)
  unfolding accept_response
  accept_response-IsKept opened json c p =
      elim (Result-cases (value j j.get_text (codes "tun_ip") (codes "10.8.0.2") json)) [
        | inr (x, e) ↦ rw (e, accept_response) p
        | inl (ip, e) ↦ elim (Result-cases (read_tun_config j hmac json c.config.mtu ip)) [
          | inr (x, e') ↦ rw (e, accept_response) (rw (e', accept_response) (kept.addressed ip c p))
          | inl (t, e') ↦
              rw (e, accept_response)
                (rw (e', accept_response) (kept.tunnelled opened t _ (kept.addressed ip c p)))
        ]
      ]

  pub on_auth_response-IsKept :
      (opened : Bool) (payload : Bytes) (c : Client)
      → P c
      → P (on_auth_response j hmac opened payload c)
  unfolding on_auth_response
  on_auth_response-IsKept opened payload c p = elim (Option-cases (j.parse payload)) [
    | inl e ↦ ground (arith, e)
    | inr (json, e) ↦ ground (arith, e, kept.stopped c p, accept_response-IsKept opened json c p)
  ]

  on_connected-IsKept : (now : ℕ) (c : Client) → P c → P (state_of (on_connected j hmac now c))
  unfolding on_connected send_auth
  on_connected-IsKept now c p = elim (Result-cases (auth_request j hmac c.config now)) [
    | inr (x, e) ↦ rw (e, send_auth) (kept.joined c p)
    | inl (text, e) ↦
        rw (e, send_auth)
          (send_built-IsKept MsgType.auth_request text _ tt (λ x. cc) (kept.joined c p))
  ]

  pub keepalive-IsKept : (c : Client) → P c → P (state_of (send_built build_keepalive c))
  unfolding build_keepalive
  keepalive-IsKept c p = send_built-IsKept MsgType.keepalive [] c tt (λ x. cc) p

  pub connect_step-IsKept :
      (now : ℕ) (failed named : Bool) (c : Client)
      → P c
      → P (state_of (connect_step j hmac now failed named c))
  unfolding connect_step
  connect_step-IsKept now failed named c p = elim (Option-cases c.ws) [
    | inl e ↦ rw (e, connect_step) p
    | inr (w, e) ↦
        let here =
          called_back-IsKept w (ClientTransport.advance failed named w) c e (advanced failed named)
            p in
        elim (Bool-cases (ClientTransport.just_connected w.stage failed)) [
          | inl last ↦
              rw (e, connect_step)
                (rw (last, connect_step)
                  (read_again-IsKept
                    (on_connected j hmac now
                      (called_back (ClientTransport.advance failed named w) c))
                    (on_connected-IsKept now _ here)))
          | inr more ↦ rw (e, connect_step) (rw (more, connect_step) here)
        ]
  ]

  pub on_packet-IsKept :
      (opened : Bool) (type : MsgType) (size : ℕ) (payload : Bytes) (c : Client)
      → ((packet : Bytes) (d : Client) → P d → P (write_tun packet d))
      → P c
      → P (state_of (on_packet j hmac opened (record { type = type; length = size }) payload c))
  unfolding on_packet
  on_packet-IsKept opened MsgType.auth_response size payload c written p =
      on_auth_response-IsKept opened payload c p
  on_packet-IsKept opened MsgType.ip_packet size payload c written p = written payload c p
  on_packet-IsKept opened MsgType.keepalive size payload c written p =
      ground (arith, keepalive-IsKept c p)
  on_packet-IsKept opened _ size payload c written p = p

  pub on_read-IsKept :
      (opened : Bool) (buf : Bytes) (c : Client)
      → ((packet : Bytes) (d : Client) → P d → P (write_tun packet d))
      → P c
      → P (state_of (on_read j hmac opened buf c))
  unfolding on_read
  on_read-IsKept opened buf c written p = elim (Option-cases (dispatch_packet true buf)) [
    | inl e ↦ rw (e, on_read) (read_again-IsKept (returned c) p)
    | inr ((hdr, payload), e) ↦
        rw (e, on_read)
          (read_again-IsKept (on_packet j hmac opened hdr payload c)
            (on_packet-IsKept opened hdr.type hdr.length payload c written p))
  ]
