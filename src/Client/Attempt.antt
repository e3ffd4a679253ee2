-- ===== src/Client/Attempt.antt =====
-- An attempt of src/client/client.cpp to connect again.
use kirdi.Base.{ℕ, ◌≡◌, ◌≢◌, refl, arith, true, false, Bool, Bytes, Option, some, ap}
use kirdi.Client.{Client, on_timer, connect_transport, called_back, on_error}
use kirdi.Client.Messages.{connect_step}
use kirdi.Json.{JsonLib}
use kirdi.Session.{returned}
use kirdi.Transport.ClientTransport.{WsClientTransport, idle, resolve, connect, construct}
use kirdi.Transport.ClientTransport.{do_resolve, advance, just_connected, on_resolved}
use kirdi.Transport.ClientTransport.{on_tcp_connect, on_ssl_handshake, on_ws_handshake, fail}

-- A transport with nothing under way but, perhaps, an operation of `connect`.
pub record IsAttempt (w : WsClientTransport) : Type 0 where
  pub off : w.connected ≡ false
  pub not_closing : w.closing ≡ false
  pub unread : w.reading ≡ false
  pub unwritten : w.in_flight ≡ false
  pub unposted : w.posted ≡ 0

-- A client that is connecting, in some stage, with no timer set.
pub record IsConnecting (c : Client) (w : WsClientTransport) : Type 0 where
  pub transport : c.ws ≡ some w
  pub attempt : IsAttempt w
  pub disconnected : c.connected ≡ false
  pub no_timer : c.waiting ≡ 0

-- When the only reconnect timer of a running client expires, the client is connecting, and resolves.
pub on_timer-IsConnecting :
    (c : Client)
    → c.running ≡ true
    → c.connected ≡ false
    → c.waiting ≡ 1
    → (w : WsClientTransport) × (IsConnecting (on_timer false c) w) × (w.stage ≡ resolve)
unfolding on_timer connect_transport connect construct do_resolve
on_timer-IsConnecting c up off one = (
  connect c.config.server_host c.config.server_port c.config.ws_path construct,
  record {
    transport = simp up refl;
    attempt = record {
      off = refl;
      not_closing = refl;
      unread = refl;
      unwritten = refl;
      unposted = refl;
    };
    disconnected = simp (up, off) refl;
    no_timer = simp (up, one) refl;
  },
  refl,
)

advance-IsAttempt :
    (failed named : Bool) (w : WsClientTransport)
    → IsAttempt w
    → w.stage ≢ idle
    → just_connected w.stage failed ≡ false
    → IsAttempt (advance failed named w).0
      × (failed ≡ true → (advance failed named w).0.stage ≡ idle)
      × (failed ≡ false → named ≡ true → (advance failed named w).0.stage ≢ idle)
unfolding advance just_connected on_resolved on_tcp_connect on_ssl_handshake on_ws_handshake fail
advance-IsAttempt failed named w v busy more = ground arith

-- A disconnected client takes an error for the one it is handling already.
called_back_off :
    (r : WsClientTransport × Bool) (c : Client)
    → c.connected ≡ false
    → called_back r c ≡ record c { ws = some r.0 }
unfolding called_back on_error
called_back_off (w, true) c off = simp off refl
called_back_off (w, false) c off = refl

module _ (j : JsonLib) (hmac : Bytes → Bytes → Option Bytes) where
  -- In each stage of an attempt to connect again, with no timer set, an operation that
  -- succeeds, short of the last, leads to another stage, and one that fails ends the attempt:
  -- the client runs on as before and has neither a timer nor an operation of its transport
  -- under way that could make it try again.
  pub connect_step-IsConnecting :
      (now : ℕ) (failed named : Bool) (c : Client) (w : WsClientTransport)
      → IsConnecting c w
      → w.stage ≢ idle
      → just_connected w.stage failed ≡ false
      → (c' : Client) × (w' : WsClientTransport) × (connect_step j hmac now failed named c
          ≡ returned c')
        × (IsConnecting c' w')
        × (c'.running ≡ c.running)
        × (c'.delays ≡ c.delays)
        × (failed ≡ true → w'.stage ≡ idle)
        × (failed ≡ false → named ≡ true → w'.stage ≢ idle)
  unfolding connect_step
  connect_step-IsConnecting now failed named c w v busy more =
      let (next, over, onward) = advance-IsAttempt failed named w v.attempt busy more in
      (
        record c { ws = some (advance failed named w).0 },
        (advance failed named w).0,
        rw (v.transport, connect_step)
            (rw (more, connect_step)
              (ap returned (called_back_off (advance failed named w) c v.disconnected))),
        record {
          transport = refl;
          attempt = next;
          disconnected = v.disconnected;
          no_timer = v.no_timer;
        },
        refl,
        refl,
        over,
        onward,
      )
