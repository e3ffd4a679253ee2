-- ===== src/Client/Stopping.antt =====
-- `stop` of src/client/client.cpp.
use kirdi.Base.{◌≡◌, refl, arith, true, false, Bool, Bytes}
use kirdi.Client.{Client, stop, tun_round, on_timer, on_error, send, tun_is_open, close_tun}
use kirdi.Client.{close_ws}
use kirdi.Server.Device.{TunPoll}
use kirdi.Session.{returned}
use kirdi.Transport.ClientTransport

-- Nothing that may still run makes a client do anything.
pub record IsStopped (c : Client) : Type 0 where
  pub down : c.running ≡ false
  pub no_tun : tun_is_open c ≡ false
  pub no_round : (poll : TunPoll) → tun_round poll c ≡ returned c
  pub no_send : (pkt : Bytes) → send pkt c ≡ c
  pub no_connection : (cancelled : Bool) → (on_timer cancelled c).ws ≡ c.ws
  pub no_timer : (on_error c).waiting ≡ c.waiting
  pub once : stop c ≡ c

tun_round_down : (poll : TunPoll) (c : Client) → c.running ≡ false → tun_round poll c ≡ returned c
unfolding tun_round
tun_round_down TunPoll.quiet c down = refl
tun_round_down TunPoll.failed c down = refl
tun_round_down (TunPoll.readable bytes) c down = simp down refl

send-stop : (pkt : Bytes) (c : Client) → c.running ≡ true → send pkt (stop c) ≡ stop c
unfolding send stop close_ws ClientTransport.send ClientTransport.close
send-stop pkt c up = ground arith

on_timer_down :
    (cancelled : Bool) (c : Client) → c.running ≡ false → (on_timer cancelled c).ws ≡ c.ws
unfolding on_timer
on_timer_down cancelled c down = ground arith

on_error_down : (c : Client) → c.running ≡ false → (on_error c).waiting ≡ c.waiting
unfolding on_error
on_error_down c down = ground arith

-- A running client that is stopped has no open device; a round of its TUN thread does
-- nothing, its transport takes no message, an expiring timer opens no connection, an error starts no
-- timer, and stopping it again changes nothing.
pub stop-IsStopped : (c : Client) → c.running ≡ true → IsStopped (stop c)
unfolding stop close_tun tun_is_open
stop-IsStopped c up = record {
  down = down;
  no_tun = ground arith;
  no_round = λ poll. tun_round_down poll (stop c) down;
  no_send = λ pkt. send-stop pkt c up;
  no_connection = λ cancelled. on_timer_down cancelled (stop c) down;
  no_timer = on_error_down (stop c) down;
  once = ground arith;
}
  where
    down : (stop c).running ≡ false
    down = ground arith
