-- ===== src/Client/Invariant.antt =====
-- The histories of the client of src/client/client.cpp, and what holds in all of them.
use kirdi.Base.{ℕ, ◌<◌, ◌≡◌, arith, true, false, Bool, Bytes, Text, some, Option, Option-cases, inl}
use kirdi.Base.{inr, Result-cases}
use kirdi.Client.{Client, new_client, run, stop, on_error, on_timer, tun_round, on_read_failed}
use kirdi.Client.{on_write, run_posted, called_back, send, write_tun}
use kirdi.Client.Kept.{IsKept, connect_step-IsKept, on_read_failed-IsKept, run_posted-IsKept}
use kirdi.Client.Kept.{on_read-IsKept}
use kirdi.Client.Messages.{on_read, connect_step, open_tunnel}
use kirdi.Config.{ClientConfig}
use kirdi.Json.{JsonLib}
use kirdi.Network.{Machine}
use kirdi.Protocol.{build_ip_packet}
use kirdi.Server.Device.{TunPoll}
use kirdi.Session.{returned}
use kirdi.Session.Gate.{state_of}
use kirdi.Transport.ClientTransport.{WsClientTransport}
use kirdi.Tun.{TunConfig}
use mathlib.Core.Path.{subst}
use kirdi.Transport.ClientTransport

module _ (j : JsonLib) (hmac : Bytes → Bytes → Option Bytes) where
  -- What happens to a client that runs or ran. A transport that was replaced may still report an
  -- error.
  pub data Step (c : Client) : Client → Type 0 where
    advanced :
        {c' : Client} (now : ℕ) (failed named : Bool)
        → connect_step j hmac now failed named c ≡ returned c'
        → Step c c'
    received :
        {c' : Client} (opened : Bool) (buf : Bytes)
        → on_read j hmac opened buf c ≡ returned c'
        → Step c c'
    cut : Step c (on_read_failed c)
    wrote : (failed : Bool) → Step c (on_write failed c)
    posted : Step c (run_posted c)
    reported : Step c (on_error c)
    expired : (cancelled : Bool) → 0 < c.waiting → Step c (on_timer cancelled c)
    polled : {c' : Client} (poll : TunPoll) → tun_round poll c ≡ returned c' → Step c c'
    halted : Step c (stop c)

  -- The histories of a client.
  pub data History (machine : Machine) (config : ClientConfig) : Client → Type 0 where
    begun : History machine config (new_client machine config)
    ran : {c : Client} → History machine config c → History machine config (run c)
    followed : {c c' : Client} → Step c c' → History machine config c → History machine config c'

-- A property that no handler breaks.
pub record IsInvariant (j : JsonLib) (hmac : Bytes → Bytes → Option Bytes) (P : Client → Type 0)
    : Type 0 where
  pub relinked : (ws : Option WsClientTransport) (c : Client) → P c → P (record c { ws = ws })
  pub failed : (c : Client) → P c → P (on_error c)
  pub stopped : (c : Client) → P c → P (stop c)
  pub timed : (cancelled : Bool) (c : Client) → P c → P (on_timer cancelled c)
  pub joined : (c : Client) → P c → P (record c { connected = true; reconnect_attempt = 0 })
  pub addressed : (ip : Text) (c : Client) → P c → P (record c { virtual_ip = ip })
  pub tunnelled :
      (opened : Bool) (t : TunConfig) (c : Client) → P c → P (open_tunnel j hmac opened t c)
  pub written : (packet : Bytes) (c : Client) → P c → P (write_tun packet c)

IsInvariant-IsKept :
    (j : JsonLib) (hmac : Bytes → Bytes → Option Bytes) (P : Client → Type 0)
    → IsInvariant j hmac P
    → IsKept j hmac P
IsInvariant-IsKept j hmac P inv = record {
  linked = λ w w' c e t p. inv.relinked (some w') c p;
  failed = inv.failed;
  stopped = inv.stopped;
  joined = inv.joined;
  addressed = inv.addressed;
  tunnelled = inv.tunnelled;
}

module _ (j : JsonLib) (hmac : Bytes → Bytes → Option Bytes) (P : Client → Type 0)
    (inv : IsInvariant j hmac P) where
  abbrev kept : IsKept j hmac P
  kept = IsInvariant-IsKept j hmac P inv

  send-IsInvariant : (pkt : Bytes) (c : Client) → P c → P (send pkt c)
  unfolding send
  send-IsInvariant pkt c p = elim (Option-cases c.ws) [
    | inl e ↦ rw (e, send) p
    | inr (w, e) ↦ rw (e, send) (inv.relinked (some (ClientTransport.send pkt w)) c p)
  ]

  called_back-IsInvariant : (r : WsClientTransport × Bool) (c : Client) → P c → P (called_back r c)
  unfolding called_back
  called_back-IsInvariant (w, true) c p = inv.failed _ (inv.relinked (some w) c p)
  called_back-IsInvariant (w, false) c p = inv.relinked (some w) c p

  on_write-IsInvariant : (failed : Bool) (c : Client) → P c → P (on_write failed c)
  unfolding on_write
  on_write-IsInvariant failed c p = elim (Option-cases c.ws) [
    | inl e ↦ rw (e, on_write) p
    | inr (w, e) ↦
        rw (e, on_write) (called_back-IsInvariant (ClientTransport.on_write failed w) c p)
  ]

  tun_round-IsInvariant : (poll : TunPoll) (c : Client) → P c → P (state_of (tun_round poll c))
  unfolding tun_round
  tun_round-IsInvariant TunPoll.quiet c p = p
  tun_round-IsInvariant TunPoll.failed c p = p
  tun_round-IsInvariant (TunPoll.readable bytes) c p = elim (Result-cases (build_ip_packet bytes)) [
    | inl (pkt, e) ↦ ground (arith, e, send-IsInvariant pkt c p)
    | inr (x, e) ↦ ground (arith, e)
  ]

  -- Each step keeps what no handler breaks.
  pub Step-IsInvariant : {c c' : Client} → Step j hmac c c' → P c → P c'
  Step-IsInvariant (Step.advanced now failed named e) p =
      subst (λ o. P (state_of o)) e (connect_step-IsKept j hmac P kept now failed named _ p)
  Step-IsInvariant (Step.received opened buf e) p =
      subst (λ o. P (state_of o)) e (on_read-IsKept j hmac P kept opened buf _ inv.written p)
  Step-IsInvariant Step.cut p = on_read_failed-IsKept j hmac P kept _ p
  Step-IsInvariant (Step.wrote failed) p = on_write-IsInvariant failed _ p
  Step-IsInvariant Step.posted p = run_posted-IsKept j hmac P kept _ p
  Step-IsInvariant Step.reported p = inv.failed _ p
  Step-IsInvariant (Step.expired cancelled h) p = inv.timed cancelled _ p
  Step-IsInvariant (Step.polled poll e) p =
      subst (λ o. P (state_of o)) e (tun_round-IsInvariant poll _ p)
  Step-IsInvariant Step.halted p = inv.stopped _ p

  -- An invariant that a new client has, and that `run` keeps, holds in every history.
  pub History-IsInvariant :
      (machine : Machine) (config : ClientConfig) {c : Client}
      → P (new_client machine config)
      → ((d : Client) → P d → P (run d))
      → History j hmac machine config c
      → P c
  History-IsInvariant machine config first runs History.begun = first
  History-IsInvariant machine config first runs (History.ran {c} r) =
      runs c (History-IsInvariant machine config first runs r)
  History-IsInvariant machine config first runs (History.followed e r) =
      Step-IsInvariant e (History-IsInvariant machine config first runs r)
