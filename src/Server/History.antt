-- ===== src/Server/History.antt =====
-- The histories of the server of src/server/server.cpp.
use kirdi.Base.{ℕ, ◌+◌, ◌^◌, ◌<◌, ◌≡◌, Bool, Bytes, List, [], ◌++◌, Option}
use kirdi.Config.{ServerConfig}
use kirdi.Inet.{Inet, InetLaws}
use kirdi.Json.{JsonLib}
use kirdi.Network.{Machine}
use kirdi.Server.{Server, Handshake, TransportEvent, new_server, on_accept, stop, on_handshake}
use kirdi.Server.{session_read, session_event}
use kirdi.Server.Boot.{Startup, run}
use kirdi.Server.Device.{TunPoll, tun_round}
use kirdi.Server.Kept.{listed, Picks, IsGood, accept-IsGood, shake-IsGood, read-IsGood, poll-IsGood}
use kirdi.Server.Kept.{event-IsGood, run-IsGood, stop-IsGood, begun-IsGood}
use kirdi.Session.{returned}
use kirdi.Session.Gate.{state_of}
use mathlib.Core.Path.{subst}

module _ (inet : Inet) (j : JsonLib) (hmac : Bytes → Bytes → Option Bytes) (fuel : ℕ)
    (config : ServerConfig) where
  -- The states of a server with the connections that are shaking hands. Fewer than 2 ^ 32 - 3
  -- connections are accepted, so the counters do not wrap.
  pub data History : Server → List Handshake → Type 0 where
    begun : (machine : Machine) → History (new_server machine config) []
    ran :
        {s : Server} {hs : List Handshake} (boot : Startup)
        → History s hs
        → History (state_of (run boot s)) hs
    accepted :
        {s : Server} {hs : List Handshake} (failed : Bool)
        → s.next_session_id + 3 < 2 ^ 32
        → History s hs
        → History (on_accept inet failed s).0 (listed (on_accept inet failed s).1 ++ hs)
    shook :
        {s : Server} {hs : List Handshake} (failed : Bool) (h : Handshake) (hs' : List Handshake)
        → Picks hs h hs'
        → History s hs
        → History (on_handshake inet failed h s).0 (listed (on_handshake inet failed h s).1 ++ hs')
    received :
        {s s' : Server} {hs : List Handshake} (now sid : ℕ) (buf : Bytes)
        → session_read j hmac fuel now sid buf s ≡ returned s'
        → History s hs
        → History s' hs
    transported :
        {s : Server} {hs : List Handshake} (event : TransportEvent) (sid : ℕ)
        → History s hs
        → History (session_event event sid s) hs
    polled :
        {s s' : Server} {hs : List Handshake} (poll : TunPoll)
        → tun_round inet.endian poll s ≡ returned s'
        → History s hs
        → History s' hs
    halted : {s : Server} {hs : List Handshake} → History s hs → History (stop s) hs

  -- In every history of the server, where addresses that are printed read back: session numbers
  -- in the table are below `next_session_id`, which has not wrapped; each session has the
  -- address that goes with its number, the configured secret and the TUN callback; each entry
  -- of `ip_to_session` leads from a session's address to that session, and each session has its
  -- entry; and each connection that is shaking hands has the number and the address that it
  -- will be registered with.
  pub History-IsGood :
      {s : Server} {hs : List Handshake} → InetLaws inet → History s hs → IsGood inet config s hs
  History-IsGood laws (begun machine) = begun-IsGood inet config machine
  History-IsGood laws (ran {s} {hs} boot r) =
      run-IsGood inet config boot s hs (History-IsGood laws r)
  History-IsGood laws (accepted {s} {hs} failed w r) =
      accept-IsGood inet config failed s hs w (History-IsGood laws r)
  History-IsGood laws (shook {s} {hs} failed h hs' k r) =
      shake-IsGood inet config failed h s hs hs' laws k (History-IsGood laws r)
  History-IsGood laws (received {s} {hs = hs} now sid buf e r) =
      subst (λ o. IsGood inet config (state_of o) hs) e
        (read-IsGood inet config j hmac fuel now sid buf s hs (History-IsGood laws r))
  History-IsGood laws (transported {s} {hs} event sid r) =
      event-IsGood inet config event sid s hs (History-IsGood laws r)
  History-IsGood laws (polled {s} {hs = hs} poll e r) =
      subst (λ o. IsGood inet config (state_of o) hs) e
        (poll-IsGood inet config poll s hs (History-IsGood laws r))
  History-IsGood laws (halted {s} {hs} r) = stop-IsGood inet config s hs (History-IsGood laws r)
