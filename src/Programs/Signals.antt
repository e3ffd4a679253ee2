-- ===== src/Programs/Signals.antt =====
-- The signal handlers of src/client/main.cpp and src/server/main.cpp, and the end of the first.
use kirdi.Base.{[], ◌∷◌, ◌≡◌, refl, arith, true, false, Bool, Bytes, Option, some, none}
use kirdi.Base.{if◌then◌else◌, ap, List}
use kirdi.Client.{Client, stop, run}
use kirdi.Client.Invariant.{Step}
use kirdi.Json.{JsonLib}
use kirdi.Protocol.{Endian}
use kirdi.Server.{Server}
use kirdi.Server.Device.{tun_is_open, tun_read_loop, TunPoll}
use kirdi.Session.{returned}
use kirdi.Server

-- `g_shutdown` and `g_client` of the client's program.
pub record Process : Type 0 where
  pub shutdown : Bool
  pub client : Option Client

unfoldable pub stop_client : Option Client → Option Client
stop_client none = none
stop_client (some c) = some (stop c)

-- `signal_handler` of the client's program.
unfoldable pub signal_handler : Process → Process
unfolding stop_client
signal_handler p =
    if p.shutdown then p else record { shutdown = true; client = stop_client p.client }

-- `g_client.reset()`: the client as `~Client` leaves it.
unfoldable pub reset : Process → Option Client
unfolding stop_client
reset p = stop_client p.client

-- `signal_handler` of the server's program.
unfoldable pub server_signal_handler : Option Server → Option Server
server_signal_handler none = none
server_signal_handler (some s) = some (Server.stop s)

module _ (j : JsonLib) (hmac : Bytes → Bytes → Option Bytes) where
  -- What may follow while `run` is under way: signals, and what happens to the client.
  pub data Follows (p : Process) : Process → Type 0 where
    here : Follows p p
    signalled : {q : Process} → Follows p q → Follows p (signal_handler q)
    happened :
        {b : Bool} {c c' : Client}
        → Step j hmac c c'
        → Follows p (record { shutdown = b; client = some c })
        → Follows p (record { shutdown = b; client = some c' })

  -- A client that is over stays so.
  abbrev IsDown : Client → Type 0
  IsDown c = c.running ≡ false

  -- The program has taken a signal and its client is over: further signals and the end of the program
  -- change nothing.
  pub record IsOver (p : Process) : Type 0 where
    pub taken : p.shutdown ≡ true
    pub down : (c : Client) → p.client ≡ some c → c.running ≡ false
    pub deaf : signal_handler p ≡ p
    pub once : reset p ≡ p.client

  deaf_lem : (p : Process) → p.shutdown ≡ true → signal_handler p ≡ p
  unfolding signal_handler
  deaf_lem p taken = rw (taken, signal_handler) refl

  stop_down : (c : Client) → IsDown c → stop c ≡ c
  unfolding stop
  stop_down c d = ground arith

  Follows-taken : {p q : Process} → p.shutdown ≡ true → Follows p q → q.shutdown ≡ true
  Follows-taken taken Follows.here = taken
  Follows-taken taken (Follows.signalled {q} r) =
      let before = Follows-taken taken r in rw (deaf_lem q before) before
  Follows-taken taken (Follows.happened e r) = Follows-taken taken r

  -- A signal that comes before the client runs is lost, and with it every later one: it leaves the
  -- client as it is, the client then runs, and whatever follows, no signal changes anything.
  pub early_signal-lost :
      (c : Client) {q : Process}
      → c.running ≡ false
      → Follows (record { shutdown = true; client = some (run c) }) q
      → (signal_handler (record { shutdown = false; client = some c })
          ≡ record { shutdown = true; client = some c })
        × ((run c).running ≡ true)
        × (signal_handler q ≡ q)
  unfolding signal_handler stop_client run
  early_signal-lost c {q} down r = (
    ap (λ d. record { shutdown = true; client = some d }) (stop_down c down),
    refl,
    deaf_lem q (Follows-taken refl r),
  )

stopped_twice : (s : Server) → Server.stop (Server.stop s) ≡ Server.stop s
unfolding Server.stop Server.close_tun
stopped_twice s = ground arith

stop-shut : (s : Server) → tun_is_open (Server.stop s) ≡ false
unfolding Server.stop Server.close_tun tun_is_open
stop-shut s = ground arith

loop_over :
    (endian : Endian) (polls : List TunPoll) (s : Server)
    → tun_is_open s ≡ false
    → tun_read_loop endian polls s ≡ returned s
unfolding tun_read_loop
loop_over endian [] s shut = refl
loop_over endian (poll ∷ polls) s shut = rw (shut, tun_read_loop) refl

-- A signal to the server's program ends the loop of the TUN thread, whatever the device gives then,
-- and a second signal changes nothing.
pub server_signal_handler-ends :
    (s : Server) (endian : Endian) (polls : List TunPoll)
    → let s' = Server.stop s in
      (server_signal_handler (some s) ≡ some s')
      × (server_signal_handler (some s') ≡ some s')
      × (tun_read_loop endian polls s' ≡ returned s')
unfolding server_signal_handler
server_signal_handler-ends s endian polls =
    (refl, ap some (stopped_twice s), loop_over endian polls (Server.stop s) (stop-shut s))
