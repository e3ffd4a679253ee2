-- ===== src/Client/Reconnect.antt =====
-- The delays of the timers of src/client/client.cpp.
use kirdi.Base.{◌+◌, ◌≡◌, refl, arith, true, false, Bool, Bytes, All, some, Option, Bool-cases, inl}
use kirdi.Base.{inr, sym, ◌∙◌, ◌%◌, ◌^◌, All-append}
use kirdi.Client.{TunConfig, reconnect_delay, write_tun, Client, new_client, run, stop, on_error}
use kirdi.Client.{on_timer, schedule_reconnect, Machine}
use kirdi.Client.Invariant.{History, IsInvariant, History-IsInvariant}
use kirdi.Client.Messages.{open_tunnel}
use kirdi.Config.{ClientConfig}
use kirdi.Json.{JsonLib}

-- Every delay is one second, and a connected client has counted no attempt.
pub record IsFlat (c : Client) : Type 0 where
  pub fresh : c.connected ≡ true → c.reconnect_attempt ≡ 0
  pub one_second : All (λ d. d ≡ 1) c.delays

-- What the two facts rest on stays the same.
abbrev IsSame : Client → Client → Type 0
IsSame c c' =
    (c'.connected ≡ c.connected)
    × (c'.reconnect_attempt ≡ c.reconnect_attempt)
    × (c'.delays ≡ c.delays)

IsSame-IsFlat : (c c' : Client) → IsSame c c' → IsFlat c → IsFlat c'
IsSame-IsFlat c c' (e, n, d) v = record {
  fresh = λ h. n ∙ v.fresh (sym e ∙ h);
  one_second = rw d v.one_second;
}

first_delay :
    (c : Client)
    → c.reconnect_attempt ≡ 0
    → reconnect_delay ((c.reconnect_attempt + 1) % 2 ^ 32) ≡ 1
unfolding reconnect_delay
first_delay c e = rw e refl

on_error-IsFlat : (c : Client) → IsFlat c → IsFlat (on_error c)
unfolding on_error schedule_reconnect
on_error-IsFlat c v = elim (Bool-cases c.connected) [
  | inr off ↦ simp off v
  | inl on ↦ elim (Bool-cases c.running) [
    | inr down ↦ simp (on, down) (record { fresh = λ h. absurd (cc); one_second = v.one_second })
    | inl up ↦
        simp (on, up)
          (record {
            fresh = λ h. absurd (cc);
            one_second =
                All-append (λ d. d ≡ 1) c.delays _ v.one_second (first_delay c (v.fresh on));
          })
  ]
]

run-IsSame : (c : Client) → IsSame c (run c)
unfolding run
run-IsSame c = (refl, refl, refl)

stop-IsSame : (c : Client) → IsSame c (stop c)
unfolding stop
stop-IsSame c = ground arith

on_timer-IsSame : (cancelled : Bool) (c : Client) → IsSame c (on_timer cancelled c)
unfolding on_timer
on_timer-IsSame cancelled c = ground arith

module _ (j : JsonLib) (hmac : Bytes → Bytes → Option Bytes) where
  open_tunnel-IsSame :
      (opened : Bool) (t : TunConfig) (c : Client) → IsSame c (open_tunnel j hmac opened t c)
  unfolding open_tunnel
  open_tunnel-IsSame true t c = (refl, refl, refl)
  open_tunnel-IsSame false t c = stop-IsSame (record c { tun = some false })

  write_tun-IsSame : (packet : Bytes) (c : Client) → IsSame c (write_tun packet c)
  unfolding write_tun
  write_tun-IsSame packet c = ground arith

  IsFlat-IsInvariant : IsInvariant j hmac IsFlat
  IsFlat-IsInvariant = record {
    relinked = λ ws c. IsSame-IsFlat c _ (refl, refl, refl);
    failed = on_error-IsFlat;
    stopped = λ c. IsSame-IsFlat c (stop c) (stop-IsSame c);
    timed = λ cancelled c. IsSame-IsFlat c _ (on_timer-IsSame cancelled c);
    joined = λ c v. record { fresh = λ h. refl; one_second = v.one_second };
    addressed = λ ip c. IsSame-IsFlat c _ (refl, refl, refl);
    tunnelled = λ opened t c. IsSame-IsFlat c _ (open_tunnel-IsSame opened t c);
    written = λ packet c. IsSame-IsFlat c _ (write_tun-IsSame packet c);
  }

  -- In every history of a client each reconnect timer is started with a delay of one second, however
  -- many connections were lost before: the counter that the delay grows with is reset by each
  -- connection, and a timer is only started by the loss of one.
  pub History-IsFlat :
      (machine : Machine) (config : ClientConfig) {c : Client}
      → History j hmac machine config c
      → IsFlat c
  unfolding new_client
  History-IsFlat machine config r =
      History-IsInvariant j hmac IsFlat IsFlat-IsInvariant machine config
        (record { fresh = λ h. refl; one_second = tt })
        (λ c. IsSame-IsFlat c (run c) (run-IsSame c)) r
