-- ===== src/Client/NoLoop.antt =====
-- No routing loop in any history of the client of src/client/client.cpp on macOS.
use kirdi.Base.{◌≡◌, refl, ◌∙◌, arith, Bool, Bool-cases, true, false, Bytes, Text, List, Option}
use kirdi.Base.{inl, inr, ◌⊎◌, [], ◌||◌, not, same_bytes, same_bytes→eq, some}
use kirdi.Client.{tun_is_open, connect_transport, Client, new_client, run, stop, on_error, on_timer}
use kirdi.Client.{write_tun, configure_network, restore_network}
use kirdi.Client.Invariant.{History, IsInvariant, History-IsInvariant}
use kirdi.Client.Messages.{open_tunnel}
use kirdi.Config.{ClientConfig}
use kirdi.Json.{JsonLib}
use kirdi.Network.{low_half, high_half, Machine, resolve_host, get_default_gateway, setup_routes}
use kirdi.Network.Guard.{IsGuarded, AreDeleted, is_half, setup_routes-IsGuarded}
use kirdi.Network.Guard.{setup_dns-IsGuarded, teardown_dns-IsGuarded, teardown_routes-IsGuarded}
use kirdi.Network.Table.{Table, RouteLaws, Deletions, server_route}
use kirdi.Tun.{Platform, TunConfig}

module _ (machine : Machine) (config : ClientConfig) (table : Table) (deletes : Deletions)
    (macos : machine.platform ≡ Platform.macos)
    (laws : (devices : List TunConfig)
      → RouteLaws machine table deletes
          (machine.interface_name devices)
          (resolve_host machine config.server_host)
          (get_default_gateway machine)
          config.dns_server)
    (gone : AreDeleted machine.platform deletes) where
  abbrev host : Text
  host = resolve_host machine config.server_host

  abbrev gateway : Text
  gateway = get_default_gateway machine

  -- The client's addresses are those that `run` finds, or unknown yet, and its routes make no loop.
  record IsSafe (c : Client) : Type 0 where
    machine_same : c.machine ≡ machine
    config_same : c.config ≡ config
    found : (c.server_ip ≡ []) ⊎ ((c.server_ip ≡ host) × (c.original_gateway ≡ gateway))
    guarded : IsGuarded table host c.commands

  -- What safety rests on.
  abbrev IsAside : Client → Client → Type 0
  IsAside c c' =
      (c'.machine ≡ c.machine)
      × (c'.config ≡ c.config)
      × (c'.server_ip ≡ c.server_ip)
      × (c'.original_gateway ≡ c.original_gateway)

  setup_routes_unknown :
      (iface gw : Text) (done : List Text) → setup_routes machine iface [] gw done ≡ done
  unfolding setup_routes
  setup_routes_unknown iface gw done = refl

  routes-IsGuarded :
      (devices : List TunConfig) (c : Client)
      → IsSafe c
      → IsGuarded table host (
          setup_routes machine
            (machine.interface_name devices)
            c.server_ip
            c.original_gateway
            c.commands)
  routes-IsGuarded devices c v =
      let iface = machine.interface_name devices in
      elim v.found [
        | inl none_known ↦
            rw none_known (rw (setup_routes_unknown iface c.original_gateway c.commands) v.guarded)
        | inr (ip, gw) ↦
            rw (ip, gw)
              (setup_routes-IsGuarded machine table deletes iface host gateway config.dns_server
                (laws devices) c.commands macos v.guarded)
      ]

  configure-IsGuarded :
      (devices : List TunConfig) (c : Client)
      → IsSafe c
      → IsGuarded table host (configure_network devices c)
  unfolding configure_network
  configure-IsGuarded devices c v =
      let iface = machine.interface_name devices in
      rw (v.machine_same, v.config_same)
        (elim (Bool-cases config.auto_route) [
          | inr off ↦ rw off v.guarded
          | inl on ↦ rw on (
              setup_dns-IsGuarded machine table deletes iface host gateway config.dns_server
                (laws devices) _ (routes-IsGuarded devices c v))
        ])

  restore-IsGuarded : (c : Client) → IsSafe c → IsGuarded table host (restore_network c)
  unfolding restore_network
  restore-IsGuarded c v =
      let known : (c.server_ip ≡ []) ⊎ (c.server_ip ≡ host) = elim v.found [
        | inl e ↦ inl e
        | inr (e, gw) ↦ inr e
      ] in
      rw (v.machine_same, v.config_same)
        (teardown_routes-IsGuarded machine table deletes (machine.interface_name []) host gateway
          config.dns_server (laws []) config.auto_route c.server_ip _ macos known gone
          (teardown_dns-IsGuarded machine table deletes (machine.interface_name []) host gateway
            config.dns_server (laws []) c.commands v.guarded))

  IsAside-IsSafe :
      (c c' : Client) → IsAside c c' → IsGuarded table host c'.commands → IsSafe c → IsSafe c'
  IsAside-IsSafe c c' (m, g, i, o) guarded v = record {
    machine_same = m ∙ v.machine_same;
    config_same = g ∙ v.config_same;
    found = rw (i, o) v.found;
    guarded = guarded;
  }

  run-IsSafe : (c : Client) → IsSafe c → IsSafe (run c)
  unfolding run
  run-IsSafe c v = record {
    machine_same = v.machine_same;
    config_same = v.config_same;
    found = inr (rw (v.machine_same, v.config_same) (refl, refl));
    guarded = v.guarded;
  }

  stop-IsSafe : (c : Client) → IsSafe c → IsSafe (stop c)
  unfolding stop
  stop-IsSafe c v = elim (Bool-cases c.running) [
    | inr down ↦ simp down v
    | inl up ↦ simp up (IsAside-IsSafe c _ (refl, refl, refl, refl) (restore-IsGuarded c v) v)
  ]

  on_error-IsSafe : (c : Client) → IsSafe c → IsSafe (on_error c)
  unfolding on_error
  on_error-IsSafe c v = elim (Bool-cases c.connected) [
    | inr off ↦ simp off v
    | inl on ↦ elim (Bool-cases c.running) [
      | inr down ↦
          simp (on, down) (IsAside-IsSafe c _ (refl, refl, refl, refl) (restore-IsGuarded c v) v)
      | inl up ↦
          simp (on, up) (IsAside-IsSafe c _ (refl, refl, refl, refl) (restore-IsGuarded c v) v)
    ]
  ]

  timer-IsSafe : (cancelled : Bool) (c : Client) → IsSafe c → IsSafe (on_timer cancelled c)
  unfolding on_timer connect_transport
  timer-IsSafe cancelled c v = elim (Bool-cases (cancelled || not c.running)) [
    | inl e ↦ rw (e, on_timer) (IsAside-IsSafe c _ (refl, refl, refl, refl) v.guarded v)
    | inr e ↦ rw (e, on_timer) (IsAside-IsSafe c _ (refl, refl, refl, refl) v.guarded v)
  ]

  written-IsSafe : (packet : Bytes) (c : Client) → IsSafe c → IsSafe (write_tun packet c)
  unfolding write_tun
  written-IsSafe packet c v = elim (Bool-cases (tun_is_open c)) [
    | inl e ↦ rw (e, write_tun) (IsAside-IsSafe c _ (refl, refl, refl, refl) v.guarded v)
    | inr e ↦ rw (e, write_tun) v
  ]

  halves_absent :
      (d : Text)
      → table [] low_half ≡ false
      → table [] high_half ≡ false
      → is_half d ≡ true
      → table [] d ≡ false
  halves_absent d no_low no_high half = elim (Bool-cases (same_bytes d low_half)) [
    | inl e ↦ rw (same_bytes→eq d low_half e) no_low
    | inr n ↦ rw (same_bytes→eq d high_half (ground arith)) no_high
  ]

  module _ (j : JsonLib) (hmac : Bytes → Bytes → Option Bytes) where
    tunnel-IsSafe :
        (opened : Bool) (t : TunConfig) (c : Client)
        → IsSafe c
        → IsSafe (open_tunnel j hmac opened t c)
    unfolding open_tunnel
    tunnel-IsSafe true t c v =
        IsAside-IsSafe c _ (refl, refl, refl, refl) (configure-IsGuarded _ c v) v
    tunnel-IsSafe false t c v =
        stop-IsSafe (record c { tun = some false })
          (IsAside-IsSafe c (record c { tun = some false }) (refl, refl, refl, refl) v.guarded v)

    IsSafe-IsInvariant : IsInvariant j hmac IsSafe
    unfolding on_timer write_tun
    IsSafe-IsInvariant = record {
      relinked = λ ws c v. IsAside-IsSafe c _ (refl, refl, refl, refl) v.guarded v;
      failed = on_error-IsSafe;
      stopped = stop-IsSafe;
      timed = λ cancelled c v. timer-IsSafe cancelled c v;
      joined = λ c v. IsAside-IsSafe c _ (refl, refl, refl, refl) v.guarded v;
      addressed = λ ip c v. IsAside-IsSafe c _ (refl, refl, refl, refl) v.guarded v;
      tunnelled = tunnel-IsSafe;
      written = written-IsSafe;
    }

    begun-IsSafe :
        table [] low_half ≡ false → table [] high_half ≡ false → IsSafe (new_client machine config)
    unfolding new_client
    begun-IsSafe no_low no_high = record {
      machine_same = refl;
      config_same = refl;
      found = inl refl;
      guarded = λ d half here. let off = halves_absent d no_low no_high half in absurd (cc);
    }

    -- A client runs on macOS, on a machine without a route to either half of the address space
    -- before, where the commands act on the table as `RouteLaws` says and those that delete the
    -- halves take effect. In every history, whatever the
    -- server and the network do, whichever other commands fail, and however often tunnels are
    -- opened, there is a route to a half of the address space only where there is one to the
    -- server's address.
    pub History-IsGuarded :
        {c : Client} (d : Text)
        → table [] low_half ≡ false
        → table [] high_half ≡ false
        → History j hmac machine config c
        → is_half d ≡ true
        → table c.commands d ≡ true
        → table c.commands (server_route host) ≡ true
    History-IsGuarded d no_low no_high r =
        (History-IsInvariant j hmac IsSafe IsSafe-IsInvariant machine config
            (begun-IsSafe no_low no_high) run-IsSafe r).guarded
          d
