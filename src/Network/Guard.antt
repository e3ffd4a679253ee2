-- ===== src/Network/Guard.antt =====
-- No routing loop on macOS: a catch-all route stands only beside the route to the server.
use kirdi.Base.{◌≡◌, refl, arith, Bool, true, inl, inr, ◌⊎◌, ◌||◌, Text, List, [], same_bytes}
use kirdi.Base.{same_bytes_refl}
use kirdi.Network.{Machine, system, setup_routes, setup_dns, teardown_routes, teardown_dns}
use kirdi.Network.{add_exclusion, delete_half, delete_routes, low_half, high_half}
use kirdi.Network.Table.{Table, Deletions, RouteLaws, server_route, setup_dns-table}
use kirdi.Network.Table.{teardown_dns-table, add_halves-keeps}
use kirdi.Tun.{Platform}

abbrev pub is_half : Text → Bool
is_half d = same_bytes d low_half || same_bytes d high_half

abbrev pub IsGuarded : Table → Text → List Text → Type 0
IsGuarded table server_ip done =
    (d : Text) → is_half d ≡ true → table done d ≡ true → table done (server_route server_ip) ≡ true

-- The commands that delete the halves take effect.
abbrev pub AreDeleted : Platform → Deletions → Type 0
AreDeleted platform deletes =
    ((done : List Text) → deletes done (delete_half platform low_half) ≡ true)
    × ((done : List Text) → deletes done (delete_half platform high_half) ≡ true)

module _ (m : Machine) (table : Table) (deletes : Deletions)
    (iface server_ip gateway dns_server : Text)
    (laws : RouteLaws m table deletes iface server_ip gateway dns_server) where
  pub setup_routes-IsGuarded :
      (done : List Text)
      → m.platform ≡ Platform.macos
      → IsGuarded table server_ip done
      → IsGuarded table server_ip (setup_routes m iface server_ip gateway done)
  unfolding setup_routes
  setup_routes-IsGuarded done e v d half here =
      let exclusion = add_exclusion Platform.macos server_ip gateway in
      let server = server_route server_ip in
      ground (
        arith,
        e,
        here,
        v d half,
        laws.exclusion done d,
        laws.exclusion done server,
        same_bytes_refl server,
        add_halves-keeps m table deletes iface server_ip gateway dns_server laws
            (system exclusion done) server,
      )

  pub setup_dns-IsGuarded :
      (done : List Text)
      → IsGuarded table server_ip done
      → IsGuarded table server_ip (setup_dns m dns_server done)
  setup_dns-IsGuarded done v d half here =
      let same =
        setup_dns-table m table deletes iface server_ip gateway dns_server laws m.platform done in
      ground (arith, here, v d half, same d refl, same (server_route server_ip) refl)

  pub teardown_dns-IsGuarded :
      (done : List Text)
      → IsGuarded table server_ip done
      → IsGuarded table server_ip (teardown_dns m dns_server done)
  teardown_dns-IsGuarded done v d half here =
      let same =
        teardown_dns-table m table deletes iface server_ip gateway dns_server laws m.platform
          done in
      ground (arith, here, v d half, same d refl, same (server_route server_ip) refl)

  -- Where the halves are deleted, also if the address of the server is not known yet.
  pub teardown_routes-IsGuarded :
      (auto_route : Bool) (known : Text) (done : List Text)
      → m.platform ≡ Platform.macos
      → (known ≡ []) ⊎ (known ≡ server_ip)
      → AreDeleted m.platform deletes
      → IsGuarded table server_ip done
      → IsGuarded table server_ip (teardown_routes m auto_route known done)
  unfolding teardown_routes delete_routes
  teardown_routes-IsGuarded auto_route known done e (inl none_known) gone v d half here =
      let low = system (delete_half m.platform low_half) done in
      ground (
        arith,
        e,
        none_known,
        here,
        v d half,
        laws.no_low done d,
        laws.no_high low d,
        gone.0 done,
        gone.1 low,
      )
  teardown_routes-IsGuarded auto_route known done e (inr same) gone v d half here =
      let low = system (delete_half m.platform low_half) done in
      let high = system (delete_half m.platform high_half) low in
      ground (
        arith,
        e,
        same,
        here,
        v d half,
        laws.no_low done d,
        laws.no_high low d,
        laws.no_exclusion high d,
        laws.no_exclusion high (server_route server_ip),
        gone.0 done,
        gone.1 low,
      )
