-- ===== src/Examples/Network.antt =====
-- A machine with a routing table and a packet filter, for the examples about shell commands.
use kirdi.Base.{◌≡◌, refl, if◌then◌else◌, Bool, false, ◌&&◌, ◌||◌, not, Text, codes, List, [], ◌∷◌}
use kirdi.Base.{◌++◌, some, same_bytes, true, ◌==◌}
use kirdi.Network.{Machine, add_exclusion, add_half, add_with_metric, delete_half, setup_dns}
use kirdi.Network.{setup_routes, add_halves, delete_exclusion, low_half, high_half}
use kirdi.Network.Table.{Table, Deletions, RouteLaws, server_route}
use kirdi.Tun.{Platform, c_str}

abbrev pub iface : Text
iface = codes "utun3"

abbrev pub server_ip : Text
server_ip = codes "1.2.3.4"

abbrev pub gateway : Text
gateway = codes "5.6.7.8"

abbrev pub dns_server : Text
dns_server = codes "1.1.1.1"

-- Every command succeeds.
abbrev pub laptop : Machine
laptop = record {
  platform = Platform.macos;
  exit_code = λ done command. 0;
  getaddrinfo = λ host. some server_ip;
  popen = λ command. some (gateway ++ (10 ∷ []));
  interface_name = λ devices. iface;
}

-- What a command does to the table: a destination that it adds, or one that it deletes.
data Effect : Type 0 where
  adds : Text → Effect
  deletes : Text → Effect
  nothing : Effect

unfoldable starts_with : Text → Text → Bool
starts_with [] text = true
starts_with (c ∷ prefix) [] = false
starts_with (c ∷ prefix) (first ∷ text) = let rest = starts_with prefix text in (c == first) && rest

-- The commands about routes, with their effects. Those through a device are known by their start.
abbrev known : List (Text × Effect)
unfolding add_exclusion add_half add_with_metric delete_half delete_exclusion
known =
    (add_exclusion Platform.macos server_ip gateway, adds (server_route server_ip))
    ∷ ((add_with_metric server_ip gateway, adds (server_route server_ip))
        ∷ ((add_half Platform.macos low_half [], adds low_half)
            ∷ ((add_half Platform.macos high_half [], adds high_half)
                ∷ ((delete_exclusion Platform.macos server_ip, deletes (server_route server_ip))
                    ∷ ((delete_half Platform.macos low_half, deletes low_half)
                        ∷ ((delete_half Platform.macos high_half, deletes high_half) ∷ []))))))

unfoldable effect_in : List (Text × Effect) → Text → Effect
unfolding starts_with
effect_in [] command = nothing
effect_in ((text, effect) ∷ rest) command =
    let later = effect_in rest command in if starts_with text command then effect else later

unfoldable effect_on : Effect → Bool → Text → Bool
unfolding same_bytes
effect_on (adds destination) here d = here || same_bytes d destination
effect_on (deletes destination) here d = here && not (same_bytes d destination)
effect_on nothing here d = here

unfoldable routes_after : Bool → List Text → Text → Bool
unfolding effect_in effect_on
routes_after here [] d = here
routes_after here (command ∷ rest) d =
    routes_after (effect_on (effect_in known command) here d) rest d

routes_after-append :
    (here : Bool) (done : List Text) (command d : Text)
    → routes_after here (done ++ (command ∷ [])) d
      ≡ effect_on (effect_in known command) (routes_after here done d) d
unfolding routes_after
routes_after-append here [] command d = refl
routes_after-append here (first ∷ done) command d =
    routes_after-append (effect_on (effect_in known first) here d) done command d

-- From an empty table.
pub table : Table
table = routes_after false

pub table_empty : (d : Text) → table [] d ≡ false
unfolding table routes_after
table_empty d = refl

-- Every deletion takes effect.
abbrev pub always : Deletions
always done command = true

pub laptop-RouteLaws :
    (iface dns : Text) → RouteLaws laptop table always iface server_ip gateway dns
unfolding table effect_in effect_on add_exclusion add_half add_with_metric delete_half
    delete_exclusion c_str same_bytes starts_with
laptop-RouteLaws iface dns = record {
  known = λ e. cc;
  exclusion = λ done d. routes_after-append false done _ d;
  with_metric = λ done d. routes_after-append false done _ d;
  low = λ done d. routes_after-append false done _ d;
  high = λ done d. routes_after-append false done _ d;
  no_exclusion = λ done d. routes_after-append false done _ d;
  no_low = λ done d. routes_after-append false done _ d;
  no_high = λ done d. routes_after-append false done _ d;
  scutil = λ done d. routes_after-append false done _ d;
  no_scutil = λ done d. routes_after-append false done _ d;
  backup = λ done d. routes_after-append false done _ d;
  resolv = λ done d. routes_after-append false done _ d;
  restored = λ done d. routes_after-append false done _ d;
}

pub laptop_routed :
    table (setup_dns laptop dns_server (setup_routes laptop iface server_ip gateway [])) low_half
    ≡ true
unfolding table routes_after effect_in effect_on add_exclusion add_half setup_dns setup_routes
    add_halves c_str same_bytes starts_with known
laptop_routed = refl
