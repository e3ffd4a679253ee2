-- ===== src/Examples/Resolv.antt =====
-- A machine with the two files of the resolver, for the example about DNS.
use kirdi.Base.{◌≡◌, refl, ap, ◌∙◌, if◌then◌else◌, true, Text, codes, List, [], ◌∷◌, ◌++◌, Option}
use kirdi.Base.{none, some, same_bytes}
use kirdi.Client.{Client, new_client, stop}
use kirdi.Client.Dns.{open_tunnel-resolv_conf}
use kirdi.Client.Messages.{open_tunnel}
use kirdi.Config.{default_client_config}
use kirdi.Examples.{json, hmac}
use kirdi.Examples.Network.{server_ip, gateway, dns_server}
use kirdi.Network.{Machine, add_exclusion, add_half, add_with_metric, delete_half, delete_exclusion}
use kirdi.Network.{backup_resolv, write_resolv, restore_resolv}
use kirdi.Network.Resolv.{Files, ResolvLaws, resolv_conf, backup_file, nameserver}
use kirdi.Tun.{Platform, TunConfig, c_str}

abbrev original : Text
original = codes "nameserver 9.9.9.9"

-- The file and its backup.
abbrev Disk : Type 0
Disk = Option Text × Option Text

abbrev moved : Disk → Disk
moved (resolv, none) = (resolv, none)
moved (resolv, some content) = (some content, none)

abbrev copied : Disk → Disk
copied (none, backup) = (none, backup)
copied (some content, backup) = (some content, some content)

copied_lem :
    (disk : Disk) (content : Text)
    → disk.0 ≡ some content
    → ((copied disk).0 ≡ some content) × ((copied disk).1 ≡ some content)
copied_lem (none, backup) content e = absurd (cc)
copied_lem (some x, backup) content e = (e, e)

moved_lem : (disk : Disk) (content : Text) → disk.1 ≡ some content → (moved disk).0 ≡ some content
moved_lem (resolv, none) content e = absurd (cc)
moved_lem (resolv, some x) content e = e

unfoldable effect : Text → Disk → Disk
unfolding same_bytes c_str
effect command disk =
    if same_bytes command (c_str backup_resolv)
    then copied disk
    else if same_bytes command (c_str (write_resolv dns_server))
    then (some (nameserver dns_server), disk.1)
    else if same_bytes command (c_str restore_resolv)
    then moved disk
    else disk

unfoldable disk_after : Disk → List Text → Disk
unfolding effect
disk_after disk [] = disk
disk_after disk (command ∷ rest) = disk_after (effect command disk) rest

disk_after-append :
    (disk : Disk) (done : List Text) (command : Text)
    → disk_after disk (done ++ (command ∷ [])) ≡ effect command (disk_after disk done)
unfolding disk_after
disk_after-append disk [] command = refl
disk_after-append disk (first ∷ done) command = disk_after-append (effect first disk) done command

abbrev content_of : Text → Disk → Option Text
content_of path disk =
    if same_bytes path resolv_conf
    then disk.0
    else if same_bytes path backup_file
    then disk.1
    else none

unfoldable files : Files
unfolding disk_after
files done path = content_of path (disk_after (some original, none) done)

files-append :
    (done : List Text) (command path : Text)
    → files (done ++ (command ∷ [])) path
      ≡ content_of path (effect command (disk_after (some original, none) done))
unfolding files
files-append done command path =
    ap (content_of path) (disk_after-append (some original, none) done command)

files-ResolvLaws : ResolvLaws files server_ip gateway dns_server
unfolding files effect same_bytes c_str add_exclusion add_half add_with_metric delete_half
    delete_exclusion
files-ResolvLaws = record {
  exclusion = λ done path. files-append done _ path;
  with_metric = λ done path. files-append done _ path;
  half = λ half iface done path. files-append done _ path;
  no_exclusion = λ done path. files-append done _ path;
  no_half = λ half done path. files-append done _ path;
  copied = λ done content e.
      let (now, saved) = copied_lem (disk_after (some original, none) done) content e in
      (files-append done _ resolv_conf ∙ now, files-append done _ backup_file ∙ saved);
  written = λ done. (files-append done _ resolv_conf, files-append done _ backup_file);
  moved = λ done content e.
      files-append done _ resolv_conf ∙ moved_lem (disk_after (some original, none) done) content e;
}

abbrev box : Machine
box = record {
  platform = Platform.linux;
  exit_code = λ done command. 0;
  getaddrinfo = λ host. none;
  popen = λ command. none;
  interface_name = λ devices. codes "kirdi0";
}

abbrev tunnelled : Client
tunnelled = record (new_client box (record default_client_config { dns_server = dns_server })) {
  running = true;
  server_ip = server_ip;
  original_gateway = gateway;
}

abbrev tun_config : TunConfig
tun_config = record {
  name = codes "kirdi0";
  address = codes "10.8.0.2";
  peer_address = codes "10.8.0.1";
  netmask = codes "255.255.255.0";
  mtu = 1400;
}

open_tunnel-resolv_conf_example :
    let once = open_tunnel json hmac true tun_config tunnelled in
    (files (stop once).commands resolv_conf ≡ some original)
    × (files (stop (open_tunnel json hmac true tun_config once)).commands resolv_conf
        ≡ some (nameserver dns_server))
unfolding new_client files disk_after same_bytes
open_tunnel-resolv_conf_example =
    open_tunnel-resolv_conf json hmac files tun_config tun_config tunnelled original
      files-ResolvLaws refl refl refl refl refl
