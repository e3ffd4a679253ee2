-- ===== src/Network/Resolv.antt =====
-- The resolver's file behind the commands of src/client/client.cpp on Linux.
use kirdi.Base.{◌≡◌, arith, Bool, false, Text, codes, List, ◌++◌, Option, some, is_empty, ◌∙◌}
use kirdi.Network.{Machine, system, setup_routes, exclude_linux, add_halves, add_exclusion}
use kirdi.Network.{add_half, add_with_metric, low_half, high_half, delete_half, delete_exclusion}
use kirdi.Network.{delete_routes, teardown_routes, setup_dns, teardown_dns, backup_resolv}
use kirdi.Network.{write_resolv, restore_resolv}
use kirdi.Tun.{Platform}

-- What is in a file, after commands.
abbrev pub Files : Type 0
Files = List Text → Text → Option Text

abbrev pub resolv_conf : Text
resolv_conf = codes "/etc/resolv.conf"

abbrev pub backup_file : Text
backup_file = codes "/etc/resolv.conf.kirdi-backup"

abbrev pub nameserver : Text → Text
nameserver dns_server = codes "nameserver " ++ dns_server ++ codes "\n"

abbrev pub LeavesFiles : Files → Text → Type 0
LeavesFiles files command =
    (done : List Text) (path : Text) → files (system command done) path ≡ files done path

-- What `cp`, `echo >` and `mv` are documented to do to the two files, run by root. The commands about
-- routes leave files alone.
pub record ResolvLaws (files : Files) (server_ip gateway dns_server : Text) : Type 0 where
  pub exclusion : LeavesFiles files (add_exclusion Platform.linux server_ip gateway)
  pub with_metric : LeavesFiles files (add_with_metric server_ip gateway)
  pub half : (half iface : Text) → LeavesFiles files (add_half Platform.linux half iface)
  pub no_exclusion : LeavesFiles files (delete_exclusion Platform.linux server_ip)
  pub no_half : (half : Text) → LeavesFiles files (delete_half Platform.linux half)
  pub copied :
      (done : List Text) (content : Text)
      → files done resolv_conf ≡ some content
      → (files (system backup_resolv done) resolv_conf ≡ some content)
        × (files (system backup_resolv done) backup_file ≡ some content)
  pub written :
      (done : List Text)
      → (files (system (write_resolv dns_server) done) resolv_conf ≡ some (nameserver dns_server))
        × (files (system (write_resolv dns_server) done) backup_file ≡ files done backup_file)
  pub moved :
      (done : List Text) (content : Text)
      → files done backup_file ≡ some content
      → files (system restore_resolv done) resolv_conf ≡ some content

module _ (files : Files) (server_ip gateway dns_server : Text)
    (laws : ResolvLaws files server_ip gateway dns_server) where
  setup_routes-files :
      (m : Machine) (iface : Text) (done : List Text) (path : Text)
      → m.platform ≡ Platform.linux
      → files (setup_routes m iface server_ip gateway done) path ≡ files done path
  unfolding setup_routes exclude_linux add_halves
  setup_routes-files m iface done path e =
      let first = add_exclusion Platform.linux server_ip gateway in
      let excluded = exclude_linux m server_ip gateway done in
      let low = system (add_half Platform.linux low_half iface) excluded in
      ground (
        arith,
        e,
        laws.exclusion done path,
        laws.with_metric (system first done) path,
        laws.half low_half iface excluded path,
        laws.half high_half iface low path,
      )

  teardown_routes-files :
      (m : Machine) (auto_route : Bool) (done : List Text) (path : Text)
      → m.platform ≡ Platform.linux
      → files (teardown_routes m auto_route server_ip done) path ≡ files done path
  unfolding teardown_routes delete_routes
  teardown_routes-files m auto_route done path e =
      let low = system (delete_half Platform.linux low_half) done in
      let high = system (delete_half Platform.linux high_half) low in
      ground (
        arith,
        e,
        laws.no_half low_half done path,
        laws.no_half high_half low path,
        laws.no_exclusion high path,
      )

  -- A tunnel is set up: the file names the configured server, and the backup is what it was.
  pub setup-files :
      (m : Machine) (iface : Text) (done : List Text) (content : Text)
      → m.platform ≡ Platform.linux
      → is_empty dns_server ≡ false
      → files done resolv_conf ≡ some content
      → let after = setup_dns m dns_server (setup_routes m iface server_ip gateway done) in
        (files after resolv_conf ≡ some (nameserver dns_server))
        × (files after backup_file ≡ some content)
  unfolding setup_dns
  setup-files m iface done content e named there =
      let routed = setup_routes m iface server_ip gateway done in
      let write = laws.written (system backup_resolv routed) in
      let same = setup_routes-files m iface done resolv_conf e in
      let copy = laws.copied routed content (same ∙ there) in ground (arith, e, named, copy, write)

  -- A tunnel is torn down: the file is the backup.
  pub teardown-files :
      (m : Machine) (auto_route : Bool) (done : List Text) (content : Text)
      → m.platform ≡ Platform.linux
      → is_empty dns_server ≡ false
      → files done backup_file ≡ some content
      → files (teardown_routes m auto_route server_ip (teardown_dns m dns_server done)) resolv_conf
        ≡ some content
  unfolding teardown_dns
  teardown-files m auto_route done content e named saved = ground (
    arith,
    e,
    named,
    laws.moved done content saved,
    teardown_routes-files m auto_route (system restore_resolv done) resolv_conf e,
  )
