-- ===== src/Server/Capacity.antt =====
-- How many connections src/server/server.cpp takes, and the addresses that it gives them.
use kirdi.Base.{ℕ}
use kirdi.Base.{List}
use kirdi.Inet.{Inet, ntohl}
use kirdi.Server.{Server, parse_address}
use kirdi.Server.History.{History}

-- A number in host order.
abbrev pub host_order : Inet → List ℕ → ℕ
host_order inet text = ntohl inet.endian (parse_address inet text)
