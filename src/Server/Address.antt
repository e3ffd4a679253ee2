-- ===== src/Server/Address.antt =====
-- The addresses that `allocate_client_ip` of src/server/server.cpp hands out.
use kirdi.Base.{ℕ, ◌+◌, ◌%◌, ◌^◌, ◌<◌, ◌≡◌, ap, sym, ◌∙◌, arith}
use kirdi.Config.{ServerConfig}
use kirdi.Inet.{Inet, InetLaws, ntohl, htonl, ntohl-htonl, htonl-lt}
use kirdi.Server.{parse_address}

-- The address at an offset in the subnet, in host order and in network order.
abbrev pub host_address : Inet → ServerConfig → ℕ → ℕ
host_address inet config offset =
    (ntohl inet.endian (parse_address inet config.tun_subnet) + offset) % 2 ^ 32

abbrev pub address : Inet → ServerConfig → ℕ → ℕ
address inet config offset = htonl inet.endian (host_address inet config offset)

pub address-lt : (inet : Inet) (config : ServerConfig) (n : ℕ) → address inet config n < 2 ^ 32
address-lt inet config n = htonl-lt inet.endian (host_address inet config n) (omega arith)

pub address-injective :
    (inet : Inet) (config : ServerConfig) (m n : ℕ)
    → m < 2 ^ 32
    → n < 2 ^ 32
    → address inet config m ≡ address inet config n
    → m ≡ n
address-injective inet config m n hm hn e = omega (arith, same)
  where
    same : host_address inet config m ≡ host_address inet config n
    same =
        sym (ntohl-htonl inet.endian (host_address inet config m) (omega arith))
        ∙ ap (ntohl inet.endian) e
        ∙ ntohl-htonl inet.endian (host_address inet config n) (omega arith)

pub parse_address-ntop :
    (inet : Inet) → InetLaws inet → (a : ℕ) → a < 2 ^ 32 → parse_address inet (inet.inet_ntop a) ≡ a
unfolding parse_address
parse_address-ntop inet laws a h = rw (laws.pton-ntop a h, parse_address)
