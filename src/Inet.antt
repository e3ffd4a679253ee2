-- ===== src/Inet.antt =====
-- IPv4 addresses as the sockets library has them: `inet_pton` and `inet_ntop` are parameters, and
-- `ntohl` and `htonl` go by the machine's byte order. An address in network byte order is the
-- number that its four bytes make on this machine.
use kirdi.Base.{ℕ, ◌+◌, ◌*◌, ◌/◌, ◌%◌, ◌^◌, ◌<◌, ◌≡◌, arith, Text, Option, some, refl}
use kirdi.Protocol.{Endian, little, big}

pub record Inet : Type 0 where
  pub endian : Endian
  pub inet_pton : Text → Option ℕ
  pub inet_ntop : ℕ → Text

-- What POSIX says of the two: a number is printed as a text that reads back.
pub record InetLaws (inet : Inet) : Type 0 where
  pub pton-ntop : (a : ℕ) → a < 2 ^ 32 → inet.inet_pton (inet.inet_ntop a) ≡ some a

-- The four bytes of a uint32_t in the other order.
unfoldable pub swap_bytes : ℕ → ℕ
swap_bytes a =
    a % 256 * 2 ^ 24 + a / 2 ^ 8 % 256 * 2 ^ 16 + a / 2 ^ 16 % 256 * 2 ^ 8 + a / 2 ^ 24 % 256

unfoldable pub ntohl : Endian → ℕ → ℕ
unfolding swap_bytes
ntohl little a = swap_bytes a
ntohl big a = a

unfoldable pub htonl : Endian → ℕ → ℕ
unfolding swap_bytes
htonl little a = swap_bytes a
htonl big a = a

pub swap_bytes-swap_bytes : (a : ℕ) → a < 2 ^ 32 → swap_bytes (swap_bytes a) ≡ a
unfolding swap_bytes
swap_bytes-swap_bytes a h = omega arith

pub swap_bytes-lt : (a : ℕ) → swap_bytes a < 2 ^ 32
unfolding swap_bytes
swap_bytes-lt a = omega arith

pub ntohl-htonl : (e : Endian) (a : ℕ) → a < 2 ^ 32 → ntohl e (htonl e a) ≡ a
unfolding ntohl htonl
ntohl-htonl little a h = swap_bytes-swap_bytes a h
ntohl-htonl big a h = refl

pub htonl-lt : (e : Endian) (a : ℕ) → a < 2 ^ 32 → htonl e a < 2 ^ 32
unfolding htonl
htonl-lt little a h = swap_bytes-lt a
htonl-lt big a h = h
